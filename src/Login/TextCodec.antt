-- ===== src/Login/TextCodec.antt =====
-- internal/login/textcodec.go. A string is the list of its bytes; nil and the empty list are one.
pub mod RoundTrip
use uiscsi.Common.{ℕ, Bool, true, false, List, [], ◌∷◌, ◌++◌, ◌==◌, if◌then◌else◌}

-- '='
abbrev pub equals_sign : ℕ
equals_sign = 0x3d

pub record KeyValue : Type 0 where
  pub key : List ℕ
  pub value : List ℕ

unfoldable pub encode_text_kv : List KeyValue → List ℕ
encode_text_kv [] = []
encode_text_kv (p ∷ pairs) = p.key ++ (equals_sign ∷ (p.value ++ (0 ∷ encode_text_kv pairs)))

-- bytes.Split with a separator of one byte.
abbrev pub before_first : ℕ → List (List ℕ) → List (List ℕ)
before_first b [] = (b ∷ []) ∷ []
before_first b (seg ∷ segs) = (b ∷ seg) ∷ segs

unfoldable pub split : ℕ → List ℕ → List (List ℕ)
split sep [] = [] ∷ []
split sep (b ∷ bs) = let segs = split sep bs in if b == sep then [] ∷ segs else before_first b segs

-- strings.Cut with a separator of one byte.
unfoldable pub cut : ℕ → List ℕ → List ℕ × List ℕ
cut sep [] = ([], [])
cut sep (b ∷ bs) =
    let (before, after) = cut sep bs in if b == sep then ([], bs) else (b ∷ before, after)

-- The loop over the segments.
unfoldable pub decode_segments : List (List ℕ) → List KeyValue
unfolding cut
decode_segments [] = []
decode_segments ([] ∷ segs) = decode_segments segs
decode_segments ((b ∷ bs) ∷ segs) =
    let (key, value) = cut equals_sign (b ∷ bs) in
    record { key = key; value = value } ∷ decode_segments segs

unfoldable pub decode_text_kv : List ℕ → List KeyValue
decode_text_kv [] = []
decode_text_kv (b ∷ bs) = decode_segments (split 0 (b ∷ bs))
