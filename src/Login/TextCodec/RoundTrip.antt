-- ===== src/Login/TextCodec/RoundTrip.antt =====
-- internal/login/textcodec.go: DecodeTextKV inverts EncodeTextKV, and what it gives on any bytes.
use uiscsi.Common.{
  ℕ, ◌≡◌, ◌≢◌, refl, ap, ◌∙◌, false, List, [], ◌∷◌, ◌++◌, append_assoc, All, ◌==◌, Bool-cases, inl,
  inr, arith,
}
use uiscsi.Login.TextCodec.{
  equals_sign, KeyValue, encode_text_kv, before_first, split, cut, decode_segments, decode_text_kv,
}

abbrev pub Lacks : ℕ → List ℕ → Type 0
Lacks b = All (λ x. x ≢ b)

-- A pair that the format can carry.
pub record IsText (p : KeyValue) : Type 0 where
  pub key_plain : Lacks 0 p.key
  pub key_cut : Lacks equals_sign p.key
  pub value_plain : Lacks 0 p.value

differs : (a b : ℕ) → a ≢ b → (a == b) ≡ false
differs a b h = ground arith

split-append :
    (sep : ℕ) (xs ys : List ℕ) → Lacks sep xs → split sep (xs ++ sep ∷ ys) ≡ xs ∷ split sep ys
unfolding split
split-append sep [] ys h = ground arith
split-append sep (x ∷ xs) ys (ne, h) = rw (differs x sep ne, split-append sep xs ys h)

cut-append : (sep : ℕ) (xs ys : List ℕ) → Lacks sep xs → cut sep (xs ++ sep ∷ ys) ≡ (xs, ys)
unfolding cut
cut-append sep [] ys h = ground arith
cut-append sep (x ∷ xs) ys (ne, h) = rw (differs x sep ne, cut-append sep xs ys h)

Lacks-append : (b : ℕ) (xs ys : List ℕ) → Lacks b xs → Lacks b ys → Lacks b (xs ++ ys)
Lacks-append b [] ys h k = k
Lacks-append b (x ∷ xs) ys (ne, h) k = (ne, Lacks-append b xs ys h k)

decode_segments-pair :
    (key value : List ℕ) (segs : List (List ℕ))
    → Lacks equals_sign key
    → decode_segments ((key ++ equals_sign ∷ value) ∷ segs)
      ≡ record { key = key; value = value } ∷ decode_segments segs
unfolding decode_segments
decode_segments-pair [] value segs h =
    ap (λ r. record { key = r.0; value = r.1 } ∷ decode_segments segs)
      (cut-append equals_sign [] value h)
decode_segments-pair (k ∷ ks) value segs h =
    ap (λ r. record { key = r.0; value = r.1 } ∷ decode_segments segs)
      (cut-append equals_sign (k ∷ ks) value h)

-- The test for no data does not change the answer.
decode_text_kv_lem : (bytes : List ℕ) → decode_text_kv bytes ≡ decode_segments (split 0 bytes)
unfolding decode_text_kv decode_segments split
decode_text_kv_lem [] = refl
decode_text_kv_lem (b ∷ bs) = refl

segment-Lacks : (p : KeyValue) → IsText p → Lacks 0 (p.key ++ equals_sign ∷ p.value)
segment-Lacks p t =
    Lacks-append 0 p.key (equals_sign ∷ p.value) t.key_plain (λ e. omega arith, t.value_plain)

decode_segments-encode :
    (pairs : List KeyValue)
    → All IsText pairs
    → decode_segments (split 0 (encode_text_kv pairs)) ≡ pairs
unfolding encode_text_kv
decode_segments-encode [] h = unfold split decode_segments in refl
decode_segments-encode (p ∷ pairs) (t, h) =
    rw
      (
        ← append_assoc p.key (equals_sign ∷ p.value) (0 ∷ encode_text_kv pairs),
        split-append 0 (p.key ++ equals_sign ∷ p.value) (encode_text_kv pairs) (segment-Lacks p t),
      )
      (decode_segments-pair p.key p.value (split 0 (encode_text_kv pairs)) t.key_cut
        ∙ ap (◌∷◌ p) (decode_segments-encode pairs h))

-- For any pairs whose keys hold no '=' and no zero byte and whose values hold no zero byte,
-- DecodeTextKV of what EncodeTextKV wrote gives the same pairs in the same order.
pub decode_text_kv-encode_text_kv :
    (pairs : List KeyValue) → All IsText pairs → decode_text_kv (encode_text_kv pairs) ≡ pairs
decode_text_kv-encode_text_kv pairs h =
    decode_text_kv_lem (encode_text_kv pairs) ∙ decode_segments-encode pairs h

before_first-Lacks :
    (sep b : ℕ) (segs : List (List ℕ))
    → b ≢ sep
    → All (Lacks sep) segs
    → All (Lacks sep) (before_first b segs)
before_first-Lacks sep b [] ne h = ((ne, tt), tt)
before_first-Lacks sep b (seg ∷ segs) ne (h, hs) = ((ne, h), hs)

split-Lacks : (sep : ℕ) (bytes : List ℕ) → All (Lacks sep) (split sep bytes)
unfolding split
split-Lacks sep [] = (tt, tt)
split-Lacks sep (b ∷ bs) = elim (Bool-cases (b == sep)) [
  | inl e ↦ rw e (tt, split-Lacks sep bs)
  | inr e ↦
      rw e (before_first-Lacks sep b (split sep bs) (λ same. ground arith) (split-Lacks sep bs))
]

cut-Lacks :
    (sep a : ℕ) (bytes : List ℕ)
    → Lacks a bytes
    → Lacks sep (cut sep bytes).0 × Lacks a (cut sep bytes).0 × Lacks a (cut sep bytes).1
unfolding cut
cut-Lacks sep a [] h = (tt, tt, tt)
cut-Lacks sep a (b ∷ bs) (ne, h) =
    let (before, plain, after) = cut-Lacks sep a bs h in
    elim (Bool-cases (b == sep)) [
      | inl e ↦ rw e (tt, tt, h)
      | inr e ↦ rw e (((λ same. ground arith), before), (ne, plain), after)
    ]

decode_segments-IsText :
    (segs : List (List ℕ)) → All (Lacks 0) segs → All IsText (decode_segments segs)
unfolding decode_segments
decode_segments-IsText [] h = tt
decode_segments-IsText ([] ∷ segs) (_, h) = decode_segments-IsText segs h
decode_segments-IsText ((b ∷ bs) ∷ segs) (plain, h) =
    let (before, key, value) = cut-Lacks equals_sign 0 (b ∷ bs) plain in
    (
      record { key_plain = key; key_cut = before; value_plain = value },
      decode_segments-IsText segs h,
    )

-- Whatever bytes DecodeTextKV is given, its pairs can be encoded: EncodeTextKV of them is decoded to
-- the same pairs.
pub decode_text_kv_stable :
    (bytes : List ℕ) → decode_text_kv (encode_text_kv (decode_text_kv bytes)) ≡ decode_text_kv bytes
decode_text_kv_stable bytes =
    decode_text_kv-encode_text_kv (decode_text_kv bytes)
      (rw (decode_text_kv_lem bytes) (decode_segments-IsText _ (split-Lacks 0 bytes)))
