-- ===== src/Login/Tests.antt =====
-- internal/login: two keys of a login request, bytes without a final zero, and settled keys.
use uiscsi.Common.{◌≡◌, refl, List, [], ◌∷◌, arith}
use uiscsi.Login.TextCodec.{KeyValue, encode_text_kv, decode_text_kv}
use uiscsi.Login.TextCodec.RoundTrip.{decode_text_kv-encode_text_kv}
use uiscsi.Login.TextCodec.{split}
use uiscsi.Login.Decimal.{shift_in, parse_digits, parse_uint, digits_of, format_uint}
use uiscsi.Login.Negotiation.{
  numerical_min, list_select, KeyDef, value, clamp_value, select, items_of, resolve_kind,
  resolve_key,
}
use uiscsi.Login.Negotiation.Results.{IsRange}
use uiscsi.Login.Negotiation.Lists.{Contains, resolve_key-Contains}

-- "AB=C=" and "D="
abbrev two_pairs : List KeyValue
two_pairs =
    record { key = 0x41 ∷ 0x42 ∷ []; value = 0x43 ∷ 0x3d ∷ [] }
    ∷ record { key = 0x44 ∷ []; value = [] }
    ∷ []

decode_text_kv-encode_text_kv_example : decode_text_kv (encode_text_kv two_pairs) ≡ two_pairs
decode_text_kv-encode_text_kv_example = decode_text_kv-encode_text_kv two_pairs (
  record {
    key_plain = (λ e. omega arith, (λ e. omega arith, tt));
    key_cut = (λ e. omega arith, (λ e. omega arith, tt));
    value_plain = (λ e. omega arith, (λ e. omega arith, tt));
  },
  (
    record {
      key_plain = (λ e. omega arith, tt);
      key_cut = (λ e. omega arith, tt);
      value_plain = tt;
    },
    tt,
  ),
)

-- MaxBurstLength
abbrev max_burst_key : KeyDef
max_burst_key = record { kind = numerical_min; min_value = 512; max_value = 16777215 }

max_burst_key-IsRange : IsRange max_burst_key
max_burst_key-IsRange = record {
  ordered = omega arith;
  not_unlimited = omega arith;
  word = omega arith;
}

-- "600" against "99" is below the range.
settled :
    resolve_key max_burst_key (0x36 ∷ 0x30 ∷ 0x30 ∷ []) (0x39 ∷ 0x39 ∷ [])
    ≡ value (0x35 ∷ 0x31 ∷ 0x32 ∷ [])
settled =
    unfold resolve_key resolve_kind parse_uint parse_digits shift_in clamp_value format_uint
      digits_of in
    refl

-- HeaderDigest
abbrev digest_key : KeyDef
digest_key = record { kind = list_select; min_value = 0; max_value = 0 }

-- "A, B" against "B"
chosen : resolve_key digest_key (0x41 ∷ 0x2c ∷ 0x20 ∷ 0x42 ∷ []) (0x42 ∷ []) ≡ value (0x42 ∷ [])
chosen = unfold resolve_key resolve_kind select split in refl

resolve_key-Contains_example :
    Contains (0x42 ∷ []) (items_of (0x41 ∷ 0x2c ∷ 0x20 ∷ 0x42 ∷ []))
    × Contains (0x42 ∷ []) (items_of (0x42 ∷ []))
resolve_key-Contains_example =
    resolve_key-Contains digest_key (0x41 ∷ 0x2c ∷ 0x20 ∷ 0x42 ∷ []) (0x42 ∷ []) (0x42 ∷ []) refl
      chosen
