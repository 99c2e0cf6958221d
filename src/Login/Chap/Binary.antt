-- ===== src/Login/Chap/Binary.antt =====
-- internal/login/chap.go: encodeCHAPBinary and decodeCHAPBinary.
use uiscsi.Common.{ℕ, ◌+◌, ◌*◌, ◌/◌, ◌%◌, ◌<◌, ◌≡◌, refl, ap, Option, some, List, [], ◌∷◌, arith}
use uiscsi.Login.Chap.{
  hex_digit, encode_hex, hex_value, decode_hex, encode_chap_binary, decode_chap_binary,
}

abbrev pub AreBytes : List ℕ → Type 0
AreBytes [] = Unit
AreBytes (b ∷ bs) = (b < 256) × AreBytes bs

hex_value-hex_digit : (v : ℕ) → v < 16 → hex_value (hex_digit v) ≡ some v
unfolding hex_value
hex_value-hex_digit v h = ground arith

decode_hex-encode_hex : (bs : List ℕ) → AreBytes bs → decode_hex (encode_hex bs) ≡ some bs
unfolding decode_hex encode_hex
decode_hex-encode_hex [] h = refl
decode_hex-encode_hex (b ∷ bs) (small, h) =
    let whole : b / 16 * 16 + b % 16 ≡ b = omega arith in
    rw
      (
        hex_value-hex_digit (b / 16) (omega arith),
        hex_value-hex_digit (b % 16) (omega arith),
        decode_hex-encode_hex bs h,
      )
      (ap (λ z. some (z ∷ bs)) whole)

-- Bytes that encodeCHAPBinary has written in hexadecimal are read back by decodeCHAPBinary.
pub decode_chap_binary-encode_chap_binary :
    (base64 : List ℕ → Option (List ℕ)) (bs : List ℕ)
    → AreBytes bs
    → decode_chap_binary base64 (encode_chap_binary bs) ≡ some bs
unfolding decode_chap_binary encode_chap_binary
decode_chap_binary-encode_chap_binary base64 bs h = decode_hex-encode_hex bs h
