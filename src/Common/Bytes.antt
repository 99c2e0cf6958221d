-- ===== src/Common/Bytes.antt =====
-- Fixed-size byte arrays and encoding/binary's big-endian access to them. A byte array is a list
-- of numbers below 256; every offset that the program uses is a constant within the array.
use uiscsi.Common.{
  ℕ, zero, suc, ◌+◌, ◌*◌, ◌/◌, ◌%◌, ◌^◌, ◌<◌, ◌≡◌, refl, ap, List, [], ◌∷◌, ◌++◌, get_or, set,
  length, drop, replicate, Bool, bit_or, arith,
}
use uiscsi.Common.Bits.{with_flag}

abbrev pub byte_at : List ℕ → ℕ → ℕ
byte_at b i = get_or b i 0

-- `if c { b[i] |= m }`
abbrev pub or_flag : ℕ → ℕ → Bool → List ℕ → List ℕ
or_flag i m c b = set b i (with_flag c m (byte_at b i))

-- `b[i] |= m`
abbrev pub or_byte : ℕ → ℕ → List ℕ → List ℕ
or_byte i m b = set b i (bit_or (byte_at b i) m)

abbrev pub put8 : ℕ → ℕ → List ℕ → List ℕ
put8 i x b = set b i x

-- `binary.BigEndian.PutUint16(b[i:i+2], x)` and so on: the highest byte first.
abbrev pub put16 : ℕ → ℕ → List ℕ → List ℕ
put16 i x b = set (set b i (x / 2 ^ 8 % 256)) (i + 1) (x % 256)

abbrev pub put24 : ℕ → ℕ → List ℕ → List ℕ
put24 i x b = set (set (set b i (x / 2 ^ 16 % 256)) (i + 1) (x / 2 ^ 8 % 256)) (i + 2) (x % 256)

abbrev pub put32 : ℕ → ℕ → List ℕ → List ℕ
put32 i x b = put24 (i + 1) x (set b i (x / 2 ^ 24 % 256))

abbrev pub join16 : ℕ → ℕ → ℕ
join16 a b = a * 2 ^ 8 + b

abbrev pub join32 : ℕ → ℕ → ℕ → ℕ → ℕ
join32 a b c d = a * 2 ^ 24 + b * 2 ^ 16 + c * 2 ^ 8 + d

abbrev pub get16 : ℕ → List ℕ → ℕ
get16 i b = join16 (byte_at b i) (byte_at b (i + 1))

abbrev pub get24 : ℕ → List ℕ → ℕ
get24 i b = join32 0 (byte_at b i) (byte_at b (i + 1)) (byte_at b (i + 2))

abbrev pub get32 : ℕ → List ℕ → ℕ
get32 i b = join32 (byte_at b i) (byte_at b (i + 1)) (byte_at b (i + 2)) (byte_at b (i + 3))

-- `copy(b[i:i+n], a[:])` for an array `a` of `n` bytes, and `copy(a[:], b[i:i+n])`.
abbrev pub put_array : ℕ → ℕ → List ℕ → List ℕ → List ℕ
put_array i zero a b = b
put_array i (suc n) a b = put_array (i + 1) n (drop 1 a) (set b i (byte_at a 0))

abbrev pub get_array : ℕ → ℕ → List ℕ → List ℕ
get_array i zero b = []
get_array i (suc n) b = byte_at b i ∷ get_array (i + 1) n b

abbrev pub zeros : ℕ → List ℕ
zeros n = replicate n 0

abbrev pub IsByte : ℕ → Type 0
IsByte x = x < 256

-- The first `n` elements, and an array of `n` bytes is these.
abbrev pub firsts : ℕ → List ℕ → List ℕ
firsts zero a = []
firsts (suc n) a = byte_at a 0 ∷ firsts n (drop 1 a)

pub firsts-all : (n : ℕ) (a : List ℕ) → length a ≡ n → firsts n a ≡ a
firsts-all zero [] h = refl
firsts-all zero (x ∷ a) h = absurd (omega arith)
firsts-all (suc n) [] h = absurd (omega arith)
firsts-all (suc n) (x ∷ a) h = ap (◌∷◌ x) (firsts-all n a (omega arith))

-- The first `n` elements in front of `rest`.
abbrev pub firsts_onto : ℕ → List ℕ → List ℕ → List ℕ
firsts_onto zero a rest = rest
firsts_onto (suc n) a rest = byte_at a 0 ∷ firsts_onto n (drop 1 a) rest

pub firsts-append : (n : ℕ) (a rest : List ℕ) → length a ≡ n → firsts_onto n a rest ≡ a ++ rest
firsts-append zero [] rest h = refl
firsts-append zero (x ∷ a) rest h = absurd (omega arith)
firsts-append (suc n) [] rest h = absurd (omega arith)
firsts-append (suc n) (x ∷ a) rest h = ap (◌∷◌ x) (firsts-append n a rest (omega arith))

pub join16-put : (x : ℕ) → x < 2 ^ 16 → join16 (x / 2 ^ 8 % 256) (x % 256) ≡ x
join16-put x h = omega arith

pub join24-put : (x : ℕ) → x < 2 ^ 24 → join32 0 (x / 2 ^ 16 % 256) (x / 2 ^ 8 % 256) (x % 256) ≡ x
join24-put x h = omega arith

pub join32-put :
    (x : ℕ)
    → x < 2 ^ 32
    → join32 (x / 2 ^ 24 % 256) (x / 2 ^ 16 % 256) (x / 2 ^ 8 % 256) (x % 256) ≡ x
join32-put x h = omega arith
