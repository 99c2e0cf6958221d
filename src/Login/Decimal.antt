-- ===== src/Login/Decimal.antt =====
-- strconv.ParseUint(s, 10, 32) and strconv.FormatUint(v, 10) as internal/login uses them: a string
-- is the list of its bytes, and `none` is any error of ParseUint.
use uiscsi.Common.{
  ℕ, zero, suc, ◌+◌, ◌-◌, ◌*◌, ◌/◌, ◌%◌, ◌^◌, ◌<◌, ◌≡◌, refl, ◌∙◌, Bool, true, false, ◌||◌, ◌⊎◌,
  Option, some, none, List, [], ◌∷◌, ◌++◌, ltb, if◌then◌else◌, if-elim, inl, inr, arith,
}
use native.Mathlib.Decide.{dec_lt}

-- One more digit.
unfoldable pub shift_in : ℕ → ℕ → Option ℕ
shift_in acc d =
    let v = acc * 10 + (d - 0x30) in
    if ltb d 0x30 || ltb 0x39 d then none else if ltb 0xffff_ffff v then none else some v

abbrev then_digits : Option ℕ → (ℕ → Option ℕ) → Option ℕ
then_digits none next = none
then_digits (some v) next = next v

unfoldable pub parse_digits : List ℕ → ℕ → Option ℕ
unfolding shift_in
parse_digits [] acc = some acc
parse_digits (d ∷ ds) acc = then_digits (shift_in acc d) (parse_digits ds)

unfoldable pub parse_uint : List ℕ → Option ℕ
parse_uint [] = none
parse_uint (d ∷ ds) = parse_digits (d ∷ ds) 0

unfoldable pub digits_of : ℕ → ℕ → List ℕ
digits_of zero n = []
digits_of (suc fuel) n =
    let front = digits_of fuel (n / 10) in
    if ltb n 10 then (0x30 + n) ∷ [] else front ++ (0x30 + n % 10) ∷ []

-- A uint64 has at most 20 digits.
unfoldable pub format_uint : ℕ → List ℕ
format_uint v = digits_of 20 v

then_none : (o : Option ℕ) → then_digits o (λ x. some x) ≡ o
then_none none = refl
then_none (some x) = refl

then_then :
    (o : Option ℕ) (f g : ℕ → Option ℕ)
    → then_digits o (λ x. then_digits (f x) g) ≡ then_digits (then_digits o f) g
then_then none f g = refl
then_then (some x) f g = refl

then_cong :
    (o : Option ℕ) (f g : ℕ → Option ℕ) → ((x : ℕ) → f x ≡ g x) → then_digits o f ≡ then_digits o g
then_cong none f g h = refl
then_cong (some x) f g h = h x

parse_digits-append :
    (xs : List ℕ) (d acc : ℕ)
    → parse_digits (xs ++ d ∷ []) acc ≡ then_digits (parse_digits xs acc) (λ v. shift_in v d)
unfolding parse_digits
parse_digits-append [] d acc = then_none (shift_in acc d)
parse_digits-append (x ∷ xs) d acc =
    then_cong (shift_in acc x) _ _ (parse_digits-append xs d)
    ∙ then_then (shift_in acc x) (parse_digits xs) (λ v. shift_in v d)

-- `n` has at most `fuel` digits.
abbrev Fits : ℕ → ℕ → Type 0
Fits zero n = ⊥
Fits (suc fuel) n = (n < 10) ⊎ Fits fuel (n / 10)

last_digit : (n : ℕ) → n < 2 ^ 32 → shift_in (n / 10) (0x30 + n % 10) ≡ some n
unfolding shift_in
last_digit n h = ground arith

one_digit : (n : ℕ) → n < 10 → parse_digits ((0x30 + n) ∷ []) 0 ≡ some n
unfolding parse_digits shift_in
one_digit n h = ground arith

rest-Fits : (n fuel : ℕ) → ¬ (n < 10) → Fits (suc fuel) n → Fits fuel (n / 10)
rest-Fits n fuel more (inl one) = absurd (more one)
rest-Fits n fuel more (inr rest) = rest

ten_fit : (n : ℕ) → n < 2 ^ 32 → Fits 20 n
ten_fit n h = inr (inr (inr (inr (inr (inr (inr (inr (inr (inl (omega arith))))))))))

is_nonempty : List ℕ → Bool
is_nonempty [] = false
is_nonempty (x ∷ xs) = true

parse_nonempty : (xs : List ℕ) → is_nonempty xs ≡ true → parse_uint xs ≡ parse_digits xs 0
unfolding parse_uint is_nonempty
parse_nonempty [] h = cc
parse_nonempty (x ∷ xs) h = refl

append_nonempty : (xs : List ℕ) (d : ℕ) → is_nonempty (xs ++ d ∷ []) ≡ true
unfolding is_nonempty
append_nonempty [] d = refl
append_nonempty (x ∷ xs) d = refl

parse_digits-digits_of :
    (fuel n : ℕ) → Fits fuel n → n < 2 ^ 32 → parse_digits (digits_of fuel n) 0 ≡ some n
unfolding digits_of
parse_digits-digits_of zero n fits word = absurd fits
parse_digits-digits_of (suc fuel) n fits word = elim (dec_lt n 10) [
  | yes one ↦ let single : ltb n 10 ≡ true = ground arith in rw single (one_digit n one)
  | no more ↦
      let several : ltb n 10 ≡ false = ground arith in
      let front = parse_digits-digits_of fuel (n / 10) (rest-Fits n fuel more fits) (omega arith) in
      rw (several, parse_digits-append (digits_of fuel (n / 10)) (0x30 + n % 10) 0, front)
        (last_digit n word)
]

digits_nonempty : (fuel n : ℕ) → is_nonempty (digits_of (suc fuel) n) ≡ true
unfolding digits_of is_nonempty
digits_nonempty fuel n =
    if-elim (λ xs. is_nonempty xs ≡ true) (ltb n 10) refl
      (append_nonempty (digits_of fuel (n / 10)) (0x30 + n % 10))

-- Every number of 32 bits is read back from its decimal form.
pub parse_uint-format_uint : (v : ℕ) → v < 2 ^ 32 → parse_uint (format_uint v) ≡ some v
unfolding format_uint
parse_uint-format_uint v word =
    parse_nonempty (digits_of 20 v) (digits_nonempty 19 v)
    ∙ parse_digits-digits_of 20 v (ten_fit v word) word
