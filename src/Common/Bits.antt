-- ===== src/Common/Bits.antt =====
-- Masks and flag bits of one byte. A fact about all values of a byte and of some flags is a table,
-- checked by evaluation.
use uiscsi.Common.{
  ℕ, zero, suc, ◌<◌, ◌≡◌, bit_and, bit_or, Bool, true, false, ◌&&◌, not, List, [], ◌∷◌, All, refl,
  ◌==◌, if◌then◌else◌, arith,
}

unfoldable pub each_below : ℕ → (ℕ → Bool) → Bool
each_below zero test = true
each_below (suc k) test = each_below k test && test k

pub each_below_lem :
    (k : ℕ) (test : ℕ → Bool) (v : ℕ) → each_below k test ≡ true → v < k → test v ≡ true
unfolding each_below
each_below_lem (suc k) test v all lt = ground (arith, each_below_lem k test v)
each_below_lem zero test v all lt = absurd (omega arith)

unfoldable pub all_flags : (Bool → Bool) → Bool
all_flags p = p true && p false

pub all_flags_sound : (p : Bool → Bool) (c : Bool) → all_flags p ≡ true → p c ≡ true
unfolding all_flags
all_flags_sound p true h = ground arith
all_flags_sound p false h = ground arith

abbrev pub same : Bool → Bool → Bool
same true c = c
same false c = not c

pub same→eq : (a b : Bool) → same a b ≡ true → a ≡ b
same→eq a b h = ground arith

-- `if c { b |= m }` and `b & m != 0`.
abbrev pub with_flag : Bool → ℕ → ℕ → ℕ
with_flag c m b = if c then bit_or b m else b

abbrev pub has_flag : ℕ → ℕ → Bool
has_flag b m = not (bit_and b m == 0)

-- The tests of a table's entry.
unfoldable pub all_true : List Bool → Bool
all_true [] = true
all_true (c ∷ cs) = c && all_true cs

pub all_true_sound : (cs : List Bool) → all_true cs ≡ true → All (λ c. c ≡ true) cs
unfolding all_true
all_true_sound [] h = tt
all_true_sound (true ∷ cs) h = (refl, all_true_sound cs h)
all_true_sound (false ∷ cs) h = cc
