-- ===== src/Common/Maps.antt =====
-- Go maps with numbers as keys: association lists without repeated keys.
use uiscsi.Common.{
  ℕ, ◌≤◌, ◌<◌, ◌≡◌, refl, inl, inr, Option, some, none, List, [], ◌∷◌, length, ◌==◌, if◌then◌else◌,
  Bool-cases, true, false, arith,
}

-- `m[k]`, `delete(m, k)` and `m[k] = v`.
unfoldable pub find_key {ℓ} : {A : Type ℓ} → ℕ → List (ℕ × A) → Option A
find_key k [] = none
find_key k ((j, v) ∷ m) = if j == k then some v else find_key k m

unfoldable pub delete_key {ℓ} : {A : Type ℓ} → ℕ → List (ℕ × A) → List (ℕ × A)
delete_key k [] = []
delete_key k ((j, v) ∷ m) = if j == k then delete_key k m else (j, v) ∷ delete_key k m

unfoldable pub put_key {ℓ} : {A : Type ℓ} → ℕ → A → List (ℕ × A) → List (ℕ × A)
put_key k v m = (k, v) ∷ delete_key k m

module _ {ℓ} {A : Type ℓ} where
  pub find-delete_same : (k : ℕ) (m : List (ℕ × A)) → find_key k (delete_key k m) ≡ none
  unfolding find_key delete_key
  find-delete_same k [] = refl
  find-delete_same k ((i, v) ∷ m) = elim (Bool-cases (i == k)) [
    | inl is_k ↦ rw is_k (find-delete_same k m)
    | inr not_k ↦ rw (not_k, not_k) (find-delete_same k m)
  ]

  pub find-delete_other :
      (k j : ℕ) (m : List (ℕ × A)) → ¬ (k ≡ j) → find_key k (delete_key j m) ≡ find_key k m
  unfolding find_key delete_key
  find-delete_other k j [] h = refl
  find-delete_other k j ((i, v) ∷ m) h = elim (Bool-cases (i == j)) [
    | inl is_j ↦
        let not_k : (i == k) ≡ false = ground arith in rw (is_j, not_k) (find-delete_other k j m h)
    | inr not_j ↦ elim (Bool-cases (i == k)) [
      | inl is_k ↦ rw (not_j, is_k) refl
      | inr not_k ↦ rw (not_j, not_k) (find-delete_other k j m h)
    ]
  ]

  pub find-put_same : (k : ℕ) (v : A) (m : List (ℕ × A)) → find_key k (put_key k v m) ≡ some v
  unfolding find_key put_key
  find-put_same k v m = let same : (k == k) ≡ true = ground arith in rw same refl

  pub find-put_other :
      (k j : ℕ) (v : A) (m : List (ℕ × A)) → ¬ (k ≡ j) → find_key k (put_key j v m) ≡ find_key k m
  unfolding find_key put_key
  find-put_other k j v m other =
      let not_same : (j == k) ≡ false = ground arith in rw not_same (find-delete_other k j m other)

  pub find-empty : (k : ℕ) (m : List (ℕ × A)) → length m ≡ 0 → find_key k m ≡ none
  unfolding find_key
  find-empty k [] h = refl
  find-empty k (x ∷ m) h = absurd (omega arith)

  pub length-delete : (k : ℕ) (m : List (ℕ × A)) → length (delete_key k m) ≤ length m
  unfolding delete_key
  length-delete k [] = omega arith
  length-delete k ((i, v) ∷ m) = elim (Bool-cases (i == k)) [
    | inl is_k ↦ rw is_k (omega (arith, length-delete k m))
    | inr not_k ↦ rw not_k (omega (arith, length-delete k m))
  ]

  pub length-delete_found :
      (k : ℕ) (m : List (ℕ × A)) (v : A)
      → find_key k m ≡ some v
      → length (delete_key k m) < length m
  unfolding find_key delete_key
  length-delete_found k [] v h = cc
  length-delete_found k ((i, w) ∷ m) v h = elim (Bool-cases (i == k)) [
    | inl is_k ↦ rw is_k (omega (arith, length-delete k m))
    | inr not_k ↦ rw not_k (omega (arith, length-delete_found k m v (rw not_k at h)))
  ]
