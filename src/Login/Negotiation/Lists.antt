-- ===== src/Login/Negotiation/Lists.antt =====
-- internal/login/negotiation.go: the choice of resolveKey from two lists.
use uiscsi.Common.{
  ℕ, ◌≡◌, refl, ◌⊎◌, inl, inr, Bool, true, false, ◌&&◌, ◌||◌, List, [], ◌∷◌, ◌==◌, ==_iff,
  Bool-cases, subst,
}
use uiscsi.Login.Negotiation.{
  list_select, NegotiationType, KeyDef, value, same_string, offered, select, items_of, resolve_kind,
  resolve_key,
}

abbrev pub Contains : List ℕ → List (List ℕ) → Type 0
Contains x [] = ⊥
Contains x (y ∷ ys) = (y ≡ x) ⊎ Contains x ys

both : (c d : Bool) → (c && d) ≡ true → (c ≡ true) × (d ≡ true)
both true d e = (refl, e)
both false d e = absurd cc

either : (c d : Bool) → (c || d) ≡ true → (c ≡ true) ⊎ (d ≡ true)
either true d e = inl refl
either false d e = inr e

pub same_string→eq : (xs ys : List ℕ) → same_string xs ys ≡ true → xs ≡ ys
same_string→eq [] [] e = refl
same_string→eq [] (y ∷ ys) e = absurd cc
same_string→eq (x ∷ xs) [] e = absurd cc
same_string→eq (x ∷ xs) (y ∷ ys) e =
    let (head, tail) = both (x == y) (same_string xs ys) e in
    cc ((==_iff x y).0 head, same_string→eq xs ys tail)

offered-Contains : (x : List ℕ) (items : List (List ℕ)) → offered x items ≡ true → Contains x items
offered-Contains x [] e = absurd cc
offered-Contains x (y ∷ ys) e = elim (either (same_string y x) (offered x ys) e) [
  | inl here ↦ inl (same_string→eq y x here)
  | inr later ↦ inr (offered-Contains x ys later)
]

value_eq : {r s : List ℕ} → value r ≡ value s → r ≡ s
value_eq e = cc

select-Contains :
    (items ts : List (List ℕ)) (r : List ℕ)
    → select items ts ≡ value r
    → Contains r items × Contains r ts
unfolding select
select-Contains items [] r e = absurd cc
select-Contains items (t ∷ ts) r e = elim (Bool-cases (offered t items)) [
  | inl yes_it ↦
      let same : t ≡ r = value_eq (rw yes_it at e) in
      (subst (λ z. Contains z items) same (offered-Contains t items yes_it), inl same)
  | inr no_it ↦
      let (there, later) = select-Contains items ts r (rw no_it at e) in (there, inr later)
]

resolve_kind-Contains :
    (k : NegotiationType) (key : KeyDef) (a b r : List ℕ)
    → k ≡ list_select
    → resolve_kind k key a b ≡ value r
    → Contains r (items_of a) × Contains r (items_of b)
resolve_kind-Contains k key a b r l e =
    select-Contains (items_of a) (items_of b) r (unfold resolve_kind in (rw l at e))

-- A value that resolveKey settles on for a list key is one of the items that the initiator offered
-- and one of those that the target answered, both without the spaces around them.
pub resolve_key-Contains :
    (key : KeyDef) (a b r : List ℕ)
    → key.kind ≡ list_select
    → resolve_key key a b ≡ value r
    → Contains r (items_of a) × Contains r (items_of b)
unfolding resolve_key
resolve_key-Contains key a b r l e = resolve_kind-Contains key.kind key a b r l e
