-- ===== src/Login/Negotiation/Results.antt =====
-- internal/login/negotiation.go: the ranges, the symmetry and the choice of resolveKey.
use uiscsi.Common.{
  ℕ, ◌^◌, ◌≤◌, ◌<◌, ◌≡◌, ◌≢◌, refl, ap, ◌∙◌, ◌⊎◌, Bool, true, false, ◌&&◌, ◌||◌, Option, some, none,
  List, subst, arith,
}
use uiscsi.Login.Decimal.{parse_uint, format_uint, parse_uint-format_uint}
use uiscsi.Login.Negotiation.{
  NegotiationType, list_select, boolean_and, boolean_or, numerical_min, numerical_max, declarative,
  KeyDef, value, same_string, yes_no, yes_string, clamp_value, numbers, declared, resolve_kind,
  resolve_key,
}

-- The key's range is one that ParseUint reads.
pub record IsRange (key : KeyDef) : Type 0 where
  pub ordered : key.min_value ≤ key.max_value
  pub not_unlimited : 0 < key.max_value
  pub word : key.max_value < 2 ^ 32

abbrev pub IsNumeric : NegotiationType → Type 0
IsNumeric k = (k ≡ numerical_min) ⊎ (k ≡ numerical_max) ⊎ (k ≡ declarative)

-- The string is a number in the key's range.
pub record InRange (key : KeyDef) (r : List ℕ) : Type 0 where
  pub number : ℕ
  pub reads : parse_uint r ≡ some number
  pub at_least : key.min_value ≤ number
  pub at_most : number ≤ key.max_value

clamp_value_between :
    (v : ℕ) (key : KeyDef)
    → IsRange key
    → (key.min_value ≤ clamp_value v key) × (clamp_value v key ≤ key.max_value)
unfolding clamp_value
clamp_value_between v key h = (ground arith, ground arith)

clamped-InRange :
    (v : ℕ) (key : KeyDef) → IsRange key → InRange key (format_uint (clamp_value v key))
clamped-InRange v key h =
    let (low, high) = clamp_value_between v key h in
    record {
      number = clamp_value v key;
      reads = parse_uint-format_uint (clamp_value v key) (omega (arith, h.word));
      at_least = low;
      at_most = high;
    }

value-injective : {r s : List ℕ} → value r ≡ value s → r ≡ s
value-injective e = cc

numbers-InRange :
    (key : KeyDef) (a b : Option ℕ) (choose : ℕ → ℕ → ℕ) (r : List ℕ)
    → IsRange key
    → numbers key a b choose ≡ value r
    → InRange key r
numbers-InRange key none b choose r h e = absurd cc
numbers-InRange key (some x) none choose r h e = absurd cc
numbers-InRange key (some x) (some y) choose r h e =
    subst (InRange key) (value-injective e) (clamped-InRange (choose x y) key h)

declared-InRange :
    (key : KeyDef) (b : Option ℕ) (r : List ℕ)
    → IsRange key
    → declared key b ≡ value r
    → InRange key r
declared-InRange key none r h e = absurd cc
declared-InRange key (some y) r h e =
    subst (InRange key) (value-injective e) (clamped-InRange y key h)

resolve_kind-InRange :
    (k : NegotiationType) (key : KeyDef) (a b r : List ℕ)
    → IsNumeric k
    → IsRange key
    → resolve_kind k key a b ≡ value r
    → InRange key r
unfolding resolve_kind
resolve_kind-InRange numerical_min key a b r n h e = numbers-InRange key _ _ _ r h e
resolve_kind-InRange numerical_max key a b r n h e = numbers-InRange key _ _ _ r h e
resolve_kind-InRange declarative key a b r n h e = declared-InRange key _ r h e
resolve_kind-InRange list_select key a b r n h e = absurd (grind arith)
resolve_kind-InRange boolean_and key a b r n h e = absurd (grind arith)
resolve_kind-InRange boolean_or key a b r n h e = absurd (grind arith)

-- For a numerical or declarative key with Min at most Max and Max above 0 and of 32 bits: whatever the
-- two sides offer, what resolveKey settles on is a decimal in the range from Min to Max.
pub resolve_key-InRange :
    (key : KeyDef) (a b r : List ℕ)
    → IsNumeric key.kind
    → IsRange key
    → resolve_key key a b ≡ value r
    → InRange key r
unfolding resolve_key
resolve_key-InRange key a b r n h e = resolve_kind-InRange key.kind key a b r n h e

and_swap : (c d : Bool) → (c && d) ≡ (d && c)
and_swap true true = refl
and_swap true false = refl
and_swap false true = refl
and_swap false false = refl

or_swap : (c d : Bool) → (c || d) ≡ (d || c)
or_swap true true = refl
or_swap true false = refl
or_swap false true = refl
or_swap false false = refl

numbers_swap :
    (key : KeyDef) (a b : Option ℕ) (choose : ℕ → ℕ → ℕ) (r : List ℕ)
    → ((x y : ℕ) → choose x y ≡ choose y x)
    → numbers key a b choose ≡ value r
    → numbers key b a choose ≡ value r
numbers_swap key none b choose r h e = absurd cc
numbers_swap key (some x) none choose r h e = absurd cc
numbers_swap key (some x) (some y) choose r h e =
    ap (λ v. value (format_uint (clamp_value v key))) (h y x) ∙ e

resolve_kind_swap :
    (k : NegotiationType) (key : KeyDef) (a b r : List ℕ)
    → k ≢ list_select
    → k ≢ declarative
    → resolve_kind k key a b ≡ value r
    → resolve_kind k key b a ≡ value r
unfolding resolve_kind
resolve_kind_swap boolean_and key a b r l d e =
    ap (λ c. value (yes_no c)) (and_swap (same_string b yes_string) (same_string a yes_string)) ∙ e
resolve_kind_swap boolean_or key a b r l d e =
    ap (λ c. value (yes_no c)) (or_swap (same_string b yes_string) (same_string a yes_string)) ∙ e
resolve_kind_swap numerical_min key a b r l d e = numbers_swap key _ _ _ r (λ x y. ground arith) e
resolve_kind_swap numerical_max key a b r l d e = numbers_swap key _ _ _ r (λ x y. ground arith) e
resolve_kind_swap list_select key a b r l d e = absurd (l refl)
resolve_kind_swap declarative key a b r l d e = absurd (d refl)

-- For Boolean and numerical keys it does not matter which side offers which value: a value that
-- resolveKey settles on is the one with the sides exchanged.
pub resolve_key_swap :
    (key : KeyDef) (a b r : List ℕ)
    → key.kind ≢ list_select
    → key.kind ≢ declarative
    → resolve_key key a b ≡ value r
    → resolve_key key b a ≡ value r
unfolding resolve_key
resolve_key_swap key a b r l d e = resolve_kind_swap key.kind key a b r l d e
