-- ===== src/Login/Negotiation.antt =====
-- internal/login/negotiation.go: resolveKey and clampValue. A string is the list of its bytes.
pub mod Results
pub mod Lists
use uiscsi.Common.{
  ℕ, Bool, true, false, ◌&&◌, ◌||◌, Option, some, none, List, [], ◌∷◌, map, ltb, leb, ◌==◌,
  if◌then◌else◌,
}
use uiscsi.Login.TextCodec.{split}
use uiscsi.Login.Decimal.{parse_uint, format_uint}

pub data NegotiationType : Type 0 where
  list_select boolean_and boolean_or numerical_min numerical_max declarative : NegotiationType

-- The fields that the choice depends on. Name is `key_name` of Login/Registry; Default and RFCRef are not
-- read.
pub record KeyDef : Type 0 where
  pub kind : NegotiationType
  pub min_value : ℕ
  pub max_value : ℕ

pub data Failure : Type 0 where
  invalid_initiator_value invalid_target_value no_overlap : Failure

pub data Resolved : Type 0 where
  value : List ℕ → Resolved
  failed : Failure → Resolved

-- `==` on strings.
abbrev pub same_string : List ℕ → List ℕ → Bool
same_string [] [] = true
same_string [] (y ∷ ys) = false
same_string (x ∷ xs) [] = false
same_string (x ∷ xs) (y ∷ ys) = x == y && same_string xs ys

abbrev pub yes_string : List ℕ
yes_string = 0x59 ∷ 0x65 ∷ 0x73 ∷ []

abbrev pub no_string : List ℕ
no_string = 0x4e ∷ 0x6f ∷ []

abbrev pub yes_no : Bool → List ℕ
yes_no c = if c then yes_string else no_string

unfoldable pub clamp_value : ℕ → KeyDef → ℕ
clamp_value v key =
    if key.min_value == 0 && key.max_value == 0
    then v
    else if ltb v key.min_value
    then key.min_value
    else if ltb 0 key.max_value && ltb key.max_value v
    then key.max_value
    else v

-- The two numbers, the initiator's first, and then the choice between them.
abbrev pub numbers : KeyDef → Option ℕ → Option ℕ → (ℕ → ℕ → ℕ) → Resolved
numbers key none tv choose = failed invalid_initiator_value
numbers key (some iv) none choose = failed invalid_target_value
numbers key (some iv) (some tv) choose = value (format_uint (clamp_value (choose iv tv) key))

abbrev pub declared : KeyDef → Option ℕ → Resolved
declared key none = failed invalid_target_value
declared key (some tv) = value (format_uint (clamp_value tv key))

-- The loops over the two lists: the first of the target's items that the initiator offers.
abbrev pub offered : List ℕ → List (List ℕ) → Bool
offered item [] = false
offered item (i ∷ items) = same_string i item || offered item items

unfoldable pub select : List (List ℕ) → List (List ℕ) → Resolved
select items [] = failed no_overlap
select items (t ∷ ts) = let later = select items ts in if offered t items then value t else later

-- strings.TrimSpace on ASCII text, as the values of the keys are.
abbrev pub is_space : ℕ → Bool
is_space b = leb 9 b && leb b 13 || b == 0x20

abbrev pub trim_left : List ℕ → List ℕ
trim_left [] = []
trim_left (b ∷ bs) = let rest = trim_left bs in if is_space b then rest else b ∷ bs

abbrev pub before_spaces : ℕ → List ℕ → List ℕ
before_spaces b [] = if is_space b then [] else b ∷ []
before_spaces b (c ∷ cs) = b ∷ c ∷ cs

abbrev pub trim_right : List ℕ → List ℕ
trim_right [] = []
trim_right (b ∷ bs) = before_spaces b (trim_right bs)

abbrev pub trim_space : List ℕ → List ℕ
trim_space s = trim_right (trim_left s)

-- The trimmed items of a list that commas separate.
abbrev pub items_of : List ℕ → List (List ℕ)
items_of s = map trim_space (split 0x2c s)

-- The `switch` on the key's type.
unfoldable pub resolve_kind : NegotiationType → KeyDef → List ℕ → List ℕ → Resolved
resolve_kind boolean_and key initiator target =
    value (yes_no (same_string initiator yes_string && same_string target yes_string))
resolve_kind boolean_or key initiator target =
    value (yes_no (same_string initiator yes_string || same_string target yes_string))
resolve_kind numerical_min key initiator target =
    numbers key (parse_uint initiator) (parse_uint target) (λ iv tv. if ltb tv iv then tv else iv)
resolve_kind numerical_max key initiator target =
    numbers key (parse_uint initiator) (parse_uint target) (λ iv tv. if ltb iv tv then tv else iv)
resolve_kind list_select key initiator target = select (items_of initiator) (items_of target)
resolve_kind declarative key initiator target = declared key (parse_uint target)

unfoldable pub resolve_key : KeyDef → List ℕ → List ℕ → Resolved
unfolding resolve_kind
resolve_key key initiator target = resolve_kind key.kind key initiator target
