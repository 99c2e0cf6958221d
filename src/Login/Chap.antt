-- ===== src/Login/Chap.antt =====
-- internal/login/chap.go. A string is the list of its bytes. MD5 and the base64 of the standard
-- alphabet are the arguments `md5` and `base64`, what crypto/rand gives is an argument of
-- `new_chap_state`.
pub mod Binary
pub mod Authentication
use uiscsi.Common.{
  ℕ, ◌+◌, ◌-◌, ◌*◌, ◌/◌, ◌%◌, Bool, true, false, ◌&&◌, ◌||◌, not, Option, some, none, List, [], ◌∷◌,
  ◌++◌, length, ltb, leb, ◌==◌, if◌then◌else◌,
}
use Prim.Native.String.{String}
use uiscsi.Common.Text.{codes}
use uiscsi.Login.TextCodec.{KeyValue}
use uiscsi.Login.Decimal.{parse_uint, format_uint}
use uiscsi.Login.Negotiation.{same_string}
use uiscsi.Login.Registry.{map_value}

-- The AuthReasons, and the errors without one.
pub data ChapFailure : Type 0 where
  short_challenge low_entropy bad_response unsupported_algorithm : ChapFailure
  missing_algorithm missing_identifier invalid_identifier : ChapFailure
  missing_challenge invalid_challenge missing_response invalid_response : ChapFailure

pub data Answer {ℓ} (A : Type ℓ) : Type ℓ where
  failed : ChapFailure → Answer A
  given : A → Answer A

-- `if err != nil { return err }` between two steps.
infixl 5 ◌>>=◌
abbrev pub ◌>>=◌ {ℓ κ} : {A : Type ℓ} {B : Type κ} → Answer A → (A → Answer B) → Answer B
failed e >>= next = failed e
given a >>= next = next a

abbrev pub required {ℓ} : {A : Type ℓ} → ChapFailure → Option A → Answer A
required e none = failed e
required e (some a) = given a

abbrev pub check : ChapFailure → Bool → Answer {0} Unit
check e true = given tt
check e false = failed e

-- The loop of validateChallenge.
unfoldable pub all_zero : List ℕ → Bool
all_zero [] = true
all_zero (b ∷ bs) = b == 0 && all_zero bs

unfoldable pub validate_challenge : List ℕ → Answer {0} Unit
validate_challenge challenge = do
  long ← check short_challenge (leb 16 (length challenge))
  check low_entropy (not (all_zero challenge))

-- encoding/hex, in lower case; DecodeString takes both cases.
abbrev pub hex_digit : ℕ → ℕ
hex_digit v = if ltb v 10 then b'0' + v else b'a' + (v - 10)

unfoldable pub encode_hex : List ℕ → List ℕ
encode_hex [] = []
encode_hex (b ∷ bs) = hex_digit (b / 16) ∷ hex_digit (b % 16) ∷ encode_hex bs

unfoldable pub hex_value : ℕ → Option ℕ
hex_value c =
    if leb b'0' c && leb c b'9'
    then some (c - b'0')
    else if leb b'a' c && leb c b'f'
    then some (c - b'a' + 10)
    else if leb b'A' c && leb c b'F'
    then some (c - b'A' + 10)
    else none

abbrev pub hex_byte : Option ℕ → Option ℕ → Option (List ℕ) → Option (List ℕ)
hex_byte none low rest = none
hex_byte (some h) none rest = none
hex_byte (some h) (some l) none = none
hex_byte (some h) (some l) (some bs) = some ((h * 16 + l) ∷ bs)

unfoldable pub decode_hex : List ℕ → Option (List ℕ)
decode_hex [] = some []
decode_hex (h ∷ []) = none
decode_hex (h ∷ l ∷ cs) = hex_byte (hex_value h) (hex_value l) (decode_hex cs)

unfoldable pub encode_chap_binary : List ℕ → List ℕ
encode_chap_binary bytes = b'0' ∷ b'x' ∷ encode_hex bytes

unfoldable pub decode_chap_binary : (List ℕ → Option (List ℕ)) → List ℕ → Option (List ℕ)
decode_chap_binary base64 [] = none
decode_chap_binary base64 (a ∷ []) = none
decode_chap_binary base64 (a ∷ b ∷ cs) =
    if a == b'0' && (b == b'x' || b == b'X')
    then decode_hex cs
    else if a == b'0' && (b == b'b' || b == b'B')
    then base64 cs
    else none

unfoldable pub chap_response : (List ℕ → List ℕ) → (id : ℕ) (secret challenge : List ℕ) → List ℕ
chap_response md5 id secret challenge = md5 (id ∷ (secret ++ challenge))

pub record ChapState : Type 0 where
  pub user : List ℕ
  pub secret : List ℕ
  pub mutual_secret : List ℕ
  pub is_mutual : Bool
  pub initiator_id : ℕ
  pub initiator_challenge : List ℕ

-- `random_id` and `random_challenge` are one and 16 bytes of crypto/rand.
abbrev pub new_chap_state :
    (user secret : List ℕ) (two_way : Bool) (mutual_secret : List ℕ)
    → (random_id : ℕ) (random_challenge : List ℕ) → ChapState
new_chap_state user secret two_way other id challenge = record {
  user = user;
  secret = secret;
  mutual_secret = other;
  is_mutual = two_way;
  initiator_id = if two_way then id else 0;
  initiator_challenge = if two_way then challenge else [];
}

-- strconv.ParseUint(s, 10, 8)
abbrev pub byte_of : Option ℕ → Option ℕ
byte_of none = none
byte_of (some v) = if ltb 0xff v then none else some v

abbrev pub chap_pair : String → List ℕ → KeyValue
chap_pair k v = record { key = codes k; value = v }

-- `keys` are the pairs of which kvToMap makes the map; the map that is returned is a list.
unfoldable pub process_challenge :
    (List ℕ → List ℕ)
    → (List ℕ → Option (List ℕ))
    → ChapState
    → List KeyValue
    → Answer (List KeyValue)
process_challenge md5 base64 cs keys = do
  algo ← required missing_algorithm (map_value (codes "CHAP_A") keys)
  is_md5 ← check unsupported_algorithm (same_string algo (codes "5"))
  id_text ← required missing_identifier (map_value (codes "CHAP_I") keys)
  id ← required invalid_identifier (byte_of (parse_uint id_text))
  text ← required missing_challenge (map_value (codes "CHAP_C") keys)
  challenge ← required invalid_challenge (decode_chap_binary base64 text)
  valid ← validate_challenge challenge
  let response = chap_response md5 id cs.secret challenge
  given (
      chap_pair "CHAP_N" cs.user
      ∷ chap_pair "CHAP_R" (encode_chap_binary response)
      ∷ (if cs.is_mutual
          then chap_pair "CHAP_I" (format_uint cs.initiator_id)
            ∷ chap_pair "CHAP_C" (encode_chap_binary cs.initiator_challenge)
            ∷ []
          else []))

unfoldable pub verify_mutual_response :
    (List ℕ → List ℕ) → (List ℕ → Option (List ℕ)) → ChapState → List KeyValue → Answer {0} Unit
verify_mutual_response md5 base64 cs keys = do
  text ← required missing_response (map_value (codes "CHAP_R") keys)
  response ← required invalid_response (decode_chap_binary base64 text)
  let expected = chap_response md5 cs.initiator_id cs.mutual_secret cs.initiator_challenge
  check bad_response (same_string response expected)
