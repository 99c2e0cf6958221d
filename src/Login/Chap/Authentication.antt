-- ===== src/Login/Chap/Authentication.antt =====
-- internal/login/chap.go: what an accepted challenge and an accepted response are.
use uiscsi.Common.{
  ℕ, ◌≤◌, ◌≡◌, refl, ap, ◌∙◌, Bool, true, false, not, Option, some, none, List, ◌∷◌, ◌++◌, length,
  leb, arith,
}
use uiscsi.Common.Text.{codes}
use uiscsi.Login.TextCodec.{KeyValue}
use uiscsi.Login.Decimal.{parse_uint}
use uiscsi.Login.Negotiation.{same_string}
use uiscsi.Login.Negotiation.Lists.{same_string→eq}
use uiscsi.Login.Registry.{map_value}
use uiscsi.Login.Chap.{
  ChapFailure, missing_algorithm, unsupported_algorithm, missing_identifier, invalid_identifier,
  missing_challenge, invalid_challenge, byte_of, missing_response, invalid_response, bad_response,
  Answer, failed, given, ◌>>=◌, required, check, all_zero, validate_challenge, decode_chap_binary,
  chap_response, ChapState, process_challenge, verify_mutual_response,
}

-- The value that the first of two steps gives to the second.
given_first :
    {A : Type 0} {B : Type 0} {C : Type 0} (m : Answer A) (f : A → Answer B) (b : B)
    → (m >>= f) ≡ given b
    → ((a : A) → m ≡ given a → f a ≡ given b → C)
    → C
given_first (failed e) f b h next = absurd cc
given_first (given a) f b h next = next a refl h

>>=-eq-given :
    {A : Type 0} {B : Type 0} (m : Answer A) (f : A → Answer B) (b : B)
    → (m >>= f) ≡ given b
    → (a : A) × (m ≡ given a) × (f a ≡ given b)
>>=-eq-given (failed e) f b h = absurd cc
>>=-eq-given (given a) f b h = (a, refl, h)

required-some :
    {A : Type 0} (e : ChapFailure) (o : Option A) (a : A) → required e o ≡ given a → o ≡ some a
required-some e none a h = absurd cc
required-some e (some x) a h = cc

check-true : (e : ChapFailure) (c : Bool) (u : Unit) → check e c ≡ given u → c ≡ true
check-true e true u h = refl
check-true e false u h = absurd cc

not-false : (c : Bool) → not c ≡ true → c ≡ false
not-false true h = absurd cc
not-false false h = refl

validate_challenge-fits :
    (challenge : List ℕ) (u : Unit)
    → validate_challenge challenge ≡ given u
    → (16 ≤ length challenge) × (all_zero challenge ≡ false)
unfolding validate_challenge
validate_challenge-fits challenge u h =
    let (v, long, mixed) = >>=-eq-given _ _ u h in
    let enough : leb 16 (length challenge) ≡ true = check-true _ _ v long in
    (ground arith, not-false _ (check-true _ _ u mixed))

module _ (md5 : List ℕ → List ℕ) (base64 : List ℕ → Option (List ℕ)) where
  -- The CHAP_R of these keys is the MD5 of the initiator's identifier, the target's secret and the
  -- initiator's challenge.
  pub record IsAuthentic (cs : ChapState) (keys : List KeyValue) : Type 0 where
    pub text : List ℕ
    pub present : map_value (codes "CHAP_R") keys ≡ some text
    pub decoded :
        decode_chap_binary base64 text
        ≡ some (md5 (cs.initiator_id ∷ (cs.mutual_secret ++ cs.initiator_challenge)))

  -- The keys carry a challenge of 16 bytes at least that are not all zero.
  pub record IsChallenge (keys : List KeyValue) : Type 0 where
    pub text : List ℕ
    pub challenge : List ℕ
    pub present : map_value (codes "CHAP_C") keys ≡ some text
    pub decoded : decode_chap_binary base64 text ≡ some challenge
    pub long : 16 ≤ length challenge
    pub not_zero : all_zero challenge ≡ false

  pub verify_mutual_response-IsAuthentic :
      (cs : ChapState) (keys : List KeyValue)
      → verify_mutual_response md5 base64 cs keys ≡ given tt
      → IsAuthentic cs keys
  unfolding verify_mutual_response chap_response
  verify_mutual_response-IsAuthentic cs keys h =
      let (text, present, h1) = >>=-eq-given _ _ _ h in
      let (response, decoded, h2) = >>=-eq-given _ _ _ h1 in
      record {
        text = text;
        present = required-some missing_response _ _ present;
        decoded =
            required-some invalid_response _ _ decoded
            ∙ ap (λ z. some z) (same_string→eq _ _ (check-true bad_response _ _ h2));
      }

  pub process_challenge-IsChallenge :
      (cs : ChapState) (keys answer : List KeyValue)
      → process_challenge md5 base64 cs keys ≡ given answer
      → IsChallenge keys
  unfolding process_challenge validate_challenge
  process_challenge-IsChallenge cs keys answer h =
      given_first (required missing_algorithm (map_value (codes "CHAP_A") keys)) _ answer h
        (λ algo p0 h0.
          given_first (check unsupported_algorithm (same_string algo (codes "5"))) _ answer h0
            (λ is_md5 p1 h1.
              given_first (required missing_identifier (map_value (codes "CHAP_I") keys)) _ answer
                h1
                (λ id_text p2 h2.
                  given_first (required invalid_identifier (byte_of (parse_uint id_text))) _ answer
                    h2
                    (λ id p3 h3.
                      given_first (required missing_challenge (map_value (codes "CHAP_C") keys)) _
                        answer h3
                        (λ text p4 h4.
                          given_first (required invalid_challenge (decode_chap_binary base64 text))
                            _ answer h4
                            (λ challenge p5 h5.
                              given_first (validate_challenge challenge) _ answer h5 (λ valid p6 h6.
                                let (long, mixed) = validate_challenge-fits challenge valid p6 in
                                record {
                                  text = text;
                                  challenge = challenge;
                                  present = required-some missing_challenge _ text p4;
                                  decoded = required-some invalid_challenge _ challenge p5;
                                  long = long;
                                  not_zero = mixed;
                                })))))))
