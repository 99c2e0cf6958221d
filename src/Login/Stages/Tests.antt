-- ===== src/Login/Stages/Tests.antt =====
-- internal/login: logins with answers of a target.
use uiscsi.Common.{ℕ, ◌≡◌, refl, Bool, true, false, Option, some, none, List, [], ◌∷◌, take}
use uiscsi.Common.Text.{codes}
use uiscsi.Common.Bytes.{zeros}
use uiscsi.Pdu.Header.{marshal_header}
use uiscsi.Pdu.Initiator.Sessions.{marshal_login_req}
use uiscsi.Pdu.Header.{unmarshal_header, pad_len}
use uiscsi.Pdu.Target.Sessions.{unmarshal_login_resp}
use uiscsi.Pdu.Codec.{marshal_bhs, data_segment, encode_pdu}
use uiscsi.Session.DataOut.{raw_of}
use uiscsi.Login.TextCodec.{KeyValue, encode_text_kv, decode_text_kv, decode_segments, split, cut}
use uiscsi.Login.Decimal.{shift_in, parse_digits, parse_uint, digits_of, format_uint}
use uiscsi.Login.Negotiation.{clamp_value, resolve_kind, resolve_key}
use uiscsi.Login.Registry.{key_name, find_key_def, map_value}
use uiscsi.Login.Operational.{LoginConfig, build_initiator_keys, settle_keys, negotiated}
use uiscsi.Login.Operational.Bounds.{IsNegotiated, negotiated-IsNegotiated}
use uiscsi.Login.Chap.{
  ChapState, all_zero, validate_challenge, encode_hex, hex_value, decode_hex, encode_chap_binary,
  decode_chap_binary, chap_response, process_challenge, verify_mutual_response,
}
use uiscsi.Login.Stages.{
  Exchange, answered, Progress, refused, done, LoginState, no_params, start_login, send_login,
  send_checked, verify_target, authenticate, security_of, do_operational_negotiation, run,
}
use uiscsi.Login.Stages.Chap.{IsChapLogin}
use uiscsi.Login.Stages.Whole.{IsCompleted, run-IsCompleted, run-IsChapLogin}

abbrev config : LoginConfig
config = record {
  target_name = codes "iqn.t";
  session_type = codes "Normal";
  initiator_name = codes "iqn.i";
  header_digests = codes "None" ∷ [];
  data_digests = codes "None" ∷ [];
  overrides = [];
}

-- The target's bursts are of 600 bytes.
abbrev small_bursts : List KeyValue
small_bursts = record { key = codes "MaxBurstLength"; value = codes "600" } ∷ []

abbrev is_some_of {ℓ} : {A : Type ℓ} → Option A → Bool
is_some_of none = false
is_some_of (some a) = true

abbrev or_else {ℓ} : {A : Type ℓ} → A → Option A → A
or_else a none = a
or_else a (some b) = b

some_of : {A : Type 0} (a : A) (o : Option A) → is_some_of o ≡ true → o ≡ some (or_else a o)
some_of a none h = absurd cc
some_of a (some b) h = refl

negotiated_small :
    negotiated config (encode_text_kv small_bursts)
    ≡ some (or_else no_params (negotiated config (encode_text_kv small_bursts)))
unfolding negotiated encode_text_kv decode_text_kv decode_segments split cut settle_keys
    find_key_def key_name map_value resolve_key resolve_kind parse_uint parse_digits shift_in
    format_uint digits_of clamp_value build_initiator_keys
negotiated_small = some_of no_params (negotiated config (encode_text_kv small_bursts)) refl

negotiated-IsNegotiated_example :
    IsNegotiated (or_else no_params (negotiated config (encode_text_kv small_bursts)))
negotiated-IsNegotiated_example =
    negotiated-IsNegotiated config (encode_text_kv small_bursts)
      (or_else no_params (negotiated config (encode_text_kv small_bursts))) negotiated_small

-- A target that answers with these keys and StatSN 0.
abbrev answer : List KeyValue → Exchange
answer pairs = answered (raw_of (zeros 48) (encode_text_kv pairs))

abbrev is_done : Progress LoginState → Bool
is_done (refused e) = false
is_done (done ls) = true

abbrev state_of : LoginState → Progress LoginState → LoginState
state_of ls (refused e) = ls
state_of ls (done ls') = ls'

done_of : (ls : LoginState) (a : Progress LoginState) → is_done a ≡ true → a ≡ done (state_of ls a)
done_of ls (refused e) h = absurd cc
done_of ls (done a) h = refl

abbrev no_base64 : List ℕ → Option (List ℕ)
no_base64 s = none

abbrev same_order : List KeyValue → List KeyValue
same_order keys = keys

-- 16 bytes that stand for a digest.
abbrev digest : List ℕ → List ℕ
digest bytes = take 16 bytes

abbrev sixteen : List ℕ
sixteen = 1 ∷ zeros 15

abbrev plain_start : LoginState
plain_start = start_login config none 0 (0x40 ∷ zeros 5) (answer [] ∷ answer small_bursts ∷ [])

abbrev plain_login : Progress LoginState
plain_login = run digest no_base64 same_order plain_start

abbrev mutual_state : ChapState
mutual_state = record {
  user = codes "u";
  secret = codes "s";
  mutual_secret = codes "t";
  is_mutual = true;
  initiator_id = 9;
  initiator_challenge = sixteen;
}

abbrev challenge_keys : List KeyValue
challenge_keys =
    record { key = codes "CHAP_A"; value = codes "5" }
    ∷ record { key = codes "CHAP_I"; value = codes "7" }
    ∷ record { key = codes "CHAP_C"; value = encode_chap_binary sixteen }
    ∷ []

abbrev verdict_keys : List KeyValue
verdict_keys =
    record { key = codes "CHAP_R"; value = encode_chap_binary (digest (9 ∷ b't' ∷ sixteen)) } ∷ []

abbrev mutual_start : LoginState
mutual_start =
    start_login config (some mutual_state) 0 (0x40 ∷ zeros 5)
      (answer [] ∷ answer challenge_keys ∷ answer verdict_keys ∷ answer small_bursts ∷ [])

abbrev mutual_login : Progress LoginState
mutual_login = run digest no_base64 same_order mutual_start

plain_done : plain_login ≡ done (state_of plain_start plain_login)
unfolding run security_of authenticate do_operational_negotiation send_checked send_login encode_pdu
    marshal_bhs data_segment marshal_login_req marshal_header pad_len unmarshal_login_resp
    unmarshal_header verify_target negotiated encode_text_kv decode_text_kv decode_segments split
    cut settle_keys find_key_def key_name map_value resolve_key resolve_kind parse_uint parse_digits
    shift_in format_uint digits_of clamp_value build_initiator_keys
plain_done = done_of plain_start plain_login refl

run-IsCompleted_example : IsCompleted none plain_start (state_of plain_start plain_login)
run-IsCompleted_example =
    run-IsCompleted digest no_base64 same_order plain_start (state_of plain_start plain_login)
      plain_done

mutual_done : mutual_login ≡ done (state_of mutual_start mutual_login)
unfolding run security_of authenticate do_operational_negotiation send_checked send_login encode_pdu
    marshal_bhs data_segment marshal_login_req marshal_header pad_len unmarshal_login_resp
    unmarshal_header verify_target negotiated encode_text_kv decode_text_kv decode_segments split
    cut settle_keys find_key_def key_name map_value resolve_key resolve_kind parse_uint parse_digits
    shift_in format_uint digits_of clamp_value build_initiator_keys process_challenge
    verify_mutual_response validate_challenge all_zero chap_response encode_chap_binary
    decode_chap_binary encode_hex decode_hex hex_value
mutual_done = done_of mutual_start mutual_login refl

run-IsChapLogin_example : IsChapLogin digest no_base64 mutual_state mutual_start
run-IsChapLogin_example =
    run-IsChapLogin digest no_base64 same_order mutual_state mutual_start
      (state_of mutual_start mutual_login) refl mutual_done
