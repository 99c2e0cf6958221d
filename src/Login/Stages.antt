-- ===== src/Login/Stages.antt =====
-- internal/login/login.go: loginState, sendLogin, the two stages, run and what Login hands off. What
-- the connection does in each exchange is a list of the state. Each error ends Login, so a failure
-- carries no state.
pub mod Results
pub mod Chap
pub mod Whole
mod Tests
use uiscsi.Common.{
  ℕ, ◌+◌, ◌%◌, ◌^◌, Bool, true, false, ◌&&◌, not, Option, some, none, List, [], ◌∷◌, ◌++◌, length,
  take, drop, ◌==◌, if◌then◌else◌,
}
use uiscsi.Common.Text.{codes}
use uiscsi.Common.Bytes.{zeros}
use uiscsi.Pdu.Header.{Error, Result, ok, err, bhs_length}
use uiscsi.Pdu.Initiator.Sessions.{LoginReq}
use uiscsi.Pdu.Target.Sessions.{LoginResp, unmarshal_login_resp}
use uiscsi.Pdu.Codec.{login_req, encode_pdu}
use uiscsi.Transport.Framer.{RawPdu}
use uiscsi.Session.DataOut.{raw_of}
use uiscsi.Login.Params.{NegotiatedParams, defaults}
use uiscsi.Login.TextCodec.{KeyValue, encode_text_kv, decode_text_kv}
use uiscsi.Login.Operational.{LoginConfig, build_initiator_keys, negotiated}
use uiscsi.Login.Chap.{
  Answer, failed, given, ChapFailure, ChapState, process_challenge, verify_mutual_response,
}

-- SetDeadline or WriteRawPDU fails, ReadRawPDU fails, or the target answers.
pub data Exchange : Type 0 where
  not_sent not_read : Exchange
  answered : RawPdu → Exchange

pub data LoginFailure : Type 0 where
  not_exchanged : LoginFailure
  not_encoded : Error → LoginFailure
  status : (status_class status_detail : ℕ) → LoginFailure
  not_authenticated : ChapFailure → LoginFailure
  not_negotiated : LoginFailure

pub data Progress {ℓ} (A : Type ℓ) : Type ℓ where
  refused : LoginFailure → Progress A
  done : A → Progress A

infixl 5 ◌>>=◌
abbrev pub ◌>>=◌ {ℓ κ} : {A : Type ℓ} {B : Type κ} → Progress A → (A → Progress B) → Progress B
refused e >>= next = refused e
done a >>= next = next a

-- The conn is `exchanges`, those to come, and `sent`, what was written.
pub record LoginState : Type 0 where
  pub exchanges : List Exchange
  pub sent : List RawPdu
  pub cfg : LoginConfig
  pub params : NegotiatedParams
  pub chap : Option ChapState
  pub cmd_sn : ℕ
  pub exp_stat_sn : ℕ
  pub tsih : ℕ
  pub isid : List ℕ

abbrev pub stage_security_negotiation : ℕ
stage_security_negotiation = 0

abbrev pub stage_operational_neg : ℕ
stage_operational_neg = 1

abbrev pub stage_full_feature_phase : ℕ
stage_full_feature_phase = 3

abbrev pub request_of : LoginState → List ℕ → (transit : Bool) (csg nsg : ℕ) → LoginReq
request_of ls segment transit csg nsg = record {
  header = record {
    immediate = false;
    op_code = 0;
    final = true;
    total_ahs_length = 0;
    data_segment_len = length segment % 2 ^ 32;
    lun = zeros 8;
    initiator_task_tag = 0;
  };
  transit = transit;
  continue = false;
  csg = csg;
  nsg = nsg;
  version_max = 0;
  version_min = 0;
  isid = ls.isid;
  tsih = ls.tsih;
  cid = 0;
  cmd_sn = ls.cmd_sn;
  exp_stat_sn = ls.exp_stat_sn;
  payload = segment;
}

abbrev pub response_of : RawPdu → LoginResp
response_of raw = record (unmarshal_login_resp raw.bhs) { payload = raw.data_segment }

-- From the write on: the PDU, and the exchanges to come.
abbrev pub exchange : LoginState → RawPdu → List Exchange → Progress (LoginResp × LoginState)
exchange ls raw [] = refused not_exchanged
exchange ls raw (not_sent ∷ later) = refused not_exchanged
exchange ls raw (not_read ∷ later) = refused not_exchanged
exchange ls raw (answered answer ∷ later) = done (
  response_of answer,
  record ls {
    exchanges = later;
    sent = ls.sent ++ raw ∷ [];
    exp_stat_sn = ((response_of answer).stat_sn + 1) % 2 ^ 32;
  },
)

abbrev pub send_encoded : LoginState → Result (List ℕ) → Progress (LoginResp × LoginState)
send_encoded ls (err e) = refused (not_encoded e)
send_encoded ls (ok bytes) =
    exchange ls (raw_of (take bhs_length bytes) (drop bhs_length bytes)) ls.exchanges

unfoldable pub send_login :
    List KeyValue → (transit : Bool) (csg nsg : ℕ) → LoginState → Progress (LoginResp × LoginState)
send_login keys transit csg nsg ls =
    send_encoded ls (encode_pdu (login_req (request_of ls (encode_text_kv keys) transit csg nsg)))

-- The request, and the check of the answer's status behind it.
unfoldable pub send_checked :
    List KeyValue → (transit : Bool) (csg nsg : ℕ) → LoginState → Progress (LoginResp × LoginState)
send_checked keys transit csg nsg ls = do
  (resp, ls') ← send_login keys transit csg nsg ls
  if resp.status_class == 0
      then done (resp, ls')
      else refused (status resp.status_class resp.status_detail)

abbrev pub first_keys : LoginConfig → List ℕ → List KeyValue
first_keys cfg auth_method =
    record { key = codes "InitiatorName"; value = cfg.initiator_name }
    ∷ record { key = codes "SessionType"; value = cfg.session_type }
    ∷ record { key = codes "AuthMethod"; value = auth_method }
    ∷ (if length cfg.target_name == 0
        then []
        else record { key = codes "TargetName"; value = cfg.target_name } ∷ [])

-- The transit to the full feature phase at the end of the security stage.
abbrev pub after_security : LoginResp → LoginState → LoginState
after_security resp ls =
    if resp.transit && resp.nsg == stage_full_feature_phase
    then record ls {
      params = record defaults { tsih = resp.tsih; target_name = ls.cfg.target_name };
    }
    else ls

abbrev pub authenticated {ℓ} : {A : Type ℓ} → Answer A → Progress A
authenticated (failed e) = refused (not_authenticated e)
authenticated (given a) = done a

-- The check of mutual CHAP.
unfoldable pub verify_target :
    (List ℕ → List ℕ) → (List ℕ → Option (List ℕ)) → ChapState → LoginResp → Progress {0} Unit
verify_target md5 base64 cs resp =
    if cs.is_mutual
    then authenticated (verify_mutual_response md5 base64 cs (decode_text_kv resp.payload))
    else done tt

abbrev pub adopt_params : LoginResp → LoginState → Option NegotiatedParams → Progress LoginState
adopt_params resp ls none = refused not_negotiated
adopt_params resp ls (some p) =
    done (record ls { params = record p { tsih = resp.tsih; target_name = ls.cfg.target_name } })

unfoldable pub do_operational_negotiation : LoginState → Progress LoginState
do_operational_negotiation ls = do
  (resp, ls1) ←
      send_checked (build_initiator_keys ls.cfg) true stage_operational_neg stage_full_feature_phase
        ls
  adopt_params resp ls1 (negotiated ls1.cfg resp.payload)

-- `order` is the order in which the loop over chapResp takes the keys. The three rounds of CHAP.
module _ (md5 : List ℕ → List ℕ) (base64 : List ℕ → Option (List ℕ))
    (order : List KeyValue → List KeyValue) where
  unfoldable pub authenticate : ChapState → LoginState → Progress LoginState
  authenticate cs ls = do
    (first, ls1) ←
        send_checked (first_keys ls.cfg (codes "CHAP")) false stage_security_negotiation
          stage_security_negotiation ls
    (second, ls2) ←
        send_checked (record { key = codes "CHAP_A"; value = codes "5" } ∷ []) false
          stage_security_negotiation stage_security_negotiation ls1
    keys ← authenticated (process_challenge md5 base64 cs (decode_text_kv second.payload))
    (last, ls3) ←
        send_checked (order keys) true stage_security_negotiation stage_operational_neg ls2
    verified ← verify_target md5 base64 cs last
    done (after_security last ls3)

  unfoldable pub security_of : Option ChapState → LoginState → Progress LoginState
  security_of (some cs) ls = authenticate cs ls
  security_of none ls = do
    (resp, ls1) ←
        send_checked (first_keys ls.cfg (codes "None")) true stage_security_negotiation
          stage_operational_neg ls
    done (after_security resp ls1)

  abbrev pub do_security_negotiation : LoginState → Progress LoginState
  do_security_negotiation ls = security_of ls.chap ls

  unfoldable pub run : LoginState → Progress LoginState
  run ls = do ls1 ← do_security_negotiation ls; do_operational_negotiation ls1

-- The hand-off at the end of Login.
abbrev pub handed_off : LoginState → NegotiatedParams
handed_off ls = record ls.params {
  cmd_sn = ls.cmd_sn;
  exp_stat_sn = ls.exp_stat_sn;
  isid = ls.isid;
}

-- &NegotiatedParams{}
abbrev pub no_params : NegotiatedParams
no_params = record {
  header_digest = false;
  data_digest = false;
  max_connections = 0;
  initial_r2t = false;
  immediate_data = false;
  max_recv_data_segment_length = 0;
  max_burst_length = 0;
  first_burst_length = 0;
  default_time2_wait = 0;
  default_time2_retain = 0;
  max_outstanding_r2t = 0;
  data_pdu_in_order = false;
  data_sequence_in_order = false;
  error_recovery_level = 0;
  target_name = [];
  tsih = 0;
  isid = zeros 6;
  cmd_sn = 0;
  exp_stat_sn = 0;
}

-- The state with which Login starts, on a connection that will do `exchanges`.
abbrev pub start_login :
    LoginConfig → Option ChapState → (tsih : ℕ) (isid : List ℕ) → List Exchange → LoginState
start_login cfg chap tsih isid exchanges = record {
  exchanges = exchanges;
  sent = [];
  cfg = cfg;
  params = no_params;
  chap = chap;
  cmd_sn = 1;
  exp_stat_sn = 0;
  tsih = tsih;
  isid = isid;
}
