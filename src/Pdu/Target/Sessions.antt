-- ===== src/Pdu/Target/Sessions.antt =====
-- internal/pdu/target.go: LoginResp, TextResp, LogoutResp.
-- A BHS is written field by field in the order of MarshalBHS.
use uiscsi.Common.{ℕ, ◌*◌, ◌/◌, ◌%◌, ◌^◌, ◌<◌, ◌≡◌, Bool, List, [], ◌∷◌, ◌++◌, bit_and, length}
use uiscsi.Common.Bits.{has_flag}
use uiscsi.Common.Bytes.{
  byte_at, or_flag, or_byte, put8, put16, put32, get16, get32, put_array, get_array, zeros,
}
use uiscsi.Pdu.Header.{
  Header, IsValidHeader, Result, ok, ◌>>=◌, marshal_header, unmarshal_header, bhs_length,
}
use uiscsi.Pdu.Opcode.{op_login_resp, op_text_resp, op_logout_resp}

-- LoginResp
pub record LoginResp : Type 0 where
  pub header : Header
  pub transit : Bool
  pub continue : Bool
  pub csg : ℕ
  pub nsg : ℕ
  pub version_max : ℕ
  pub version_active : ℕ
  pub isid : List ℕ
  pub tsih : ℕ
  pub stat_sn : ℕ
  pub exp_cmd_sn : ℕ
  pub max_cmd_sn : ℕ
  pub status_class : ℕ
  pub status_detail : ℕ
  pub payload : List ℕ

-- Every field of LoginResp is within the width of its Go type and of its bits on the wire.
pub record IsValidLoginResp (p : LoginResp) : Type 0 where
  pub of_header : IsValidHeader p.header
  pub of_csg : p.csg < 4
  pub of_nsg : p.nsg < 4
  pub of_version_max : p.version_max < 2 ^ 8
  pub of_version_active : p.version_active < 2 ^ 8
  pub of_isid : length p.isid ≡ 6
  pub of_tsih : p.tsih < 2 ^ 16
  pub of_stat_sn : p.stat_sn < 2 ^ 32
  pub of_exp_cmd_sn : p.exp_cmd_sn < 2 ^ 32
  pub of_max_cmd_sn : p.max_cmd_sn < 2 ^ 32
  pub of_status_class : p.status_class < 2 ^ 8
  pub of_status_detail : p.status_detail < 2 ^ 8

unfoldable pub marshal_login_resp : LoginResp → Result (List ℕ)
unfolding marshal_header
marshal_login_resp p = do
  b0 ← marshal_header (record (p.header) { op_code = op_login_resp }) (zeros bhs_length)
  let b1 = put8 1 0 b0
  let b2 = or_flag 1 0x80 p.transit b1
  let b3 = or_flag 1 0x40 p.continue b2
  let b4 = or_byte 1 (bit_and p.csg 0x03 * 2 ^ 2) b3
  let b5 = or_byte 1 (bit_and p.nsg 0x03) b4
  let b6 = put8 2 p.version_max b5
  let b7 = put8 3 p.version_active b6
  let b8 = put_array 8 6 p.isid b7
  let b9 = put16 14 p.tsih b8
  let b10 = put32 24 p.stat_sn b9
  let b11 = put32 28 p.exp_cmd_sn b10
  let b12 = put32 32 p.max_cmd_sn b11
  let b13 = put8 36 p.status_class b12
  let b14 = put8 37 p.status_detail b13
  ok b14

unfoldable pub unmarshal_login_resp : List ℕ → LoginResp
unfolding unmarshal_header
unmarshal_login_resp b = record {
  header = unmarshal_header b;
  transit = has_flag (byte_at b 1) 0x80;
  continue = has_flag (byte_at b 1) 0x40;
  csg = bit_and (byte_at b 1 / 2 ^ 2) 0x03;
  nsg = bit_and (byte_at b 1) 0x03;
  version_max = byte_at b 2;
  version_active = byte_at b 3;
  isid = get_array 8 6 b;
  tsih = get16 14 b;
  stat_sn = get32 24 b;
  exp_cmd_sn = get32 28 b;
  max_cmd_sn = get32 32 b;
  status_class = byte_at b 36;
  status_detail = byte_at b 37;
  payload = [];
}

-- What the wire keeps of a LoginResp.
abbrev pub sent_login_resp : LoginResp → LoginResp
sent_login_resp p = record p {
  header = record (p.header) {
    op_code = op_login_resp;
    final = p.transit;
    lun = p.isid ++ (p.tsih / 2 ^ 8 % 256) ∷ (p.tsih % 256) ∷ [];
  };
  payload = [];
}

-- TextResp
pub record TextResp : Type 0 where
  pub header : Header
  pub continue : Bool
  pub target_transfer_tag : ℕ
  pub stat_sn : ℕ
  pub exp_cmd_sn : ℕ
  pub max_cmd_sn : ℕ
  pub payload : List ℕ

-- Every field of TextResp is within the width of its Go type and of its bits on the wire.
pub record IsValidTextResp (p : TextResp) : Type 0 where
  pub of_header : IsValidHeader p.header
  pub of_target_transfer_tag : p.target_transfer_tag < 2 ^ 32
  pub of_stat_sn : p.stat_sn < 2 ^ 32
  pub of_exp_cmd_sn : p.exp_cmd_sn < 2 ^ 32
  pub of_max_cmd_sn : p.max_cmd_sn < 2 ^ 32

unfoldable pub marshal_text_resp : TextResp → Result (List ℕ)
unfolding marshal_header
marshal_text_resp p = do
  b0 ← marshal_header (record (p.header) { op_code = op_text_resp }) (zeros bhs_length)
  let b1 = or_flag 1 0x40 p.continue b0
  let b2 = put32 20 p.target_transfer_tag b1
  let b3 = put32 24 p.stat_sn b2
  let b4 = put32 28 p.exp_cmd_sn b3
  let b5 = put32 32 p.max_cmd_sn b4
  ok b5

unfoldable pub unmarshal_text_resp : List ℕ → TextResp
unfolding unmarshal_header
unmarshal_text_resp b = record {
  header = unmarshal_header b;
  continue = has_flag (byte_at b 1) 0x40;
  target_transfer_tag = get32 20 b;
  stat_sn = get32 24 b;
  exp_cmd_sn = get32 28 b;
  max_cmd_sn = get32 32 b;
  payload = [];
}

-- What the wire keeps of a TextResp.
abbrev pub sent_text_resp : TextResp → TextResp
sent_text_resp p = record p { header = record (p.header) { op_code = op_text_resp }; payload = [] }

-- LogoutResp
pub record LogoutResp : Type 0 where
  pub header : Header
  pub response : ℕ
  pub stat_sn : ℕ
  pub exp_cmd_sn : ℕ
  pub max_cmd_sn : ℕ
  pub time2_wait : ℕ
  pub time2_retain : ℕ

-- Every field of LogoutResp is within the width of its Go type and of its bits on the wire.
pub record IsValidLogoutResp (p : LogoutResp) : Type 0 where
  pub of_header : IsValidHeader p.header
  pub of_response : p.response < 2 ^ 8
  pub of_stat_sn : p.stat_sn < 2 ^ 32
  pub of_exp_cmd_sn : p.exp_cmd_sn < 2 ^ 32
  pub of_max_cmd_sn : p.max_cmd_sn < 2 ^ 32
  pub of_time2_wait : p.time2_wait < 2 ^ 16
  pub of_time2_retain : p.time2_retain < 2 ^ 16

unfoldable pub marshal_logout_resp : LogoutResp → Result (List ℕ)
unfolding marshal_header
marshal_logout_resp p = do
  b0 ← marshal_header (record (p.header) { op_code = op_logout_resp }) (zeros bhs_length)
  let b1 = put8 2 p.response b0
  let b2 = put32 24 p.stat_sn b1
  let b3 = put32 28 p.exp_cmd_sn b2
  let b4 = put32 32 p.max_cmd_sn b3
  let b5 = put16 40 p.time2_wait b4
  let b6 = put16 42 p.time2_retain b5
  ok b6

unfoldable pub unmarshal_logout_resp : List ℕ → LogoutResp
unfolding unmarshal_header
unmarshal_logout_resp b = record {
  header = unmarshal_header b;
  response = byte_at b 2;
  stat_sn = get32 24 b;
  exp_cmd_sn = get32 28 b;
  max_cmd_sn = get32 32 b;
  time2_wait = get16 40 b;
  time2_retain = get16 42 b;
}

-- What the wire keeps of a LogoutResp.
abbrev pub sent_logout_resp : LogoutResp → LogoutResp
sent_logout_resp p = record p { header = record (p.header) { op_code = op_logout_resp } }
