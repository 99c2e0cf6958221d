-- ===== src/Pdu/Initiator/Sessions.antt =====
-- internal/pdu/initiator.go: LoginReq, TextReq, LogoutReq.
-- A BHS is written field by field in the order of MarshalBHS.
use uiscsi.Common.{ℕ, ◌*◌, ◌/◌, ◌%◌, ◌^◌, ◌<◌, ◌≡◌, Bool, List, [], ◌∷◌, ◌++◌, bit_and, length}
use uiscsi.Common.Bits.{has_flag}
use uiscsi.Common.Bytes.{
  byte_at, or_flag, or_byte, put8, put16, put32, get16, get32, put_array, get_array, zeros,
}
use uiscsi.Pdu.Header.{
  Header, IsValidHeader, Result, ok, ◌>>=◌, marshal_header, unmarshal_header, bhs_length,
}
use uiscsi.Pdu.Opcode.{op_login_req, op_text_req, op_logout_req}

-- LoginReq
pub record LoginReq : Type 0 where
  pub header : Header
  pub transit : Bool
  pub continue : Bool
  pub csg : ℕ
  pub nsg : ℕ
  pub version_max : ℕ
  pub version_min : ℕ
  pub isid : List ℕ
  pub tsih : ℕ
  pub cid : ℕ
  pub cmd_sn : ℕ
  pub exp_stat_sn : ℕ
  pub payload : List ℕ

-- Every field of LoginReq is within the width of its Go type and of its bits on the wire.
pub record IsValidLoginReq (p : LoginReq) : Type 0 where
  pub of_header : IsValidHeader p.header
  pub of_csg : p.csg < 4
  pub of_nsg : p.nsg < 4
  pub of_version_max : p.version_max < 2 ^ 8
  pub of_version_min : p.version_min < 2 ^ 8
  pub of_isid : length p.isid ≡ 6
  pub of_tsih : p.tsih < 2 ^ 16
  pub of_cid : p.cid < 2 ^ 16
  pub of_cmd_sn : p.cmd_sn < 2 ^ 32
  pub of_exp_stat_sn : p.exp_stat_sn < 2 ^ 32

unfoldable pub marshal_login_req : LoginReq → Result (List ℕ)
unfolding marshal_header
marshal_login_req p = do
  b0 ← marshal_header (record (p.header) { op_code = op_login_req }) (zeros bhs_length)
  let b1 = put8 1 0 b0
  let b2 = or_flag 1 0x80 p.transit b1
  let b3 = or_flag 1 0x40 p.continue b2
  let b4 = or_byte 1 (bit_and p.csg 0x03 * 2 ^ 2) b3
  let b5 = or_byte 1 (bit_and p.nsg 0x03) b4
  let b6 = put8 2 p.version_max b5
  let b7 = put8 3 p.version_min b6
  let b8 = put_array 8 6 p.isid b7
  let b9 = put16 14 p.tsih b8
  let b10 = put16 20 p.cid b9
  let b11 = put32 24 p.cmd_sn b10
  let b12 = put32 28 p.exp_stat_sn b11
  ok b12

unfoldable pub unmarshal_login_req : List ℕ → LoginReq
unfolding unmarshal_header
unmarshal_login_req b = record {
  header = unmarshal_header b;
  transit = has_flag (byte_at b 1) 0x80;
  continue = has_flag (byte_at b 1) 0x40;
  csg = bit_and (byte_at b 1 / 2 ^ 2) 0x03;
  nsg = bit_and (byte_at b 1) 0x03;
  version_max = byte_at b 2;
  version_min = byte_at b 3;
  isid = get_array 8 6 b;
  tsih = get16 14 b;
  cid = get16 20 b;
  cmd_sn = get32 24 b;
  exp_stat_sn = get32 28 b;
  payload = [];
}

-- What the wire keeps of a LoginReq.
abbrev pub sent_login_req : LoginReq → LoginReq
sent_login_req p = record p {
  header = record (p.header) {
    op_code = op_login_req;
    final = p.transit;
    lun = p.isid ++ (p.tsih / 2 ^ 8 % 256) ∷ (p.tsih % 256) ∷ [];
  };
  payload = [];
}

-- TextReq
pub record TextReq : Type 0 where
  pub header : Header
  pub continue : Bool
  pub target_transfer_tag : ℕ
  pub cmd_sn : ℕ
  pub exp_stat_sn : ℕ
  pub payload : List ℕ

-- Every field of TextReq is within the width of its Go type and of its bits on the wire.
pub record IsValidTextReq (p : TextReq) : Type 0 where
  pub of_header : IsValidHeader p.header
  pub of_target_transfer_tag : p.target_transfer_tag < 2 ^ 32
  pub of_cmd_sn : p.cmd_sn < 2 ^ 32
  pub of_exp_stat_sn : p.exp_stat_sn < 2 ^ 32

unfoldable pub marshal_text_req : TextReq → Result (List ℕ)
unfolding marshal_header
marshal_text_req p = do
  b0 ← marshal_header (record (p.header) { op_code = op_text_req }) (zeros bhs_length)
  let b1 = or_flag 1 0x40 p.continue b0
  let b2 = put32 20 p.target_transfer_tag b1
  let b3 = put32 24 p.cmd_sn b2
  let b4 = put32 28 p.exp_stat_sn b3
  ok b4

unfoldable pub unmarshal_text_req : List ℕ → TextReq
unfolding unmarshal_header
unmarshal_text_req b = record {
  header = unmarshal_header b;
  continue = has_flag (byte_at b 1) 0x40;
  target_transfer_tag = get32 20 b;
  cmd_sn = get32 24 b;
  exp_stat_sn = get32 28 b;
  payload = [];
}

-- What the wire keeps of a TextReq.
abbrev pub sent_text_req : TextReq → TextReq
sent_text_req p = record p { header = record (p.header) { op_code = op_text_req }; payload = [] }

-- LogoutReq
pub record LogoutReq : Type 0 where
  pub header : Header
  pub reason_code : ℕ
  pub cid : ℕ
  pub cmd_sn : ℕ
  pub exp_stat_sn : ℕ

-- Every field of LogoutReq is within the width of its Go type and of its bits on the wire.
pub record IsValidLogoutReq (p : LogoutReq) : Type 0 where
  pub of_header : IsValidHeader p.header
  pub of_reason_code : p.reason_code < 128
  pub of_cid : p.cid < 2 ^ 16
  pub of_cmd_sn : p.cmd_sn < 2 ^ 32
  pub of_exp_stat_sn : p.exp_stat_sn < 2 ^ 32

unfoldable pub marshal_logout_req : LogoutReq → Result (List ℕ)
unfolding marshal_header
marshal_logout_req p = do
  b0 ← marshal_header (record (p.header) { op_code = op_logout_req }) (zeros bhs_length)
  let b1 = or_byte 1 (bit_and p.reason_code 0x7f) b0
  let b2 = put16 20 p.cid b1
  let b3 = put32 24 p.cmd_sn b2
  let b4 = put32 28 p.exp_stat_sn b3
  ok b4

unfoldable pub unmarshal_logout_req : List ℕ → LogoutReq
unfolding unmarshal_header
unmarshal_logout_req b = record {
  header = unmarshal_header b;
  reason_code = bit_and (byte_at b 1) 0x7f;
  cid = get16 20 b;
  cmd_sn = get32 24 b;
  exp_stat_sn = get32 28 b;
}

-- What the wire keeps of a LogoutReq.
abbrev pub sent_logout_req : LogoutReq → LogoutReq
sent_logout_req p = record p { header = record (p.header) { op_code = op_logout_req } }
