-- ===== src/Pdu/Target/Commands.antt =====
-- internal/pdu/target.go: NOPIn, SCSIResponse, TaskMgmtResp.
-- A BHS is written field by field in the order of MarshalBHS.
use uiscsi.Common.{ℕ, ◌^◌, ◌<◌, Bool, List, []}
use uiscsi.Common.Bits.{has_flag}
use uiscsi.Common.Bytes.{byte_at, or_flag, put8, put32, get32, zeros}
use uiscsi.Pdu.Header.{
  Header, IsValidHeader, Result, ok, ◌>>=◌, marshal_header, unmarshal_header, bhs_length,
}
use uiscsi.Pdu.Opcode.{op_nop_in, op_scsi_response, op_task_mgmt_resp}

-- NOPIn
pub record NopIn : Type 0 where
  pub header : Header
  pub target_transfer_tag : ℕ
  pub stat_sn : ℕ
  pub exp_cmd_sn : ℕ
  pub max_cmd_sn : ℕ
  pub payload : List ℕ

-- Every field of NOPIn is within the width of its Go type and of its bits on the wire.
pub record IsValidNopIn (p : NopIn) : Type 0 where
  pub of_header : IsValidHeader p.header
  pub of_target_transfer_tag : p.target_transfer_tag < 2 ^ 32
  pub of_stat_sn : p.stat_sn < 2 ^ 32
  pub of_exp_cmd_sn : p.exp_cmd_sn < 2 ^ 32
  pub of_max_cmd_sn : p.max_cmd_sn < 2 ^ 32

unfoldable pub marshal_nop_in : NopIn → Result (List ℕ)
unfolding marshal_header
marshal_nop_in p = do
  b0 ← marshal_header (record (p.header) { op_code = op_nop_in }) (zeros bhs_length)
  let b1 = put32 20 p.target_transfer_tag b0
  let b2 = put32 24 p.stat_sn b1
  let b3 = put32 28 p.exp_cmd_sn b2
  let b4 = put32 32 p.max_cmd_sn b3
  ok b4

unfoldable pub unmarshal_nop_in : List ℕ → NopIn
unfolding unmarshal_header
unmarshal_nop_in b = record {
  header = unmarshal_header b;
  target_transfer_tag = get32 20 b;
  stat_sn = get32 24 b;
  exp_cmd_sn = get32 28 b;
  max_cmd_sn = get32 32 b;
  payload = [];
}

-- What the wire keeps of a NOPIn.
abbrev pub sent_nop_in : NopIn → NopIn
sent_nop_in p = record p { header = record (p.header) { op_code = op_nop_in }; payload = [] }

-- SCSIResponse
pub record ScsiResponse : Type 0 where
  pub header : Header
  pub bidi_overflow : Bool
  pub bidi_underflow : Bool
  pub overflow : Bool
  pub underflow : Bool
  pub response : ℕ
  pub status : ℕ
  pub snack_tag : ℕ
  pub stat_sn : ℕ
  pub exp_cmd_sn : ℕ
  pub max_cmd_sn : ℕ
  pub exp_data_sn : ℕ
  pub bidi_residual_count : ℕ
  pub residual_count : ℕ
  pub payload : List ℕ

-- Every field of SCSIResponse is within the width of its Go type and of its bits on the wire.
pub record IsValidScsiResponse (p : ScsiResponse) : Type 0 where
  pub of_header : IsValidHeader p.header
  pub of_response : p.response < 2 ^ 8
  pub of_status : p.status < 2 ^ 8
  pub of_snack_tag : p.snack_tag < 2 ^ 32
  pub of_stat_sn : p.stat_sn < 2 ^ 32
  pub of_exp_cmd_sn : p.exp_cmd_sn < 2 ^ 32
  pub of_max_cmd_sn : p.max_cmd_sn < 2 ^ 32
  pub of_exp_data_sn : p.exp_data_sn < 2 ^ 32
  pub of_bidi_residual_count : p.bidi_residual_count < 2 ^ 32
  pub of_residual_count : p.residual_count < 2 ^ 32

unfoldable pub marshal_scsi_response : ScsiResponse → Result (List ℕ)
unfolding marshal_header
marshal_scsi_response p = do
  b0 ← marshal_header (record (p.header) { op_code = op_scsi_response }) (zeros bhs_length)
  let b1 = or_flag 1 0x10 p.bidi_overflow b0
  let b2 = or_flag 1 0x08 p.bidi_underflow b1
  let b3 = or_flag 1 0x04 p.overflow b2
  let b4 = or_flag 1 0x02 p.underflow b3
  let b5 = put8 2 p.response b4
  let b6 = put8 3 p.status b5
  let b7 = put32 20 p.snack_tag b6
  let b8 = put32 24 p.stat_sn b7
  let b9 = put32 28 p.exp_cmd_sn b8
  let b10 = put32 32 p.max_cmd_sn b9
  let b11 = put32 36 p.exp_data_sn b10
  let b12 = put32 40 p.bidi_residual_count b11
  let b13 = put32 44 p.residual_count b12
  ok b13

unfoldable pub unmarshal_scsi_response : List ℕ → ScsiResponse
unfolding unmarshal_header
unmarshal_scsi_response b = record {
  header = unmarshal_header b;
  bidi_overflow = has_flag (byte_at b 1) 0x10;
  bidi_underflow = has_flag (byte_at b 1) 0x08;
  overflow = has_flag (byte_at b 1) 0x04;
  underflow = has_flag (byte_at b 1) 0x02;
  response = byte_at b 2;
  status = byte_at b 3;
  snack_tag = get32 20 b;
  stat_sn = get32 24 b;
  exp_cmd_sn = get32 28 b;
  max_cmd_sn = get32 32 b;
  exp_data_sn = get32 36 b;
  bidi_residual_count = get32 40 b;
  residual_count = get32 44 b;
  payload = [];
}

-- What the wire keeps of a SCSIResponse.
abbrev pub sent_scsi_response : ScsiResponse → ScsiResponse
sent_scsi_response p = record p {
  header = record (p.header) { op_code = op_scsi_response };
  payload = [];
}

-- TaskMgmtResp
pub record TaskMgmtResp : Type 0 where
  pub header : Header
  pub response : ℕ
  pub stat_sn : ℕ
  pub exp_cmd_sn : ℕ
  pub max_cmd_sn : ℕ

-- Every field of TaskMgmtResp is within the width of its Go type and of its bits on the wire.
pub record IsValidTaskMgmtResp (p : TaskMgmtResp) : Type 0 where
  pub of_header : IsValidHeader p.header
  pub of_response : p.response < 2 ^ 8
  pub of_stat_sn : p.stat_sn < 2 ^ 32
  pub of_exp_cmd_sn : p.exp_cmd_sn < 2 ^ 32
  pub of_max_cmd_sn : p.max_cmd_sn < 2 ^ 32

unfoldable pub marshal_task_mgmt_resp : TaskMgmtResp → Result (List ℕ)
unfolding marshal_header
marshal_task_mgmt_resp p = do
  b0 ← marshal_header (record (p.header) { op_code = op_task_mgmt_resp }) (zeros bhs_length)
  let b1 = put8 2 p.response b0
  let b2 = put32 24 p.stat_sn b1
  let b3 = put32 28 p.exp_cmd_sn b2
  let b4 = put32 32 p.max_cmd_sn b3
  ok b4

unfoldable pub unmarshal_task_mgmt_resp : List ℕ → TaskMgmtResp
unfolding unmarshal_header
unmarshal_task_mgmt_resp b = record {
  header = unmarshal_header b;
  response = byte_at b 2;
  stat_sn = get32 24 b;
  exp_cmd_sn = get32 28 b;
  max_cmd_sn = get32 32 b;
}

-- What the wire keeps of a TaskMgmtResp.
abbrev pub sent_task_mgmt_resp : TaskMgmtResp → TaskMgmtResp
sent_task_mgmt_resp p = record p { header = record (p.header) { op_code = op_task_mgmt_resp } }
