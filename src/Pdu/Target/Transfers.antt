-- ===== src/Pdu/Target/Transfers.antt =====
-- internal/pdu/target.go: DataIn, R2T.
-- A BHS is written field by field in the order of MarshalBHS.
use uiscsi.Common.{ℕ, ◌^◌, ◌<◌, Bool, List, []}
use uiscsi.Common.Bits.{has_flag}
use uiscsi.Common.Bytes.{byte_at, or_flag, put8, put32, get32, zeros}
use uiscsi.Pdu.Header.{
  Header, IsValidHeader, Result, ok, ◌>>=◌, marshal_header, unmarshal_header, bhs_length,
}
use uiscsi.Pdu.Opcode.{op_data_in, op_r2t}

-- DataIn
pub record DataIn : Type 0 where
  pub header : Header
  pub acknowledge : Bool
  pub residual_overflow : Bool
  pub residual_underflow : Bool
  pub has_status : Bool
  pub status : ℕ
  pub target_transfer_tag : ℕ
  pub stat_sn : ℕ
  pub exp_cmd_sn : ℕ
  pub max_cmd_sn : ℕ
  pub data_sn : ℕ
  pub buffer_offset : ℕ
  pub residual_count : ℕ
  pub payload : List ℕ

-- Every field of DataIn is within the width of its Go type and of its bits on the wire.
pub record IsValidDataIn (p : DataIn) : Type 0 where
  pub of_header : IsValidHeader p.header
  pub of_status : p.status < 2 ^ 8
  pub of_target_transfer_tag : p.target_transfer_tag < 2 ^ 32
  pub of_stat_sn : p.stat_sn < 2 ^ 32
  pub of_exp_cmd_sn : p.exp_cmd_sn < 2 ^ 32
  pub of_max_cmd_sn : p.max_cmd_sn < 2 ^ 32
  pub of_data_sn : p.data_sn < 2 ^ 32
  pub of_buffer_offset : p.buffer_offset < 2 ^ 32
  pub of_residual_count : p.residual_count < 2 ^ 32

unfoldable pub marshal_data_in : DataIn → Result (List ℕ)
unfolding marshal_header
marshal_data_in p = do
  b0 ← marshal_header (record (p.header) { op_code = op_data_in }) (zeros bhs_length)
  let b1 = or_flag 1 0x40 p.acknowledge b0
  let b2 = or_flag 1 0x04 p.residual_overflow b1
  let b3 = or_flag 1 0x08 p.residual_underflow b2
  let b4 = or_flag 1 0x01 p.has_status b3
  let b5 = put8 3 p.status b4
  let b6 = put32 20 p.target_transfer_tag b5
  let b7 = put32 24 p.stat_sn b6
  let b8 = put32 28 p.exp_cmd_sn b7
  let b9 = put32 32 p.max_cmd_sn b8
  let b10 = put32 36 p.data_sn b9
  let b11 = put32 40 p.buffer_offset b10
  let b12 = put32 44 p.residual_count b11
  ok b12

unfoldable pub unmarshal_data_in : List ℕ → DataIn
unfolding unmarshal_header
unmarshal_data_in b = record {
  header = unmarshal_header b;
  acknowledge = has_flag (byte_at b 1) 0x40;
  residual_overflow = has_flag (byte_at b 1) 0x04;
  residual_underflow = has_flag (byte_at b 1) 0x08;
  has_status = has_flag (byte_at b 1) 0x01;
  status = byte_at b 3;
  target_transfer_tag = get32 20 b;
  stat_sn = get32 24 b;
  exp_cmd_sn = get32 28 b;
  max_cmd_sn = get32 32 b;
  data_sn = get32 36 b;
  buffer_offset = get32 40 b;
  residual_count = get32 44 b;
  payload = [];
}

-- What the wire keeps of a DataIn.
abbrev pub sent_data_in : DataIn → DataIn
sent_data_in p = record p { header = record (p.header) { op_code = op_data_in }; payload = [] }

-- R2T
pub record R2t : Type 0 where
  pub header : Header
  pub target_transfer_tag : ℕ
  pub stat_sn : ℕ
  pub exp_cmd_sn : ℕ
  pub max_cmd_sn : ℕ
  pub r2t_sn : ℕ
  pub buffer_offset : ℕ
  pub desired_data_transfer_length : ℕ

-- Every field of R2T is within the width of its Go type and of its bits on the wire.
pub record IsValidR2t (p : R2t) : Type 0 where
  pub of_header : IsValidHeader p.header
  pub of_target_transfer_tag : p.target_transfer_tag < 2 ^ 32
  pub of_stat_sn : p.stat_sn < 2 ^ 32
  pub of_exp_cmd_sn : p.exp_cmd_sn < 2 ^ 32
  pub of_max_cmd_sn : p.max_cmd_sn < 2 ^ 32
  pub of_r2t_sn : p.r2t_sn < 2 ^ 32
  pub of_buffer_offset : p.buffer_offset < 2 ^ 32
  pub of_desired_data_transfer_length : p.desired_data_transfer_length < 2 ^ 32

unfoldable pub marshal_r2t : R2t → Result (List ℕ)
unfolding marshal_header
marshal_r2t p = do
  b0 ← marshal_header (record (p.header) { op_code = op_r2t }) (zeros bhs_length)
  let b1 = put32 20 p.target_transfer_tag b0
  let b2 = put32 24 p.stat_sn b1
  let b3 = put32 28 p.exp_cmd_sn b2
  let b4 = put32 32 p.max_cmd_sn b3
  let b5 = put32 36 p.r2t_sn b4
  let b6 = put32 40 p.buffer_offset b5
  let b7 = put32 44 p.desired_data_transfer_length b6
  ok b7

unfoldable pub unmarshal_r2t : List ℕ → R2t
unfolding unmarshal_header
unmarshal_r2t b = record {
  header = unmarshal_header b;
  target_transfer_tag = get32 20 b;
  stat_sn = get32 24 b;
  exp_cmd_sn = get32 28 b;
  max_cmd_sn = get32 32 b;
  r2t_sn = get32 36 b;
  buffer_offset = get32 40 b;
  desired_data_transfer_length = get32 44 b;
}

-- What the wire keeps of a R2T.
abbrev pub sent_r2t : R2t → R2t
sent_r2t p = record p { header = record (p.header) { op_code = op_r2t } }
