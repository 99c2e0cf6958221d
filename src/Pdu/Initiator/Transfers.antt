-- ===== src/Pdu/Initiator/Transfers.antt =====
-- internal/pdu/initiator.go: DataOut, SNACKReq.
-- A BHS is written field by field in the order of MarshalBHS.
use uiscsi.Common.{ℕ, ◌^◌, ◌<◌, List, [], bit_and}
use uiscsi.Common.Bytes.{byte_at, or_byte, put32, get32, zeros}
use uiscsi.Pdu.Header.{
  Header, IsValidHeader, Result, ok, ◌>>=◌, marshal_header, unmarshal_header, bhs_length,
}
use uiscsi.Pdu.Opcode.{op_data_out, op_snack_req}

-- DataOut
pub record DataOut : Type 0 where
  pub header : Header
  pub target_transfer_tag : ℕ
  pub exp_stat_sn : ℕ
  pub data_sn : ℕ
  pub buffer_offset : ℕ
  pub payload : List ℕ

-- Every field of DataOut is within the width of its Go type and of its bits on the wire.
pub record IsValidDataOut (p : DataOut) : Type 0 where
  pub of_header : IsValidHeader p.header
  pub of_target_transfer_tag : p.target_transfer_tag < 2 ^ 32
  pub of_exp_stat_sn : p.exp_stat_sn < 2 ^ 32
  pub of_data_sn : p.data_sn < 2 ^ 32
  pub of_buffer_offset : p.buffer_offset < 2 ^ 32

unfoldable pub marshal_data_out : DataOut → Result (List ℕ)
unfolding marshal_header
marshal_data_out p = do
  b0 ← marshal_header (record (p.header) { op_code = op_data_out }) (zeros bhs_length)
  let b1 = put32 20 p.target_transfer_tag b0
  let b2 = put32 28 p.exp_stat_sn b1
  let b3 = put32 36 p.data_sn b2
  let b4 = put32 40 p.buffer_offset b3
  ok b4

unfoldable pub unmarshal_data_out : List ℕ → DataOut
unfolding unmarshal_header
unmarshal_data_out b = record {
  header = unmarshal_header b;
  target_transfer_tag = get32 20 b;
  exp_stat_sn = get32 28 b;
  data_sn = get32 36 b;
  buffer_offset = get32 40 b;
  payload = [];
}

-- What the wire keeps of a DataOut.
abbrev pub sent_data_out : DataOut → DataOut
sent_data_out p = record p { header = record (p.header) { op_code = op_data_out }; payload = [] }

-- SNACKReq
pub record SnackReq : Type 0 where
  pub header : Header
  pub type : ℕ
  pub target_transfer_tag : ℕ
  pub exp_stat_sn : ℕ
  pub beg_run : ℕ
  pub run_length : ℕ

-- Every field of SNACKReq is within the width of its Go type and of its bits on the wire.
pub record IsValidSnackReq (p : SnackReq) : Type 0 where
  pub of_header : IsValidHeader p.header
  pub of_type : p.type < 16
  pub of_target_transfer_tag : p.target_transfer_tag < 2 ^ 32
  pub of_exp_stat_sn : p.exp_stat_sn < 2 ^ 32
  pub of_beg_run : p.beg_run < 2 ^ 32
  pub of_run_length : p.run_length < 2 ^ 32

unfoldable pub marshal_snack_req : SnackReq → Result (List ℕ)
unfolding marshal_header
marshal_snack_req p = do
  b0 ← marshal_header (record (p.header) { op_code = op_snack_req }) (zeros bhs_length)
  let b1 = or_byte 1 (bit_and p.type 0x0f) b0
  let b2 = put32 20 p.target_transfer_tag b1
  let b3 = put32 28 p.exp_stat_sn b2
  let b4 = put32 40 p.beg_run b3
  let b5 = put32 44 p.run_length b4
  ok b5

unfoldable pub unmarshal_snack_req : List ℕ → SnackReq
unfolding unmarshal_header
unmarshal_snack_req b = record {
  header = unmarshal_header b;
  type = bit_and (byte_at b 1) 0x0f;
  target_transfer_tag = get32 20 b;
  exp_stat_sn = get32 28 b;
  beg_run = get32 40 b;
  run_length = get32 44 b;
}

-- What the wire keeps of a SNACKReq.
abbrev pub sent_snack_req : SnackReq → SnackReq
sent_snack_req p = record p { header = record (p.header) { op_code = op_snack_req } }
