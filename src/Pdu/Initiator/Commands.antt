-- ===== src/Pdu/Initiator/Commands.antt =====
-- internal/pdu/initiator.go: NOPOut, SCSICommand, TaskMgmtReq.
-- A BHS is written field by field in the order of MarshalBHS.
use uiscsi.Common.{ℕ, ◌^◌, ◌<◌, ◌≡◌, Bool, List, [], bit_and, length}
use uiscsi.Common.Bits.{has_flag}
use uiscsi.Common.Bytes.{byte_at, or_flag, or_byte, put32, get32, put_array, get_array, zeros}
use uiscsi.Pdu.Header.{
  Header, IsValidHeader, Result, ok, ◌>>=◌, marshal_header, unmarshal_header, bhs_length,
}
use uiscsi.Pdu.Opcode.{op_nop_out, op_scsi_command, op_task_mgmt_req}

-- NOPOut
pub record NopOut : Type 0 where
  pub header : Header
  pub target_transfer_tag : ℕ
  pub cmd_sn : ℕ
  pub exp_stat_sn : ℕ
  pub payload : List ℕ

-- Every field of NOPOut is within the width of its Go type and of its bits on the wire.
pub record IsValidNopOut (p : NopOut) : Type 0 where
  pub of_header : IsValidHeader p.header
  pub of_target_transfer_tag : p.target_transfer_tag < 2 ^ 32
  pub of_cmd_sn : p.cmd_sn < 2 ^ 32
  pub of_exp_stat_sn : p.exp_stat_sn < 2 ^ 32

unfoldable pub marshal_nop_out : NopOut → Result (List ℕ)
unfolding marshal_header
marshal_nop_out p = do
  b0 ← marshal_header (record (p.header) { op_code = op_nop_out }) (zeros bhs_length)
  let b1 = put32 20 p.target_transfer_tag b0
  let b2 = put32 24 p.cmd_sn b1
  let b3 = put32 28 p.exp_stat_sn b2
  ok b3

unfoldable pub unmarshal_nop_out : List ℕ → NopOut
unfolding unmarshal_header
unmarshal_nop_out b = record {
  header = unmarshal_header b;
  target_transfer_tag = get32 20 b;
  cmd_sn = get32 24 b;
  exp_stat_sn = get32 28 b;
  payload = [];
}

-- What the wire keeps of a NOPOut.
abbrev pub sent_nop_out : NopOut → NopOut
sent_nop_out p = record p { header = record (p.header) { op_code = op_nop_out }; payload = [] }

-- SCSICommand
pub record ScsiCommand : Type 0 where
  pub header : Header
  pub read : Bool
  pub write : Bool
  pub attr : ℕ
  pub expected_data_transfer_length : ℕ
  pub cmd_sn : ℕ
  pub exp_stat_sn : ℕ
  pub cdb : List ℕ
  pub immediate_data : List ℕ

-- Every field of SCSICommand is within the width of its Go type and of its bits on the wire.
pub record IsValidScsiCommand (p : ScsiCommand) : Type 0 where
  pub of_header : IsValidHeader p.header
  pub of_attr : p.attr < 8
  pub of_expected_data_transfer_length : p.expected_data_transfer_length < 2 ^ 32
  pub of_cmd_sn : p.cmd_sn < 2 ^ 32
  pub of_exp_stat_sn : p.exp_stat_sn < 2 ^ 32
  pub of_cdb : length p.cdb ≡ 16

unfoldable pub marshal_scsi_command : ScsiCommand → Result (List ℕ)
unfolding marshal_header
marshal_scsi_command p = do
  b0 ← marshal_header (record (p.header) { op_code = op_scsi_command }) (zeros bhs_length)
  let b1 = or_flag 1 0x40 p.read b0
  let b2 = or_flag 1 0x20 p.write b1
  let b3 = or_byte 1 (bit_and p.attr 0x07) b2
  let b4 = put32 20 p.expected_data_transfer_length b3
  let b5 = put32 24 p.cmd_sn b4
  let b6 = put32 28 p.exp_stat_sn b5
  let b7 = put_array 32 16 p.cdb b6
  ok b7

unfoldable pub unmarshal_scsi_command : List ℕ → ScsiCommand
unfolding unmarshal_header
unmarshal_scsi_command b = record {
  header = unmarshal_header b;
  read = has_flag (byte_at b 1) 0x40;
  write = has_flag (byte_at b 1) 0x20;
  attr = bit_and (byte_at b 1) 0x07;
  expected_data_transfer_length = get32 20 b;
  cmd_sn = get32 24 b;
  exp_stat_sn = get32 28 b;
  cdb = get_array 32 16 b;
  immediate_data = [];
}

-- What the wire keeps of a SCSICommand.
abbrev pub sent_scsi_command : ScsiCommand → ScsiCommand
sent_scsi_command p = record p {
  header = record (p.header) { op_code = op_scsi_command };
  immediate_data = [];
}

-- TaskMgmtReq
pub record TaskMgmtReq : Type 0 where
  pub header : Header
  pub function : ℕ
  pub referenced_task_tag : ℕ
  pub cmd_sn : ℕ
  pub exp_stat_sn : ℕ
  pub ref_cmd_sn : ℕ

-- Every field of TaskMgmtReq is within the width of its Go type and of its bits on the wire.
pub record IsValidTaskMgmtReq (p : TaskMgmtReq) : Type 0 where
  pub of_header : IsValidHeader p.header
  pub of_function : p.function < 128
  pub of_referenced_task_tag : p.referenced_task_tag < 2 ^ 32
  pub of_cmd_sn : p.cmd_sn < 2 ^ 32
  pub of_exp_stat_sn : p.exp_stat_sn < 2 ^ 32
  pub of_ref_cmd_sn : p.ref_cmd_sn < 2 ^ 32

unfoldable pub marshal_task_mgmt_req : TaskMgmtReq → Result (List ℕ)
unfolding marshal_header
marshal_task_mgmt_req p = do
  b0 ← marshal_header (record (p.header) { op_code = op_task_mgmt_req }) (zeros bhs_length)
  let b1 = or_byte 1 (bit_and p.function 0x7f) b0
  let b2 = put32 20 p.referenced_task_tag b1
  let b3 = put32 24 p.cmd_sn b2
  let b4 = put32 28 p.exp_stat_sn b3
  let b5 = put32 32 p.ref_cmd_sn b4
  ok b5

unfoldable pub unmarshal_task_mgmt_req : List ℕ → TaskMgmtReq
unfolding unmarshal_header
unmarshal_task_mgmt_req b = record {
  header = unmarshal_header b;
  function = bit_and (byte_at b 1) 0x7f;
  referenced_task_tag = get32 20 b;
  cmd_sn = get32 24 b;
  exp_stat_sn = get32 28 b;
  ref_cmd_sn = get32 32 b;
}

-- What the wire keeps of a TaskMgmtReq.
abbrev pub sent_task_mgmt_req : TaskMgmtReq → TaskMgmtReq
sent_task_mgmt_req p = record p { header = record (p.header) { op_code = op_task_mgmt_req } }
