-- ===== src/Session/Command.antt =====
-- internal/session/types.go: Command; session.go: buildSCSICommandPDU and the reading of immediate
-- data.
use uiscsi.Common.{
  ℕ, Bool, true, false, ◌&&◌, Option, some, none, List, length, take, drop, ltb, ◌==◌,
  if◌then◌else◌,
}
use uiscsi.Pdu.Header.{Result, ok, err, encode_sam_lun}
use uiscsi.Pdu.Initiator.Commands.{ScsiCommand, marshal_scsi_command}
use uiscsi.Transport.Framer.{RawPdu}
use uiscsi.Session.DataOut.{raw_of}

-- An io.Reader with all its bytes, those that it still delivers, and whether it is an io.Seeker.
pub record Reader : Type 0 where
  pub whole : List ℕ
  pub rest : List ℕ
  pub seekable : Bool

-- `source` is Data.
pub record Command : Type 0 where
  pub cdb : List ℕ
  pub read : Bool
  pub write : Bool
  pub expected_data_transfer_len : ℕ
  pub lun : ℕ
  pub task_attributes : ℕ
  pub source : Option Reader

abbrev pub command_of :
    Command → (itt cmd_sn exp_stat_sn : ℕ) → (immediate_data lun : List ℕ) → ScsiCommand
command_of cmd itt cmd_sn exp_stat_sn immediate_data lun = record {
  header = record {
    immediate = false;
    op_code = 0;
    final = true;
    total_ahs_length = 0;
    data_segment_len = length immediate_data;
    lun = lun;
    initiator_task_tag = itt;
  };
  read = cmd.read;
  write = cmd.write;
  attr = cmd.task_attributes;
  expected_data_transfer_length = cmd.expected_data_transfer_len;
  cmd_sn = cmd_sn;
  exp_stat_sn = exp_stat_sn;
  cdb = cmd.cdb;
  immediate_data = immediate_data;
}

abbrev pub raw_command : Result (List ℕ) → List ℕ → Result RawPdu
raw_command (err e) immediate_data = err e
raw_command (ok bhs) immediate_data = ok (raw_of bhs immediate_data)

-- `none` is the panic of EncodeSAMLUN.
unfoldable pub build_scsi_command_pdu :
    Command → (itt cmd_sn exp_stat_sn : ℕ) → List ℕ → Option (Result RawPdu)
build_scsi_command_pdu cmd itt cmd_sn exp_stat_sn immediate_data = elim (encode_sam_lun cmd.lun) [
  | none ↦ none
  | some lun ↦ some (
      raw_command (marshal_scsi_command (command_of cmd itt cmd_sn exp_stat_sn immediate_data lun))
        immediate_data)
]

-- io.ReadFull of `n` bytes where an unexpected end is no error; `none` is io.EOF.
unfoldable pub read_immediate : ℕ → Reader → Option (List ℕ × Reader)
read_immediate n r =
    if ltb 0 n && length r.rest == 0
    then none
    else some (take n r.rest, record r { rest = drop n r.rest })
