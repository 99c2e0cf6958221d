-- ===== src/Pdu/RoundTrip/InitiatorCommands.antt =====
-- internal/pdu/initiator.go: decoding what MarshalBHS wrote, for NOPOut, SCSICommand, TaskMgmtReq.
use uiscsi.Common.{ℕ, ◌<◌, ◌≡◌, refl, Bool, true, ◌==◌, ==_iff, [], ◌∷◌, bit_and, bit_or, arith}
use uiscsi.Common.Bits.{
  with_flag, has_flag, each_below, each_below_lem, all_flags, all_flags_sound, same, same→eq,
  all_true, all_true_sound,
}
use uiscsi.Common.Bytes.{join24-put, join32-put, firsts-all}
use uiscsi.Pdu.Header.{ok, ◌>>=◌}
use uiscsi.Pdu.Opcode.{op_nop_out, op_scsi_command, op_task_mgmt_req}
use uiscsi.Pdu.RoundTrip.Headers.{fits24, opcode_lem, immediate_lem, final_flag}
use uiscsi.Pdu.Initiator.Commands.{
  NopOut, IsValidNopOut, marshal_nop_out, unmarshal_nop_out, sent_nop_out, ScsiCommand,
  IsValidScsiCommand, marshal_scsi_command, unmarshal_scsi_command, sent_scsi_command, TaskMgmtReq,
  IsValidTaskMgmtReq, marshal_task_mgmt_req, unmarshal_task_mgmt_req, sent_task_mgmt_req,
}
use uiscsi.Pdu.Codec.{nop_out, scsi_command, task_mgmt_req, decode_bhs}

pub nop_out_round_trip :
    (p : NopOut)
    → IsValidNopOut p
    → (marshal_nop_out p >>= decode_bhs) ≡ ok (nop_out (sent_nop_out p))
unfolding marshal_nop_out unmarshal_nop_out decode_bhs
nop_out_round_trip p v = rw (
  fits24 _ v.of_header.length_fits,
  opcode_lem op_nop_out p.header.immediate (omega arith),
  immediate_lem op_nop_out p.header.immediate (omega arith),
  final_flag,
  join24-put _ v.of_header.length_fits,
  firsts-all 8 _ v.of_header.lun_array,
  join32-put _ v.of_header.tag_word,
  join32-put _ v.of_target_transfer_tag,
  join32-put _ v.of_cmd_sn,
  join32-put _ v.of_exp_stat_sn,
)

abbrev scsi_command_flags : Bool → Bool → Bool → ℕ → ℕ
scsi_command_flags final read write attr =
    bit_or (with_flag write 0x20 (with_flag read 0x40 (with_flag final 0x80 0))) (bit_and attr 0x07)

scsi_command_flags_table :
    all_flags (λ final. all_flags (λ read. all_flags (λ write. each_below 8 (λ attr. all_true (
      same (has_flag (scsi_command_flags final read write attr) 0x80) final
      ∷ same (has_flag (scsi_command_flags final read write attr) 0x40) read
      ∷ same (has_flag (scsi_command_flags final read write attr) 0x20) write
      ∷ (bit_and (scsi_command_flags final read write attr) 0x07 == attr)
      ∷ [])))))
    ≡ true
unfolding all_flags each_below all_true
scsi_command_flags_table = refl

scsi_command_flags_lem :
    (final : Bool) (read : Bool) (write : Bool) (attr : ℕ)
    → attr < 8
    → (has_flag (scsi_command_flags final read write attr) 0x80 ≡ final)
      × (has_flag (scsi_command_flags final read write attr) 0x40 ≡ read)
      × (has_flag (scsi_command_flags final read write attr) 0x20 ≡ write)
      × (bit_and (scsi_command_flags final read write attr) 0x07 ≡ attr)
scsi_command_flags_lem final read write attr h_attr =
    let all = all_true_sound _ (
      each_below_lem 8 _ attr
        (all_flags_sound _ write
          (all_flags_sound _ read (all_flags_sound _ final scsi_command_flags_table)))
        h_attr) in
    (
      same→eq _ _ (all.0),
      same→eq _ _ (all.1.0),
      same→eq _ _ (all.1.1.0),
      (==_iff _ _).0 (all.1.1.1.0),
    )

pub scsi_command_round_trip :
    (p : ScsiCommand)
    → IsValidScsiCommand p
    → (marshal_scsi_command p >>= decode_bhs) ≡ ok (scsi_command (sent_scsi_command p))
unfolding marshal_scsi_command unmarshal_scsi_command decode_bhs
scsi_command_round_trip p v =
    let fl = scsi_command_flags_lem p.header.final p.read p.write p.attr v.of_attr in
    rw (
      fits24 _ v.of_header.length_fits,
      opcode_lem op_scsi_command p.header.immediate (omega arith),
      immediate_lem op_scsi_command p.header.immediate (omega arith),
      fl.0,
      fl.1,
      fl.2,
      fl.3,
      join24-put _ v.of_header.length_fits,
      firsts-all 8 _ v.of_header.lun_array,
      join32-put _ v.of_header.tag_word,
      join32-put _ v.of_expected_data_transfer_length,
      join32-put _ v.of_cmd_sn,
      join32-put _ v.of_exp_stat_sn,
      firsts-all 16 _ v.of_cdb,
    )

abbrev task_mgmt_req_flags : Bool → ℕ → ℕ
task_mgmt_req_flags final function = bit_or (with_flag final 0x80 0) (bit_and function 0x7f)

task_mgmt_req_flags_table :
    all_flags (λ final. each_below 128 (λ function. all_true (
      same (has_flag (task_mgmt_req_flags final function) 0x80) final
      ∷ (bit_and (task_mgmt_req_flags final function) 0x7f == function)
      ∷ [])))
    ≡ true
unfolding all_flags each_below all_true
task_mgmt_req_flags_table = refl

task_mgmt_req_flags_lem :
    (final : Bool) (function : ℕ)
    → function < 128
    → (has_flag (task_mgmt_req_flags final function) 0x80 ≡ final)
      × (bit_and (task_mgmt_req_flags final function) 0x7f ≡ function)
task_mgmt_req_flags_lem final function h_function =
    let all = all_true_sound _ (
      each_below_lem 128 _ function (all_flags_sound _ final task_mgmt_req_flags_table)
        h_function) in
    (same→eq _ _ (all.0), (==_iff _ _).0 (all.1.0))

pub task_mgmt_req_round_trip :
    (p : TaskMgmtReq)
    → IsValidTaskMgmtReq p
    → (marshal_task_mgmt_req p >>= decode_bhs) ≡ ok (task_mgmt_req (sent_task_mgmt_req p))
unfolding marshal_task_mgmt_req unmarshal_task_mgmt_req decode_bhs
task_mgmt_req_round_trip p v =
    let fl = task_mgmt_req_flags_lem p.header.final p.function v.of_function in
    rw (
      fits24 _ v.of_header.length_fits,
      opcode_lem op_task_mgmt_req p.header.immediate (omega arith),
      immediate_lem op_task_mgmt_req p.header.immediate (omega arith),
      fl.0,
      fl.1,
      join24-put _ v.of_header.length_fits,
      firsts-all 8 _ v.of_header.lun_array,
      join32-put _ v.of_header.tag_word,
      join32-put _ v.of_referenced_task_tag,
      join32-put _ v.of_cmd_sn,
      join32-put _ v.of_exp_stat_sn,
      join32-put _ v.of_ref_cmd_sn,
    )
