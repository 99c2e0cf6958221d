-- ===== src/Pdu/RoundTrip/TargetCommands.antt =====
-- internal/pdu/target.go: decoding what MarshalBHS wrote, for NOPIn, SCSIResponse, TaskMgmtResp.
use uiscsi.Common.{ℕ, ◌≡◌, refl, Bool, true, [], ◌∷◌, arith}
use uiscsi.Common.Bits.{
  with_flag, has_flag, each_below, all_flags, all_flags_sound, same, same→eq, all_true,
  all_true_sound,
}
use uiscsi.Common.Bytes.{join24-put, join32-put, firsts-all}
use uiscsi.Pdu.Header.{ok, ◌>>=◌}
use uiscsi.Pdu.Opcode.{op_nop_in, op_scsi_response, op_task_mgmt_resp}
use uiscsi.Pdu.RoundTrip.Headers.{fits24, opcode_lem, immediate_lem, final_flag}
use uiscsi.Pdu.Target.Commands.{
  NopIn, IsValidNopIn, marshal_nop_in, unmarshal_nop_in, sent_nop_in, ScsiResponse,
  IsValidScsiResponse, marshal_scsi_response, unmarshal_scsi_response, sent_scsi_response,
  TaskMgmtResp, IsValidTaskMgmtResp, marshal_task_mgmt_resp, unmarshal_task_mgmt_resp,
  sent_task_mgmt_resp,
}
use uiscsi.Pdu.Codec.{nop_in, scsi_response, task_mgmt_resp, decode_bhs}

pub nop_in_round_trip :
    (p : NopIn) → IsValidNopIn p → (marshal_nop_in p >>= decode_bhs) ≡ ok (nop_in (sent_nop_in p))
unfolding marshal_nop_in unmarshal_nop_in decode_bhs
nop_in_round_trip p v = rw (
  fits24 _ v.of_header.length_fits,
  opcode_lem op_nop_in p.header.immediate (omega arith),
  immediate_lem op_nop_in p.header.immediate (omega arith),
  final_flag,
  join24-put _ v.of_header.length_fits,
  firsts-all 8 _ v.of_header.lun_array,
  join32-put _ v.of_header.tag_word,
  join32-put _ v.of_target_transfer_tag,
  join32-put _ v.of_stat_sn,
  join32-put _ v.of_exp_cmd_sn,
  join32-put _ v.of_max_cmd_sn,
)

abbrev scsi_response_flags : Bool → Bool → Bool → Bool → Bool → ℕ
scsi_response_flags final bidi_overflow bidi_underflow overflow underflow =
    with_flag underflow 0x02 (
      with_flag overflow 0x04
        (with_flag bidi_underflow 0x08 (with_flag bidi_overflow 0x10 (with_flag final 0x80 0))))

scsi_response_flags_table :
    all_flags (λ final. all_flags (λ bidi_overflow. all_flags (λ bidi_underflow.
      all_flags (λ overflow. all_flags (λ underflow. all_true (
        same
          (has_flag
            (scsi_response_flags final bidi_overflow bidi_underflow overflow underflow)
            0x80)
          final
        ∷ same
            (has_flag
              (scsi_response_flags final bidi_overflow bidi_underflow overflow underflow)
              0x10)
            bidi_overflow
        ∷ same
            (has_flag
              (scsi_response_flags final bidi_overflow bidi_underflow overflow underflow)
              0x08)
            bidi_underflow
        ∷ same
            (has_flag
              (scsi_response_flags final bidi_overflow bidi_underflow overflow underflow)
              0x04)
            overflow
        ∷ same
            (has_flag
              (scsi_response_flags final bidi_overflow bidi_underflow overflow underflow)
              0x02)
            underflow
        ∷ []))))))
    ≡ true
unfolding all_flags each_below all_true
scsi_response_flags_table = refl

scsi_response_flags_lem :
    (final : Bool) (bidi_overflow : Bool) (bidi_underflow : Bool) (overflow : Bool)
    (underflow : Bool)
    → (has_flag (scsi_response_flags final bidi_overflow bidi_underflow overflow underflow) 0x80
        ≡ final)
      × (has_flag (scsi_response_flags final bidi_overflow bidi_underflow overflow underflow) 0x10
          ≡ bidi_overflow)
      × (has_flag (scsi_response_flags final bidi_overflow bidi_underflow overflow underflow) 0x08
          ≡ bidi_underflow)
      × (has_flag (scsi_response_flags final bidi_overflow bidi_underflow overflow underflow) 0x04
          ≡ overflow)
      × (has_flag (scsi_response_flags final bidi_overflow bidi_underflow overflow underflow) 0x02
          ≡ underflow)
scsi_response_flags_lem final bidi_overflow bidi_underflow overflow underflow =
    let all = all_true_sound _ (
      all_flags_sound _ underflow (
        all_flags_sound _ overflow (
          all_flags_sound _ bidi_underflow (
            all_flags_sound _ bidi_overflow
              (all_flags_sound _ final scsi_response_flags_table))))) in
    (
      same→eq _ _ (all.0),
      same→eq _ _ (all.1.0),
      same→eq _ _ (all.1.1.0),
      same→eq _ _ (all.1.1.1.0),
      same→eq _ _ (all.1.1.1.1.0),
    )

pub scsi_response_round_trip :
    (p : ScsiResponse)
    → IsValidScsiResponse p
    → (marshal_scsi_response p >>= decode_bhs) ≡ ok (scsi_response (sent_scsi_response p))
unfolding marshal_scsi_response unmarshal_scsi_response decode_bhs
scsi_response_round_trip p v =
    let fl =
      scsi_response_flags_lem p.header.final p.bidi_overflow p.bidi_underflow p.overflow
        p.underflow in
    rw (
      fits24 _ v.of_header.length_fits,
      opcode_lem op_scsi_response p.header.immediate (omega arith),
      immediate_lem op_scsi_response p.header.immediate (omega arith),
      fl.0,
      fl.1,
      fl.2,
      fl.3,
      fl.4,
      join24-put _ v.of_header.length_fits,
      firsts-all 8 _ v.of_header.lun_array,
      join32-put _ v.of_header.tag_word,
      join32-put _ v.of_snack_tag,
      join32-put _ v.of_stat_sn,
      join32-put _ v.of_exp_cmd_sn,
      join32-put _ v.of_max_cmd_sn,
      join32-put _ v.of_exp_data_sn,
      join32-put _ v.of_bidi_residual_count,
      join32-put _ v.of_residual_count,
    )

pub task_mgmt_resp_round_trip :
    (p : TaskMgmtResp)
    → IsValidTaskMgmtResp p
    → (marshal_task_mgmt_resp p >>= decode_bhs) ≡ ok (task_mgmt_resp (sent_task_mgmt_resp p))
unfolding marshal_task_mgmt_resp unmarshal_task_mgmt_resp decode_bhs
task_mgmt_resp_round_trip p v = rw (
  fits24 _ v.of_header.length_fits,
  opcode_lem op_task_mgmt_resp p.header.immediate (omega arith),
  immediate_lem op_task_mgmt_resp p.header.immediate (omega arith),
  final_flag,
  join24-put _ v.of_header.length_fits,
  firsts-all 8 _ v.of_header.lun_array,
  join32-put _ v.of_header.tag_word,
  join32-put _ v.of_stat_sn,
  join32-put _ v.of_exp_cmd_sn,
  join32-put _ v.of_max_cmd_sn,
)
