-- ===== src/Pdu/RoundTrip/TargetTransfers.antt =====
-- internal/pdu/target.go: decoding what MarshalBHS wrote, for DataIn, R2T.
use uiscsi.Common.{ℕ, ◌≡◌, refl, Bool, true, [], ◌∷◌, arith}
use uiscsi.Common.Bits.{
  with_flag, has_flag, each_below, all_flags, all_flags_sound, same, same→eq, all_true,
  all_true_sound,
}
use uiscsi.Common.Bytes.{join24-put, join32-put, firsts-all}
use uiscsi.Pdu.Header.{ok, ◌>>=◌}
use uiscsi.Pdu.Opcode.{op_data_in, op_r2t}
use uiscsi.Pdu.RoundTrip.Headers.{fits24, opcode_lem, immediate_lem, final_flag}
use uiscsi.Pdu.Target.Transfers.{
  DataIn, IsValidDataIn, marshal_data_in, unmarshal_data_in, sent_data_in, R2t, IsValidR2t,
  marshal_r2t, unmarshal_r2t, sent_r2t,
}
use uiscsi.Pdu.Codec.{data_in, r2t, decode_bhs}

abbrev data_in_flags : Bool → Bool → Bool → Bool → Bool → ℕ
data_in_flags final acknowledge residual_overflow residual_underflow has_status =
    with_flag has_status 0x01 (
      with_flag residual_underflow 0x08
        (with_flag residual_overflow 0x04 (with_flag acknowledge 0x40 (with_flag final 0x80 0))))

data_in_flags_table :
    all_flags (λ final. all_flags (λ acknowledge. all_flags (λ residual_overflow.
      all_flags (λ residual_underflow. all_flags (λ has_status. all_true (
        same
          (has_flag
            (data_in_flags final acknowledge residual_overflow residual_underflow has_status)
            0x80)
          final
        ∷ same
            (has_flag
              (data_in_flags final acknowledge residual_overflow residual_underflow has_status)
              0x40)
            acknowledge
        ∷ same
            (has_flag
              (data_in_flags final acknowledge residual_overflow residual_underflow has_status)
              0x04)
            residual_overflow
        ∷ same
            (has_flag
              (data_in_flags final acknowledge residual_overflow residual_underflow has_status)
              0x08)
            residual_underflow
        ∷ same
            (has_flag
              (data_in_flags final acknowledge residual_overflow residual_underflow has_status)
              0x01)
            has_status
        ∷ []))))))
    ≡ true
unfolding all_flags each_below all_true
data_in_flags_table = refl

data_in_flags_lem :
    (final : Bool) (acknowledge : Bool) (residual_overflow : Bool) (residual_underflow : Bool)
    (has_status : Bool)
    → (has_flag
          (data_in_flags final acknowledge residual_overflow residual_underflow has_status)
          0x80
        ≡ final)
      × (has_flag
            (data_in_flags final acknowledge residual_overflow residual_underflow has_status)
            0x40
          ≡ acknowledge)
      × (has_flag
            (data_in_flags final acknowledge residual_overflow residual_underflow has_status)
            0x04
          ≡ residual_overflow)
      × (has_flag
            (data_in_flags final acknowledge residual_overflow residual_underflow has_status)
            0x08
          ≡ residual_underflow)
      × (has_flag
            (data_in_flags final acknowledge residual_overflow residual_underflow has_status)
            0x01
          ≡ has_status)
data_in_flags_lem final acknowledge residual_overflow residual_underflow has_status =
    let all = all_true_sound _ (
      all_flags_sound _ has_status (
        all_flags_sound _ residual_underflow (
          all_flags_sound _ residual_overflow
            (all_flags_sound _ acknowledge (all_flags_sound _ final data_in_flags_table))))) in
    (
      same→eq _ _ (all.0),
      same→eq _ _ (all.1.0),
      same→eq _ _ (all.1.1.0),
      same→eq _ _ (all.1.1.1.0),
      same→eq _ _ (all.1.1.1.1.0),
    )

pub data_in_round_trip :
    (p : DataIn)
    → IsValidDataIn p
    → (marshal_data_in p >>= decode_bhs) ≡ ok (data_in (sent_data_in p))
unfolding marshal_data_in unmarshal_data_in decode_bhs
data_in_round_trip p v =
    let fl =
      data_in_flags_lem p.header.final p.acknowledge p.residual_overflow p.residual_underflow
        p.has_status in
    rw (
      fits24 _ v.of_header.length_fits,
      opcode_lem op_data_in p.header.immediate (omega arith),
      immediate_lem op_data_in p.header.immediate (omega arith),
      fl.0,
      fl.1,
      fl.2,
      fl.3,
      fl.4,
      join24-put _ v.of_header.length_fits,
      firsts-all 8 _ v.of_header.lun_array,
      join32-put _ v.of_header.tag_word,
      join32-put _ v.of_target_transfer_tag,
      join32-put _ v.of_stat_sn,
      join32-put _ v.of_exp_cmd_sn,
      join32-put _ v.of_max_cmd_sn,
      join32-put _ v.of_data_sn,
      join32-put _ v.of_buffer_offset,
      join32-put _ v.of_residual_count,
    )

pub r2t_round_trip :
    (p : R2t) → IsValidR2t p → (marshal_r2t p >>= decode_bhs) ≡ ok (r2t (sent_r2t p))
unfolding marshal_r2t unmarshal_r2t decode_bhs
r2t_round_trip p v = rw (
  fits24 _ v.of_header.length_fits,
  opcode_lem op_r2t p.header.immediate (omega arith),
  immediate_lem op_r2t p.header.immediate (omega arith),
  final_flag,
  join24-put _ v.of_header.length_fits,
  firsts-all 8 _ v.of_header.lun_array,
  join32-put _ v.of_header.tag_word,
  join32-put _ v.of_target_transfer_tag,
  join32-put _ v.of_stat_sn,
  join32-put _ v.of_exp_cmd_sn,
  join32-put _ v.of_max_cmd_sn,
  join32-put _ v.of_r2t_sn,
  join32-put _ v.of_buffer_offset,
  join32-put _ v.of_desired_data_transfer_length,
)
