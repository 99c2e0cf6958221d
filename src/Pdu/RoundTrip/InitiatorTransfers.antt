-- ===== src/Pdu/RoundTrip/InitiatorTransfers.antt =====
-- internal/pdu/initiator.go: decoding what MarshalBHS wrote, for DataOut, SNACKReq.
use uiscsi.Common.{ℕ, ◌<◌, ◌≡◌, refl, Bool, true, ◌==◌, ==_iff, [], ◌∷◌, bit_and, bit_or, arith}
use uiscsi.Common.Bits.{
  with_flag, has_flag, each_below, each_below_lem, all_flags, all_flags_sound, same, same→eq,
  all_true, all_true_sound,
}
use uiscsi.Common.Bytes.{join24-put, join32-put, firsts-all}
use uiscsi.Pdu.Header.{ok, ◌>>=◌}
use uiscsi.Pdu.Opcode.{op_data_out, op_snack_req}
use uiscsi.Pdu.RoundTrip.Headers.{fits24, opcode_lem, immediate_lem, final_flag}
use uiscsi.Pdu.Initiator.Transfers.{
  DataOut, IsValidDataOut, marshal_data_out, unmarshal_data_out, sent_data_out, SnackReq,
  IsValidSnackReq, marshal_snack_req, unmarshal_snack_req, sent_snack_req,
}
use uiscsi.Pdu.Codec.{data_out, snack_req, decode_bhs}

pub data_out_round_trip :
    (p : DataOut)
    → IsValidDataOut p
    → (marshal_data_out p >>= decode_bhs) ≡ ok (data_out (sent_data_out p))
unfolding marshal_data_out unmarshal_data_out decode_bhs
data_out_round_trip p v = rw (
  fits24 _ v.of_header.length_fits,
  opcode_lem op_data_out p.header.immediate (omega arith),
  immediate_lem op_data_out p.header.immediate (omega arith),
  final_flag,
  join24-put _ v.of_header.length_fits,
  firsts-all 8 _ v.of_header.lun_array,
  join32-put _ v.of_header.tag_word,
  join32-put _ v.of_target_transfer_tag,
  join32-put _ v.of_exp_stat_sn,
  join32-put _ v.of_data_sn,
  join32-put _ v.of_buffer_offset,
)

abbrev snack_req_flags : Bool → ℕ → ℕ
snack_req_flags final type = bit_or (with_flag final 0x80 0) (bit_and type 0x0f)

snack_req_flags_table :
    all_flags (λ final. each_below 16 (λ type. all_true (
      same (has_flag (snack_req_flags final type) 0x80) final
      ∷ (bit_and (snack_req_flags final type) 0x0f == type)
      ∷ [])))
    ≡ true
unfolding all_flags each_below all_true
snack_req_flags_table = refl

snack_req_flags_lem :
    (final : Bool) (type : ℕ)
    → type < 16
    → (has_flag (snack_req_flags final type) 0x80 ≡ final)
      × (bit_and (snack_req_flags final type) 0x0f ≡ type)
snack_req_flags_lem final type h_type =
    let all =
      all_true_sound _
        (each_below_lem 16 _ type (all_flags_sound _ final snack_req_flags_table) h_type) in
    (same→eq _ _ (all.0), (==_iff _ _).0 (all.1.0))

pub snack_req_round_trip :
    (p : SnackReq)
    → IsValidSnackReq p
    → (marshal_snack_req p >>= decode_bhs) ≡ ok (snack_req (sent_snack_req p))
unfolding marshal_snack_req unmarshal_snack_req decode_bhs
snack_req_round_trip p v =
    let fl = snack_req_flags_lem p.header.final p.type v.of_type in
    rw (
      fits24 _ v.of_header.length_fits,
      opcode_lem op_snack_req p.header.immediate (omega arith),
      immediate_lem op_snack_req p.header.immediate (omega arith),
      fl.0,
      fl.1,
      join24-put _ v.of_header.length_fits,
      firsts-all 8 _ v.of_header.lun_array,
      join32-put _ v.of_header.tag_word,
      join32-put _ v.of_target_transfer_tag,
      join32-put _ v.of_exp_stat_sn,
      join32-put _ v.of_beg_run,
      join32-put _ v.of_run_length,
    )
