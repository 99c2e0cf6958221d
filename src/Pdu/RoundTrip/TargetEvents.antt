-- ===== src/Pdu/RoundTrip/TargetEvents.antt =====
-- internal/pdu/target.go: decoding what MarshalBHS wrote, for AsyncMsg, Reject.
use uiscsi.Common.{◌≡◌, arith}
use uiscsi.Common.Bytes.{join16-put, join24-put, join32-put, firsts-all}
use uiscsi.Pdu.Header.{ok, ◌>>=◌}
use uiscsi.Pdu.Opcode.{op_async_msg, op_reject}
use uiscsi.Pdu.RoundTrip.Headers.{fits24, opcode_lem, immediate_lem, final_flag}
use uiscsi.Pdu.Target.Events.{
  AsyncMsg, IsValidAsyncMsg, marshal_async_msg, unmarshal_async_msg, sent_async_msg, Reject,
  IsValidReject, marshal_reject, unmarshal_reject, sent_reject,
}
use uiscsi.Pdu.Codec.{async_msg, reject, decode_bhs}

pub async_msg_round_trip :
    (p : AsyncMsg)
    → IsValidAsyncMsg p
    → (marshal_async_msg p >>= decode_bhs) ≡ ok (async_msg (sent_async_msg p))
unfolding marshal_async_msg unmarshal_async_msg decode_bhs
async_msg_round_trip p v = rw (
  fits24 _ v.of_header.length_fits,
  opcode_lem op_async_msg p.header.immediate (omega arith),
  immediate_lem op_async_msg p.header.immediate (omega arith),
  final_flag,
  join24-put _ v.of_header.length_fits,
  firsts-all 8 _ v.of_header.lun_array,
  join32-put _ v.of_header.tag_word,
  join32-put _ v.of_stat_sn,
  join32-put _ v.of_exp_cmd_sn,
  join32-put _ v.of_max_cmd_sn,
  join16-put _ v.of_parameter1,
  join16-put _ v.of_parameter2,
  join16-put _ v.of_parameter3,
)

pub reject_round_trip :
    (p : Reject) → IsValidReject p → (marshal_reject p >>= decode_bhs) ≡ ok (reject (sent_reject p))
unfolding marshal_reject unmarshal_reject decode_bhs
reject_round_trip p v = rw (
  fits24 _ v.of_header.length_fits,
  opcode_lem op_reject p.header.immediate (omega arith),
  immediate_lem op_reject p.header.immediate (omega arith),
  final_flag,
  join24-put _ v.of_header.length_fits,
  firsts-all 8 _ v.of_header.lun_array,
  join32-put _ v.of_header.tag_word,
  join32-put _ v.of_stat_sn,
  join32-put _ v.of_exp_cmd_sn,
  join32-put _ v.of_max_cmd_sn,
  join32-put _ v.of_data_sn,
)
