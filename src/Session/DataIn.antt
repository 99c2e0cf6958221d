-- ===== src/Session/DataIn.antt =====
-- internal/session/datain.go: what a task does with the PDUs that the target sends for it.
pub mod Reassembly
pub mod Tests
use uiscsi.Common.{
  ℕ, ◌-◌, Bool, true, Option, some, none, ◌&&◌, not, List, [], ◌∷◌, ◌++◌, take, drop, length, ltb,
  leb, ◌==◌, if◌then◌else◌,
}
use uiscsi.Common.Maps.{put_key}
use uiscsi.Common.Bytes.{get16}
use uiscsi.Pdu.Initiator.Transfers.{marshal_snack_req}
use uiscsi.Pdu.Target.Transfers.{DataIn}
use uiscsi.Pdu.Target.Commands.{ScsiResponse}
use uiscsi.Serial.{sub32}
use uiscsi.Transport.Framer.{RawPdu}
use uiscsi.Session.ChanReader.{close}
use uiscsi.Session.ReadTask.{
  Sink, snack_data_r2t, snack_data_ack, snack_of, fail_stream, error_result, deliver_result,
  SnackError, TaskError, TaskResult, ReadTask, Around, data_sn_gap, buffer_offset_mismatch,
  snack_send_failed, no_sink, buffer, stream,
}
use uiscsi.Session.Snack.{
  reset_snack_timer, snack_req_of, offer_snack, send_snack, finish, consume, drain_pending_data_in,
}

-- `t.done` is closed, once.
abbrev pub close_done : ReadTask → ReadTask
close_done t = record t { done = true }

abbrev pub fail_task : TaskError → ReadTask → ReadTask
fail_task e t = deliver_result (error_result e) (record t { sink = fail_stream e t.sink })

-- After the SNACK for a gap.
abbrev pub gap_answer : Option SnackError × List RawPdu → ReadTask → ReadTask
gap_answer (none, pdus) t = record t { sent = t.sent ++ pdus }
gap_answer (some e, pdus) t = close_done (fail_task (snack_send_failed e) t)

abbrev pub keep_pending : DataIn → ReadTask → ReadTask
keep_pending din t =
    let s = snack_of t in
    record t {
      snack = some (record s {
        gap_detected = true;
        pending_data_in = put_key din.data_sn din s.pending_data_in;
      });
    }

-- A DataSN that is not the next, at ErrorRecoveryLevel 1 and above.
unfoldable pub handle_gap : Around → DataIn → ReadTask → ReadTask
handle_gap env din t =
    gap_answer
      (send_snack env snack_data_r2t t.next_data_sn (sub32 din.data_sn t.next_data_sn)
        (keep_pending din t))
      (keep_pending din t)

-- The answer to the A-bit; nothing is sent when the write channel is full.
unfoldable pub acknowledge_data : Around → DataIn → ReadTask → ReadTask
acknowledge_data env din t = record t {
  sent =
      if din.acknowledge && leb 1 t.erl
      then t.sent
        ++ (offer_snack env.write_accepts (
            marshal_snack_req (
              snack_req_of t.itt snack_data_ack din.target_transfer_tag t.next_data_sn 0
                env.exp_stat_sn))).1
      else t.sent;
}

-- After the buffered PDUs are drained: nothing more when `resultCh` then holds a result.
abbrev pub after_drain : Bool → Around → DataIn → Option ReadTask → Option ReadTask
after_drain has_pending env din none = none
after_drain has_pending env din (some t) =
    if has_pending && (not env.all_received && ltb 0 (length t.results))
    then some t
    else if din.has_status
    then finish din t
    else some t

-- After the data of an in-order PDU: the buffered PDUs behind it, then its status.
unfoldable pub after_data : Around → DataIn → ReadTask → Option ReadTask
after_data env din t =
    let has_pending = ltb 0 (length (snack_of t).pending_data_in) in
    after_drain has_pending env din (if has_pending then drain_pending_data_in t else some t)

unfoldable pub handle_in_order : Around → DataIn → ReadTask → Option ReadTask
handle_in_order env din t = elim (consume din t) [
  | none ↦ none
  | some t1 ↦ after_data env din (acknowledge_data env din t1)
]

-- What follows the restart of the timer.
unfoldable pub handle_received : Around → DataIn → ReadTask → Option ReadTask
handle_received env din t =
    if not (din.data_sn == t.next_data_sn)
    then some (
        if leb 1 t.erl
        then handle_gap env din t
        else fail_task (data_sn_gap t.itt din.data_sn t.next_data_sn) t)
    else if not (din.buffer_offset == t.next_offset)
    then some (fail_task (buffer_offset_mismatch t.itt din.buffer_offset t.next_offset) t)
    else handle_in_order env din t

unfoldable pub handle_data_in : Around → DataIn → ReadTask → Option ReadTask
handle_data_in env din t =
    handle_received env din
      (if leb 1 t.erl && ltb 0 t.snack_timeout then reset_snack_timer t else t)

-- The sense data behind its 2-byte length; none when the length does not fit the segment.
unfoldable pub sense_data_of : List ℕ → List ℕ
sense_data_of segment =
    if leb 2 (length segment) && leb (get16 0 segment) (length segment - 2)
    then take (get16 0 segment) (drop 2 segment)
    else []

-- The result with the data of a read; a stream is closed and has delivered the data already.
abbrev pub respond_into : TaskResult → Sink → ReadTask → ReadTask
respond_into r (stream cr) t = deliver_result r (record t { sink = stream (close cr) })
respond_into r (buffer (x ∷ b)) t =
    deliver_result (record r { payload = if t.is_read then some (x ∷ b) else none }) t
respond_into r s t = deliver_result r t

abbrev pub response_result : ScsiResponse → TaskResult
response_result resp = record {
  status = resp.status;
  sense_data = sense_data_of resp.payload;
  payload = none;
  overflow = resp.overflow;
  underflow = resp.underflow;
  residual_count = resp.residual_count;
  failure = none;
}

unfoldable pub handle_scsi_response : ScsiResponse → ReadTask → ReadTask
handle_scsi_response resp t = respond_into (response_result resp) t.sink t

-- `has_room` tells whether `resultCh` takes a result at once.
unfoldable pub cancel : Bool → TaskError → ReadTask → ReadTask
cancel has_room e t =
    let t1 = record t { sink = fail_stream e t.sink } in
    close_done (if has_room then deliver_result (error_result e) t1 else t1)
