-- ===== src/Session/Snack.antt =====
-- internal/session/snack.go, and the result of a Data-In PDU that carries status (datain.go). The
-- map `pendingDataIn` is an association list without repeated keys.
use uiscsi.Common.{
  ℕ, zero, suc, ◌+◌, ◌%◌, ◌^◌, Bool, true, false, Option, some, none, List, [], ◌∷◌, ◌++◌, length,
  if◌then◌else◌,
}
use uiscsi.Common.Maps.{find_key, delete_key}
use uiscsi.Common.Bytes.{zeros}
use uiscsi.Pdu.Header.{Result, ok, err}
use uiscsi.Pdu.Initiator.Transfers.{SnackReq, marshal_snack_req}
use uiscsi.Pdu.Target.Transfers.{DataIn}
use uiscsi.Transport.Framer.{RawPdu}
use uiscsi.Session.DataOut.{raw_of}
use uiscsi.Session.ChanReader.{close}
use uiscsi.Session.ReadTask.{
  TaskResult, Sink, snack_status, snack_of, write_data, deliver_result, SnackError, TaskResult,
  ReadTask, Around, snack_encode, snack_timed_out, no_sink, buffer, stream,
}

unfoldable pub stop_snack_timer : ReadTask → ReadTask
stop_snack_timer t = record t {
  snack = elim (t.snack) [ some s ↦ some (record s { timer = false }) | none ↦ none ];
}

unfoldable pub start_snack_timer : ReadTask → ReadTask
start_snack_timer t = record t { snack = some (record (snack_of t) { timer = true }) }

-- The running timer is stopped, and started again.
unfoldable pub reset_snack_timer : ReadTask → ReadTask
unfolding start_snack_timer
reset_snack_timer t = start_snack_timer t

abbrev pub snack_req_of : (itt type ttt beg_run run_length exp_stat_sn : ℕ) → SnackReq
snack_req_of itt type ttt beg_run run_length exp_stat_sn = record {
  header = record {
    immediate = false;
    op_code = 0;
    final = true;
    total_ahs_length = 0;
    data_segment_len = 0;
    lun = zeros 8;
    initiator_task_tag = itt;
  };
  type = type;
  target_transfer_tag = ttt;
  exp_stat_sn = exp_stat_sn;
  beg_run = beg_run;
  run_length = run_length;
}

-- The error of a send, if any, and the PDUs that went into the write channel.
abbrev pub offer_snack : Bool → Result (List ℕ) → Option SnackError × List RawPdu
offer_snack accepts (err e) = (some (snack_encode e), [])
offer_snack accepts (ok bhs) =
    if accepts then (none, raw_of bhs [] ∷ []) else (some snack_timed_out, [])

unfoldable pub send_snack :
    Around → (snack_type beg_run run_length : ℕ) → ReadTask → Option SnackError × List RawPdu
send_snack env snack_type beg_run run_length t =
    offer_snack env.write_accepts
      (marshal_snack_req (snack_req_of t.itt snack_type 0 beg_run run_length env.exp_stat_sn))

-- When the timer fires: a Status SNACK, whose error is dropped.
unfoldable pub fire_snack_timer : Around → ReadTask → ReadTask
fire_snack_timer env t = record t { sent = t.sent ++ (send_snack env snack_status 0 0 t).1 }

abbrev pub status_result : DataIn → Option (List ℕ) → TaskResult
status_result din payload = record {
  status = din.status;
  sense_data = [];
  payload = payload;
  overflow = din.residual_overflow;
  underflow = din.residual_underflow;
  residual_count = din.residual_count;
  failure = none;
}

-- The result of a Data-In PDU that carries status; a stream has delivered the data already.
abbrev pub finish_into : DataIn → Sink → ReadTask → Option ReadTask
finish_into din no_sink t = none
finish_into din (buffer b) t = some (deliver_result (status_result din (some b)) t)
finish_into din (stream cr) t =
    some (deliver_result (status_result din none) (record t { sink = stream (close cr) }))

unfoldable pub finish : DataIn → ReadTask → Option ReadTask
finish din t = finish_into din t.sink (stop_snack_timer t)

-- The data of a PDU whose turn it is, and the counters behind it.
unfoldable pub consume : DataIn → ReadTask → Option ReadTask
consume din t = elim (write_data din.payload t.sink) [
  | none ↦ none
  | some s ↦ some (record t {
    sink = s;
    next_data_sn = (t.next_data_sn + 1) % 2 ^ 32;
    next_offset = (t.next_offset + length din.payload) % 2 ^ 32;
  })
]

abbrev pub on_pending : (List (ℕ × DataIn) → List (ℕ × DataIn)) → ReadTask → ReadTask
on_pending f t =
    let s = snack_of t in
    record t { snack = some (record s { pending_data_in = f s.pending_data_in }) }

-- The `for` loop of drainPendingDataIn. Each round takes a PDU out of the map; out of fuel is the
-- answer of a panic, which the theorems exclude.
unfoldable pub drain_loop : ℕ → ReadTask → Option ReadTask
drain_loop zero t = none
drain_loop (suc fuel) t = elim (find_key t.next_data_sn (snack_of t).pending_data_in) [
  | none ↦ some t
  | some din ↦ elim (consume din (on_pending (delete_key din.data_sn) t)) [
    | none ↦ none
    | some t1 ↦ elim (din.has_status) [ true ↦ finish din t1 | false ↦ drain_loop fuel t1 ]
  ]
]

unfoldable pub drain_pending_data_in : ReadTask → Option ReadTask
drain_pending_data_in t = drain_loop (suc (length (snack_of t).pending_data_in)) t
