-- ===== src/Session/ReadTask.antt =====
-- internal/session/datain.go: a task and where its received data goes. `none` as a result is a
-- run-time panic: a send on a closed channel, or a write to a buffer that was not made. `resultCh`
-- is the list of the results in the order in which they are sent: a second one waits until the
-- first is received.
use uiscsi.Common.{ℕ, zero, Bool, true, false, Option, some, none, List, [], ◌∷◌, ◌++◌}
use uiscsi.Common.Integers.{ℤ, pos}
use uiscsi.Pdu.Header.{Error}
use uiscsi.Pdu.Target.Transfers.{DataIn}
use uiscsi.Transport.Framer.{RawPdu}
use uiscsi.Session.DataOut.{BurstError}
use uiscsi.Session.ChanReader.{ChanReader, new_chan_reader, send, close_with_error}

abbrev pub snack_data_r2t : ℕ
snack_data_r2t = 0

abbrev pub snack_status : ℕ
snack_status = 1

abbrev pub snack_data_ack : ℕ
snack_data_ack = 2

pub data SnackError : Type 0 where
  snack_encode : Error → SnackError
  snack_timed_out : SnackError

-- `foreign` stands for an error that another part of the session passes to `cancel`.
pub data TaskError : Type 0 where
  data_sn_gap buffer_offset_mismatch : (itt got want : ℕ) → TaskError
  snack_send_failed : SnackError → TaskError
  decode_failed : Error → TaskError
  write_failed : BurstError → TaskError
  target_rejected : ℕ → TaskError
  call_expired not_retriable retry_not_possible retry_read_failed retry_channel_full : TaskError
  retry_encode_failed : Error → TaskError
  foreign : ℕ → TaskError

-- Result
pub record TaskResult : Type 0 where
  pub status : ℕ
  pub sense_data : List ℕ
  pub payload : Option (List ℕ)
  pub overflow : Bool
  pub underflow : Bool
  pub residual_count : ℕ
  pub failure : Option TaskError

-- What `newTask` allocates for the received data: nothing, `buf`, or `dataReader`.
pub data Sink : Type 0 where
  no_sink : Sink
  buffer : List ℕ → Sink
  stream : ChanReader TaskError → Sink

-- `timer` tells whether the timer runs.
pub record SnackState : Type 0 where
  pub pending_data_in : List (ℕ × DataIn)
  pub gap_detected : Bool
  pub timer : Bool

-- The part of the task that received data concerns. `sent` are the PDUs that went into the write
-- channel; `done` tells whether that channel is closed.
pub record ReadTask : Type 0 where
  pub itt : ℕ
  pub is_read : Bool
  pub is_write : Bool
  pub sink : Sink
  pub next_data_sn : ℕ
  pub next_offset : ℕ
  pub erl : ℕ
  pub snack_timeout : ℕ
  pub snack : Option SnackState
  pub results : List TaskResult
  pub done : Bool
  pub sent : List RawPdu

-- What the rest of the session does during a call: whether the write channel takes a PDU (in time),
-- the answer of `expStatSN`, and whether the caller has received every result when the task asks
-- for `len(t.resultCh)`.
pub record Around : Type 0 where
  pub write_accepts : Bool
  pub exp_stat_sn : ℕ
  pub all_received : Bool

abbrev sink_of : Bool → ℤ → Sink
sink_of false depth = no_sink
sink_of true (pos zero) = buffer []
sink_of true depth = stream (new_chan_reader depth)

unfoldable pub new_task : (itt : ℕ) (is_read is_write : Bool) (stream_buf_depth : ℤ) → ReadTask
new_task itt is_read is_write stream_buf_depth = record {
  itt = itt;
  is_read = is_read;
  is_write = is_write;
  sink = sink_of is_read stream_buf_depth;
  next_data_sn = 0;
  next_offset = 0;
  erl = 0;
  snack_timeout = 0;
  snack = none;
  results = [];
  done = false;
  sent = [];
}

abbrev pub new_snack_state : SnackState
new_snack_state = record { pending_data_in = []; gap_detected = false; timer = false }

abbrev pub snack_of : ReadTask → SnackState
snack_of t = elim (t.snack) [ some s ↦ s | none ↦ new_snack_state ]

-- `if len(din.Data) > 0 { ... }`: the chunk goes to the consumer or to the end of the buffer.
unfoldable pub write_data : List ℕ → Sink → Option Sink
write_data [] s = some s
write_data (x ∷ xs) no_sink = none
write_data (x ∷ xs) (buffer b) = some (buffer (b ++ (x ∷ xs)))
write_data (x ∷ xs) (stream cr) = elim (send (x ∷ xs) cr) [
  | some cr' ↦ some (stream cr')
  | none ↦ none
]

-- `t.dataReader.closeWithError(e)` where the task streams.
unfoldable pub fail_stream : TaskError → Sink → Sink
fail_stream e (stream cr) = stream (close_with_error e cr)
fail_stream e s = s

abbrev pub error_result : TaskError → TaskResult
error_result e = record {
  status = 0;
  sense_data = [];
  payload = none;
  overflow = false;
  underflow = false;
  residual_count = 0;
  failure = some e;
}

-- `t.resultCh <- r`
abbrev pub deliver_result : TaskResult → ReadTask → ReadTask
deliver_result r t = record t { results = t.results ++ (r ∷ []) }
