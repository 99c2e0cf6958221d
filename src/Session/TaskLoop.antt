-- ===== src/Session/TaskLoop.antt =====
-- internal/session/session.go: one round of taskLoop, which takes a PDU for its task;
-- retrySameConnection. The task's present state stands beside the session. A reader's errors of Seek
-- and logging are left out.
pub mod EarlyStatus
pub mod Results
pub mod WholeRead
pub mod Tests
use uiscsi.Common.{
  ℕ, Bool, true, false, ◌&&◌, not, ◌⊎◌, inl, inr, Option, some, none, List, [], ◌∷◌, min, leb, ltb,
  length, if◌then◌else◌,
}
use uiscsi.Pdu.Header.{Result, ok, err}
use uiscsi.Pdu.Codec.{Pdu, data_in, r2t, scsi_response, reject, decode_bhs}
use uiscsi.Pdu.Target.Commands.{ScsiResponse}
use uiscsi.Pdu.Target.Transfers.{DataIn, R2t}
use uiscsi.Pdu.Target.Events.{Reject}
use uiscsi.Window.{update}
use uiscsi.Transport.Framer.{RawPdu}
use uiscsi.Session.DataOut.{BurstError, handle_r2t}
use uiscsi.Session.ReadTask.{
  ReadTask, TaskError, Sink, buffer, stream, Around, decode_failed, write_failed, target_rejected,
  not_retriable, retry_not_possible, retry_read_failed, retry_encode_failed, retry_channel_full,
  call_expired,
}
use uiscsi.Session.DataIn.{handle_data_in, handle_scsi_response, cancel}
use uiscsi.Session.Command.{Reader, build_scsi_command_pdu, read_immediate}
use uiscsi.Session.State.{
  Session, SessionTask, limits_of, refresh_task, cleanup_task, update_stat_sn, enqueue,
}
use uiscsi.Session.Submit.{rest_of, with_rest}

-- After a round: the loop goes on or has returned; `panicked` is a run-time panic.
pub data Round : Type 0 where
  goes_on returned : SessionTask → Session → Round
  panicked : Round

-- Whether the write channel takes a PDU, whether `resultCh` takes a result at once, and whether the
-- caller has received every result so far.
pub record Peers : Type 0 where
  pub write_accepts : Bool
  pub has_room : Bool
  pub all_received : Bool

abbrev pub around_of : Peers → Session → Around
around_of env s = record {
  write_accepts = env.write_accepts;
  exp_stat_sn = s.exp_stat_sn;
  all_received = env.all_received;
}

-- `s.window.update(p.ExpCmdSN, p.MaxCmdSN)`
abbrev pub update_window : ℕ → ℕ → Session → Session
update_window exp_cmd_sn max_cmd_sn s = record s {
  window = (update exp_cmd_sn max_cmd_sn s.window).0;
}

-- The task is cancelled and cleaned up.
abbrev pub give_up : Peers → TaskError → SessionTask → Session → SessionTask × Session
give_up env e tk s =
    (record tk { received = cancel env.has_room e tk.received }, cleanup_task tk.received.itt s)

abbrev pub ends : SessionTask × Session → Round
ends (tk, s) = returned tk s

abbrev pub continues : SessionTask × Session → Round
continues (tk, s) = goes_on tk s

abbrev pub is_streaming : Sink → Bool
is_streaming (stream cr) = true
is_streaming s = false

-- `tk.buf.Reset()` for a read that has a buffer.
abbrev pub reset_buffer : Bool → Sink → Sink
reset_buffer true (buffer b) = buffer []
reset_buffer is_read s = s

-- The counters and the buffer of a task that is sent again.
abbrev pub restarted : SessionTask → SessionTask
restarted tk = record tk {
  received = record (tk.received) {
    next_data_sn = 0;
    next_offset = 0;
    sink = reset_buffer tk.received.is_read tk.received.sink;
  };
}

-- The reader from its start, and the immediate data read from it again.
abbrev pub rewind :
    ℕ → SessionTask → Option Reader → TaskError × SessionTask ⊎ (List ℕ × SessionTask)
rewind imm_len tk none = inr ([], tk)
rewind imm_len tk (some r) =
    let start = record r { rest = r.whole } in
    if not r.seekable then inl (retry_not_possible, tk) else elim (read_immediate imm_len start) [
      | none ↦ inl (retry_read_failed, record tk { reader = some start; bytes_sent = 0 })
      | some (imm, r') ↦ inr (imm, record tk { reader = some r'; bytes_sent = length imm })
    ]

-- A Data-In PDU after the window and ExpStatSN are updated. Status ends the loop, whatever
-- handleDataIn has made of the PDU.
abbrev pub after_data_in : DataIn → SessionTask → Option ReadTask → Session → Round
after_data_in p tk none s = panicked
after_data_in p tk (some received) s =
    let tk1 = record tk { received = record received { sent = [] } } in
    let s1 = enqueue received.sent s in
    if p.has_status then returned tk1 (cleanup_task tk.received.itt s1) else goes_on tk1 s1

unfoldable pub on_data_in : Peers → DataIn → SessionTask → Session → Round
on_data_in env p tk s =
    let s1 = update_window p.exp_cmd_sn p.max_cmd_sn s in
    let s2 = if p.has_status then update_stat_sn p.stat_sn s1 else s1 in
    after_data_in p tk (handle_data_in (around_of env s2) p tk.received) s2

unfoldable pub on_scsi_response : ScsiResponse → SessionTask → Session → Round
on_scsi_response p tk s =
    let s1 = update_stat_sn p.stat_sn (update_window p.exp_cmd_sn p.max_cmd_sn s) in
    returned (record tk { received = handle_scsi_response p tk.received })
      (cleanup_task tk.received.itt s1)

-- After the burst that answers an R2T.
abbrev pub after_burst : Peers → Option BurstError → SessionTask → Session → Round
after_burst env none tk s = goes_on tk s
after_burst env (some e) tk s = ends (give_up env (write_failed e) tk s)

-- io.ReadFull of some bytes from a reader that is nil.
abbrev pub reads_nil : Option Reader → (burst_len max_recv_dsl : ℕ) → Bool
reads_nil none burst_len max_recv_dsl = ltb 0 (min burst_len max_recv_dsl)
reads_nil (some r) burst_len max_recv_dsl = false

module _ (stamp : RawPdu → RawPdu) where
  -- `select { case writeCh <- raw: default: ... }` on the encoded command.
  abbrev pub resend : Peers → SessionTask → Option (Result RawPdu) → Session → Round
  resend env tk none s = panicked
  resend env tk (some (err e)) s = continues (give_up env (retry_encode_failed e) tk s)
  resend env tk (some (ok raw)) s =
      if env.write_accepts
      then goes_on tk (enqueue (stamp raw ∷ []) s)
      else continues (give_up env retry_channel_full tk s)

  abbrev pub after_rewind :
      Peers → TaskError × SessionTask ⊎ (List ℕ × SessionTask) → Session → Round
  after_rewind env (inl (e, tk)) s = continues (give_up env e tk s)
  after_rewind env (inr (imm, tk)) s =
      resend env tk (build_scsi_command_pdu tk.cmd tk.received.itt tk.cmd_sn s.exp_stat_sn imm) s

  -- A failed retry cancels the task; the loop itself goes on to see that.
  unfoldable pub retry_same_connection : Peers → SessionTask → Session → Round
  retry_same_connection env tk s =
      let tk1 = restarted tk in
      let imm_len = min s.params.first_burst_length s.params.max_recv_data_segment_length in
      if is_streaming tk.received.sink
      then continues (give_up env not_retriable tk s)
      else after_rewind env
          (if tk.received.is_write && s.params.immediate_data
            then rewind imm_len tk1 tk1.reader
            else inr ([], tk1))
          s

  unfoldable pub on_r2t : Peers → (ℕ → ℕ) → R2t → SessionTask → Session → Round
  on_r2t env exp_stat_sn p tk s =
      let s1 = update_stat_sn p.stat_sn (update_window p.exp_cmd_sn p.max_cmd_sn s) in
      let (b, t) = handle_r2t exp_stat_sn stamp p (limits_of s.params) (record {
        itt = tk.received.itt;
        bytes_sent = tk.bytes_sent;
        reader = rest_of tk.reader;
      }) in
      let tk1 = record tk { reader = with_rest t.reader tk.reader } in
      let s2 = enqueue b.pdus s1 in
      let burst_len = min p.desired_data_transfer_length s.params.max_burst_length in
      if reads_nil tk.reader burst_len s.params.max_recv_data_segment_length
      then panicked
      else after_burst env b.failure tk1 s2

  unfoldable pub on_reject : Peers → Reject → SessionTask → Session → Round
  on_reject env p tk s =
      let s1 = update_stat_sn p.stat_sn (update_window p.exp_cmd_sn p.max_cmd_sn s) in
      if leb 1 tk.received.erl
      then retry_same_connection env tk s1
      else ends (give_up env (target_rejected p.reason) tk s1)

  -- The decoded PDU with the raw PDU's data segment; a PDU of another type is only logged.
  unfoldable pub on_pdu : Peers → (ℕ → ℕ) → List ℕ → Result Pdu → SessionTask → Session → Round
  on_pdu env exp_stat_sn segment (err e) tk s = ends (give_up env (decode_failed e) tk s)
  on_pdu env exp_stat_sn segment (ok (data_in p)) tk s =
      on_data_in env (record p { payload = segment }) tk s
  on_pdu env exp_stat_sn segment (ok (r2t p)) tk s = on_r2t env exp_stat_sn p tk s
  on_pdu env exp_stat_sn segment (ok (scsi_response p)) tk s =
      on_scsi_response (record p { payload = segment }) tk s
  on_pdu env exp_stat_sn segment (ok (reject p)) tk s = on_reject env p tk s
  on_pdu env exp_stat_sn segment (ok p) tk s = goes_on tk s

-- What the `select` of a round chose; several of them may be ready, and then it is any of them.
pub data Choice : Type 0 where
  task_done call_done channel_closed : Choice
  pdu_arrived : RawPdu → Choice

-- The session's map has a pointer to the task.
abbrev pub stored : Round → Round
stored (goes_on tk s) = goes_on tk (record s { tasks = refresh_task tk.received.itt tk s.tasks })
stored round = round

unfoldable pub task_round :
    (RawPdu → RawPdu) → Peers → (ℕ → ℕ) → Choice → SessionTask → Session → Round
task_round stamp env exp_stat_sn task_done tk s = returned tk s
task_round stamp env exp_stat_sn call_done tk s = ends (give_up env call_expired tk s)
task_round stamp env exp_stat_sn channel_closed tk s = returned tk s
task_round stamp env exp_stat_sn (pdu_arrived raw) tk s =
    stored (on_pdu stamp env exp_stat_sn raw.data_segment (decode_bhs raw.bhs) tk s)
