-- ===== src/Session/Submit.antt =====
-- internal/session/session.go: Submit and SubmitStreaming. A slot of the command window is taken
-- without waiting; where `acquire` has to wait, the goroutine of Window/Waiter.antt takes the slot
-- and `start_task` follows.
pub mod Registered
pub mod LostNumber
pub mod CommandPdu
use uiscsi.Common.{
  ℕ, suc, Bool, true, false, ◌&&◌, ◌||◌, not, Option, some, none, List, [], ◌∷◌, min, if◌then◌else◌,
  length,
}
use uiscsi.Common.Maps.{put_key}
use uiscsi.Common.Integers.{ℤ, pos}
use uiscsi.Pdu.Header.{Result, ok, err, Error}
use uiscsi.Window.{Attempt, granted, window_closed, must_wait, acquire}
use uiscsi.Transport.Framer.{RawPdu}
use uiscsi.Transport.Router.{allocate_itt, register_persistent}
use uiscsi.Login.Params.{NegotiatedParams}
use uiscsi.Session.ChanReader.{default_chan_buf_size}
use uiscsi.Session.DataOut.{BurstError, send_unsolicited_data_out}
use uiscsi.Session.ReadTask.{new_task}
use uiscsi.Session.Command.{Command, Reader, build_scsi_command_pdu, read_immediate}
use uiscsi.Session.State.{Session, SessionTask, limits_of, forget_task, enqueue}

pub data SubmitError : Type 0 where
  session_recovering session_draining acquire_failed read_immediate_failed context_done :
      SubmitError
  encode_failed : Error → SubmitError
  unsolicited_failed : BurstError → SubmitError

-- `waits` is inside `acquire`, `panicked` in EncodeSAMLUN.
pub data Submitted : Type 0 where
  accepted : ℕ → Submitted
  refused : SubmitError → Submitted
  waits panicked : Submitted

abbrev pub is_some {ℓ} : {A : Type ℓ} → Option A → Bool
is_some none = false
is_some (some a) = true

-- A task that the command's PDU does not wait for any more is forgotten.
abbrev pub refuse : SubmitError → ℕ → Session → Submitted × Session
refuse e itt s = (refused e, forget_task itt s)

abbrev pub immediate_of : Bool → NegotiatedParams → Option Reader → Option (List ℕ × Option Reader)
immediate_of false p r = some ([], r)
immediate_of true p none = some ([], none)
immediate_of true p (some r) =
    elim (read_immediate (min p.first_burst_length p.max_recv_data_segment_length) r) [
      | none ↦ none
      | some (imm, r') ↦ some (imm, some r')
    ]

abbrev pub rest_of : Option Reader → List ℕ
rest_of none = []
rest_of (some r) = r.rest

abbrev pub with_rest : List ℕ → Option Reader → Option Reader
with_rest rest none = none
with_rest rest (some r) = some (record r { rest = rest })

abbrev pub after_unsolicited : Option BurstError → ℕ → Session → Submitted × Session
after_unsolicited none itt s = (accepted itt, s)
after_unsolicited (some e) itt s = refuse (unsolicited_failed e) itt s

-- The task of a command with data is a write.
abbrev pub as_write : Command → Command
as_write cmd = record cmd { write = is_some cmd.source || cmd.write }

abbrev pub submitted_task : ℤ → Command → ℕ → ℕ → Session → SessionTask
submitted_task depth cmd itt cmd_sn s = record {
  received = record (new_task itt cmd.read (is_some cmd.source) depth) {
    erl = s.params.error_recovery_level;
    snack_timeout = s.snack_timeout;
  };
  lun = cmd.lun;
  cmd = as_write cmd;
  cmd_sn = cmd_sn;
  reader = cmd.source;
  bytes_sent = 0;
}

module _ (stamp : RawPdu → RawPdu) (exp_stat_sn : ℕ → ℕ) where
  -- The unsolicited data of a write: its PDUs are in the write channel, also when it fails.
  abbrev pub send_unsolicited : ℕ → SessionTask → Session → Submitted × Session
  send_unsolicited itt tk s =
      let (b, t) =
        send_unsolicited_data_out exp_stat_sn stamp (limits_of s.params)
          (record { itt = itt; bytes_sent = tk.bytes_sent; reader = rest_of tk.reader }) in
      let tk' = record tk { reader = with_rest t.reader tk.reader; bytes_sent = t.bytes_sent } in
      let s1 = enqueue b.pdus (record s { tasks = put_key itt tk' s.tasks }) in
      after_unsolicited b.failure itt s1

  -- The command's PDU, encoded or not, and whether the write channel takes it before the context
  -- is done.
  abbrev pub send_command :
      Bool → ℕ → SessionTask → Option (Result RawPdu) → Session → Submitted × Session
  send_command takes itt tk none s = (panicked, s)
  send_command takes itt tk (some (err e)) s = refuse (encode_failed e) itt s
  send_command takes itt tk (some (ok raw)) s =
      let s1 = enqueue (stamp raw ∷ []) s in
      if not takes
      then refuse context_done itt s
      else if is_some tk.reader && not s.params.initial_r2t
      then send_unsolicited itt tk s1
      else (accepted itt, s1)

  -- After the immediate data is read from the reader, if there is any.
  abbrev pub with_immediate :
      Bool → ℕ → SessionTask → Option (List ℕ × Option Reader) → Session → Submitted × Session
  with_immediate takes itt tk none s = refuse read_immediate_failed itt s
  with_immediate takes itt tk (some (imm, reader)) s =
      let sent = if is_some tk.reader && s.params.immediate_data then length imm else 0 in
      let tk' = record tk { reader = reader; bytes_sent = sent } in
      send_command takes itt tk' (build_scsi_command_pdu tk.cmd itt tk.cmd_sn s.exp_stat_sn imm)
        (record s { tasks = put_key itt tk' s.tasks })

  -- What follows `acquire`: the tag, the task, and its PDUs.
  unfoldable pub start_task : ℤ → Bool → Command → ℕ → Session → Submitted × Session
  start_task depth takes cmd cmd_sn s =
      let (itt, r1) = allocate_itt s.router in
      let tk = submitted_task depth cmd itt cmd_sn s in
      with_immediate takes itt tk
        (immediate_of (is_some cmd.source && s.params.immediate_data) s.params cmd.source)
        (record s { router = (register_persistent itt r1).1; tasks = put_key itt tk s.tasks })

  abbrev pub with_slot : ℤ → Bool → Command → Session → Attempt → Submitted × Session
  with_slot depth takes cmd s window_closed = (refused acquire_failed, s)
  with_slot depth takes cmd s must_wait = (waits, s)
  with_slot depth takes cmd s (granted cmd_sn w) =
      start_task depth takes cmd cmd_sn (record s { window = w })

  unfoldable pub submit_task : ℤ → Bool → Command → Session → Submitted × Session
  submit_task depth takes cmd s =
      if s.recovering
      then (refused session_recovering, s)
      else if s.draining
      then (refused session_draining, s)
      else with_slot depth takes cmd s (acquire s.window)

  unfoldable pub submit : Bool → Command → Session → Submitted × Session
  submit takes cmd s = submit_task (pos 0) takes cmd s

  -- A depth of at most 0 is the default one.
  abbrev pub stream_depth : ℤ → ℤ
  stream_depth (pos (suc n)) = pos (suc n)
  stream_depth d = pos default_chan_buf_size

  unfoldable pub submit_streaming : Bool → Command → Session → Submitted × Session
  submit_streaming takes cmd s = submit_task (stream_depth s.stream_buf_depth) takes cmd s
