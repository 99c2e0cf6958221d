-- ===== src/Session/Unsolicited.antt =====
-- internal/session/session.go: the Reject branch of handleUnsolicited. The other branches, for NOP-In
-- and asynchronous messages, are not here.
pub mod Results
mod Tests
use uiscsi.Common.{ℕ, ◌&&◌, not, Option, some, none, List, length, leb, ◌==◌, if◌then◌else◌}
use uiscsi.Common.Maps.{find_key}
use uiscsi.Common.Bytes.{get32}
use uiscsi.Pdu.Header.{Result, ok, err}
use uiscsi.Pdu.Codec.{Pdu, reject, decode_bhs}
use uiscsi.Pdu.Target.Events.{Reject}
use uiscsi.Transport.Framer.{RawPdu}
use uiscsi.Transport.Router.{reserved_itt}
use uiscsi.Session.ReadTask.{target_rejected}
use uiscsi.Session.DataIn.{cancel}
use uiscsi.Session.State.{Session, SessionTask, cleanup_task, update_stat_sn}
use uiscsi.Session.TaskLoop.{Round, Peers, update_window, stored, retry_same_connection}

-- No task is concerned; a task is cancelled; a task is sent again; a failed type assertion.
pub data Unsolicited : Type 0 where
  no_task : Session → Unsolicited
  cancelled : SessionTask → Session → Unsolicited
  sent_again : Round → Unsolicited
  panicked : Unsolicited

module _ (stamp : RawPdu → RawPdu) (env : Peers) where
  -- The task with the rejected tag, if the session has it.
  unfoldable pub reject_task : (itt reason : ℕ) → Option SessionTask → Session → Unsolicited
  reject_task itt reason none s = no_task s
  reject_task itt reason (some tk) s =
      if leb 1 tk.received.erl
      then sent_again (stored (retry_same_connection stamp env tk s))
      else cancelled
          (record tk { received = cancel env.has_room (target_rejected reason) tk.received })
          (cleanup_task itt s)

  -- The data segment is the BHS of the rejected PDU, with its tag in the bytes 16 to 19.
  unfoldable pub handle_reject : Reject → List ℕ → Session → Unsolicited
  handle_reject p segment s =
      let s1 = update_window p.exp_cmd_sn p.max_cmd_sn (update_stat_sn p.stat_sn s) in
      let itt = get32 16 segment in
      if leb 20 (length segment) && not (itt == reserved_itt)
      then reject_task itt p.reason (find_key itt s1.tasks) s1
      else no_task s1

  abbrev pub after_decode : Result Pdu → List ℕ → Session → Unsolicited
  after_decode (err e) segment s = no_task s
  after_decode (ok (reject p)) segment s = handle_reject p segment s
  after_decode (ok p) segment s = panicked

  unfoldable pub handle_unsolicited_reject : RawPdu → Session → Unsolicited
  handle_unsolicited_reject raw s = after_decode (decode_bhs raw.bhs) raw.data_segment s
