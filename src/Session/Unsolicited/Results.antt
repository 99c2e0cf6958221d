-- ===== src/Session/Unsolicited/Results.antt =====
-- internal/session/session.go: an unsolicited Reject concerns the task that it names, and no other.
use uiscsi.Common.{
  ℕ, ◌<◌, ◌≤◌, ◌≡◌, ◌≢◌, ◌⊎◌, true, some, none, List, [], ◌∷◌, ◌++◌, length, if◌then◌else◌,
}
use uiscsi.Common.Maps.{find_key}
use uiscsi.Common.Bytes.{get32}
use uiscsi.Pdu.Codec.{Pdu}
use uiscsi.Pdu.Target.Events.{Reject}
use uiscsi.Transport.Framer.{RawPdu}
use uiscsi.Transport.Router.{reserved_itt}
use uiscsi.Session.ReadTask.{ReadTask, error_result, target_rejected}
use uiscsi.Session.State.{Session, SessionTask}
use uiscsi.Session.TaskLoop.{Peers, stored, retry_same_connection}
use uiscsi.Session.TaskLoop.Results.{IsUnknown}
use uiscsi.Session.Unsolicited.{Unsolicited, no_task, cancelled, sent_again, panicked}

-- The tag names no task.
abbrev pub NamesNone : List ℕ → Session → Type 0
NamesNone segment s =
    (length segment < 20)
    ⊎ ((get32 16 segment ≡ reserved_itt) ⊎ (find_key (get32 16 segment) s.tasks ≡ none))

-- The task was cancelled with an error and forgotten; all other tasks are as before.
pub record IsCancelled (env : Peers) (itt reason : ℕ) (s : Session) (tk' : SessionTask)
    (s' : Session) : Type 0 where
  pub task : SessionTask
  pub was_known : find_key itt s.tasks ≡ some task
  pub no_recovery : task.received.erl ≡ 0
  pub is_done : tk'.received.done ≡ true
  pub result_sent : tk'.received.results ≡ (
      if env.has_room
      then task.received.results ++ (error_result (target_rejected reason) ∷ [])
      else task.received.results)
  pub forgotten : IsUnknown itt s'
  pub others_kept : (j : ℕ) → j ≢ itt → find_key j s'.tasks ≡ find_key j s.tasks

abbrev pub Settled : (RawPdu → RawPdu) → Peers → Reject → List ℕ → Session → Unsolicited → Type 0
Settled stamp env p segment s (no_task s') =
    NamesNone segment s × (s'.tasks ≡ s.tasks) × (s'.router ≡ s.router)
Settled stamp env p segment s (cancelled tk s') =
    IsCancelled env (get32 16 segment) p.reason s tk s'
Settled stamp env p segment s (sent_again round) =
    (tk : SessionTask) × (s1 : Session) × (find_key (get32 16 segment) s.tasks ≡ some tk)
    × (1 ≤ tk.received.erl)
    × (s1.tasks ≡ s.tasks)
    × (round ≡ stored (retry_same_connection stamp env tk s1))
Settled stamp env p segment s panicked = ⊥
