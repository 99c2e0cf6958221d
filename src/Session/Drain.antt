-- ===== src/Session/Drain.antt =====
-- internal/session/session.go: Drain, up to its `select` and after the end of its context. The channel
-- drainDone is `drain_waits` while it is set and open; `drained` tells whether it was closed.
pub mod Results
mod Tests
use uiscsi.Common.{true, false, length, ◌==◌, if◌then◌else◌}
use uiscsi.Session.State.{Session}

-- ErrSessionDraining, nil at once, or a wait for drainDone.
pub data Draining : Type 0 where
  already_draining nothing_to_drain waiting : Draining

unfoldable pub drain : Session → Draining × Session
drain s =
    if s.draining
    then (already_draining, s)
    else if length s.tasks == 0
    then (nothing_to_drain, s)
    else (waiting, record s { draining = true; drain_waits = true; drained = false })

-- The context of Drain is done.
unfoldable pub drain_expired : Session → Session
drain_expired s = record s { draining = false; drain_waits = false }
