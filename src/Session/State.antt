-- ===== src/Session/State.antt =====
-- internal/session/session.go: the session's state and the operations that its handlers share. The
-- map `tasks` is an association list without repeated keys; a task stands in it with its present
-- state, as the map holds a pointer.
use uiscsi.Common.{
  ℕ, Bool, true, false, ◌&&◌, ◌||◌, Option, List, [], ◌∷◌, ◌++◌, length, ◌==◌, if◌then◌else◌,
}
use uiscsi.Common.Maps.{delete_key}
use uiscsi.Common.Integers.{ℤ}
use uiscsi.Serial.{incr, greater_than}
use uiscsi.Login.Params.{NegotiatedParams}
use uiscsi.Transport.Framer.{RawPdu}
use uiscsi.Transport.Router.{Router, unregister}
use uiscsi.Window.{Window}
use uiscsi.Session.DataOut.{Limits}
use uiscsi.Session.ReadTask.{ReadTask}
use uiscsi.Session.Command.{Command, Reader}

-- A task with what it needs to write and to be sent again; `reader` is at its present position.
pub record SessionTask : Type 0 where
  pub received : ReadTask
  pub lun : ℕ
  pub cmd : Command
  pub cmd_sn : ℕ
  pub reader : Option Reader
  pub bytes_sent : ℕ

-- `write_ch` are the PDUs that went into the write channel, `drain_waits` tells whether drainDone is
-- set, `drained` whether the last one was closed.
pub record Session : Type 0 where
  pub params : NegotiatedParams
  pub router : Router
  pub window : Window
  pub exp_stat_sn : ℕ
  pub tasks : List (ℕ × SessionTask)
  pub logged_in : Bool
  pub recovering : Bool
  pub draining : Bool
  pub drain_waits : Bool
  pub drained : Bool
  pub closed : Bool
  pub failed : Bool
  pub write_ch : List RawPdu
  pub stream_buf_depth : ℤ
  pub snack_timeout : ℕ

abbrev pub limits_of : NegotiatedParams → Limits
limits_of p = record {
  max_burst_length = p.max_burst_length;
  first_burst_length = p.first_burst_length;
  max_recv_data_segment_length = p.max_recv_data_segment_length;
}

-- The task in the map, where it is there, is the present one.
unfoldable pub refresh_task : ℕ → SessionTask → List (ℕ × SessionTask) → List (ℕ × SessionTask)
refresh_task k t [] = []
refresh_task k t ((j, u) ∷ m) =
    if j == k then (j, t) ∷ refresh_task k t m else (j, u) ∷ refresh_task k t m

-- The cleanup of Submit's error paths: `s.router.Unregister(itt)` and `delete(s.tasks, itt)`.
unfoldable pub forget_task : ℕ → Session → Session
forget_task itt s = record s { router = unregister itt s.router; tasks = delete_key itt s.tasks }

-- cleanupTask: a waiting Drain is woken when this was the last task.
unfoldable pub cleanup_task : ℕ → Session → Session
unfolding forget_task
cleanup_task itt s =
    let s1 = forget_task itt s in
    let last = s1.draining && (length s1.tasks == 0 && s1.drain_waits) in
    if last then record s1 { drain_waits = false; drained = true } else s1

unfoldable pub update_stat_sn : ℕ → Session → Session
update_stat_sn stat_sn s =
    let next = incr stat_sn in
    if greater_than next s.exp_stat_sn || next == s.exp_stat_sn
    then record s { exp_stat_sn = next }
    else s

-- `s.writeCh <- raw`
abbrev pub enqueue : List RawPdu → Session → Session
enqueue raws s = record s { write_ch = s.write_ch ++ raws }
