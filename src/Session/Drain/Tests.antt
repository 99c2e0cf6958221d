-- ===== src/Session/Drain/Tests.antt =====
-- internal/session/session.go: a session with two tasks is drained.
use uiscsi.Common.{◌≡◌, refl, true, [], ◌∷◌, arith}
use uiscsi.Common.Integers.{pos}
use uiscsi.Session.State.{Session}
use uiscsi.Session.Submit.{refused, session_draining, submit_task}
use uiscsi.Session.TaskLoop.Tests.{session, plain, nine, task}
use uiscsi.Session.Drain.{waiting, drain}
use uiscsi.Session.Drain.Results.{clean_up_all, IsDraining, drain-IsDraining}

abbrev busy : Session
busy = record session { tasks = (5, task) ∷ (6, task) ∷ [] }

drain-IsDraining_example :
    ((drain busy).0 ≡ waiting)
    × ((submit_task plain nine (pos 0) true task.cmd (drain busy).1).0 ≡ refused session_draining)
    × IsDraining (clean_up_all (6 ∷ 5 ∷ []) (drain busy).1)
drain-IsDraining_example =
    drain-IsDraining busy (6 ∷ 5 ∷ []) plain nine (pos 0) true task.cmd refl refl (omega arith)
