-- ===== src/Session/Drain/Results.antt =====
-- internal/session/session.go: Drain waits exactly as long as there are tasks.
use uiscsi.Common.{
  ℕ, ◌<◌, ◌≡◌, ◌⊎◌, inl, inr, refl, Bool, true, false, List, [], ◌∷◌, length, ◌==◌, Bool-cases,
  arith,
}
use uiscsi.Common.Maps.{delete_key, length-delete}
use uiscsi.Common.Integers.{ℤ}
use uiscsi.Transport.Framer.{RawPdu}
use uiscsi.Session.Command.{Command}
use uiscsi.Session.State.{Session, cleanup_task, forget_task}
use uiscsi.Session.Submit.{refused, session_draining, submit_task}
use uiscsi.Session.Drain.{waiting, drain}

-- The tasks with these tags end, one after the other.
abbrev pub clean_up_all : List ℕ → Session → Session
clean_up_all [] s = s
clean_up_all (itt ∷ itts) s = clean_up_all itts (cleanup_task itt s)

-- drainDone is open while there are tasks, and closed when there is none.
pub record IsDraining (s : Session) : Type 0 where
  pub draining : s.draining ≡ true
  pub waits_for_tasks :
      ((0 < length s.tasks) × (s.drain_waits ≡ true) × (s.drained ≡ false))
      ⊎ ((length s.tasks ≡ 0) × (s.drain_waits ≡ false) × (s.drained ≡ true))

cleanup_task-IsDraining : (itt : ℕ) (s : Session) → IsDraining s → IsDraining (cleanup_task itt s)
unfolding cleanup_task forget_task
cleanup_task-IsDraining itt s d =
    let draining = d.draining in
    let fewer = length-delete itt s.tasks in
    elim (d.waits_for_tasks) [
      | inl (some_task, waits, is_open) ↦ elim (Bool-cases (length (delete_key itt s.tasks) == 0)) [
        | inl last ↦
            rw (d.draining, last, waits)
              (record { draining = refl; waits_for_tasks = inr (ground arith, refl, refl) })
        | inr more ↦
            rw (d.draining, more)
              (record { draining = refl; waits_for_tasks = inl (ground arith, waits, is_open) })
      ]
      | inr (no_task, closed, was_closed) ↦
          elim (Bool-cases (length (delete_key itt s.tasks) == 0)) [
            | inl last ↦
                rw (d.draining, last, closed)
                  (record {
                    draining = refl;
                    waits_for_tasks = inr (ground arith, refl, was_closed);
                  })
            | inr more ↦ absurd (ground arith)
          ]
    ]

clean_up_all-IsDraining :
    (itts : List ℕ) (s : Session) → IsDraining s → IsDraining (clean_up_all itts s)
clean_up_all-IsDraining [] s d = d
clean_up_all-IsDraining (itt ∷ itts) s d =
    clean_up_all-IsDraining itts (cleanup_task itt s) (cleanup_task-IsDraining itt s d)

-- Drain of a session that has tasks, is not draining yet and is not recovering waits, and Submit and
-- SubmitStreaming are then refused. Let the task loops clean up any tags in any order, with no Submit
-- under way: as long as a task is left, Drain waits on, and when none is left, drainDone is closed.
pub drain-IsDraining :
    (s : Session) (itts : List ℕ) (stamp : RawPdu → RawPdu) (exp_stat_sn : ℕ → ℕ) (depth : ℤ)
    (takes : Bool) (cmd : Command)
    → s.draining ≡ false
    → s.recovering ≡ false
    → 0 < length s.tasks
    → ((drain s).0 ≡ waiting)
      × ((submit_task stamp exp_stat_sn depth takes cmd (drain s).1).0 ≡ refused session_draining)
      × IsDraining (clean_up_all itts (drain s).1)
unfolding drain submit_task
drain-IsDraining s itts stamp exp_stat_sn depth takes cmd not_yet not_recovering some_task =
    let more : (length s.tasks == 0) ≡ false = ground arith in
    rw (not_yet, more)
      (
        refl,
        rw not_recovering refl,
        clean_up_all-IsDraining itts _
            (record { draining = refl; waits_for_tasks = inl (some_task, refl, refl) }),
      )
