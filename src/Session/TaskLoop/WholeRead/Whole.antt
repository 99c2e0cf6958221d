-- ===== src/Session/TaskLoop/WholeRead/Whole.antt =====
-- internal/session/session.go: the last PDU of the read ends taskLoop, with the read complete.
use uiscsi.Common.{
  ℕ, suc, ◌<◌, ◌≤◌, ◌≡◌, inl, inr, refl, sym, ◌∙◌, subst, true, Option, some, none, List, [], ◌∷◌,
  ◌++◌, All, arith,
}
use uiscsi.Common.Integers.{ℤ}
use native.Mathlib.Decide.{ℕ_discrete}
use uiscsi.Pdu.Target.Transfers.{DataIn}
use uiscsi.Transport.Framer.{RawPdu}
use uiscsi.Session.ReadTask.{ReadTask}
use uiscsi.Session.DataIn.{handle_data_in}
use uiscsi.Session.DataIn.Reassembly.{IsSplit, IsWaiting, IsComplete, Has, Handled}
use uiscsi.Session.DataIn.Reassembly.Reads.{read_from, read_from-IsComplete}
use uiscsi.Session.DataIn.Reassembly.Arrival.{handle_data_in-Handled}
use uiscsi.Session.DataIn.Reassembly.Quiet.{IsQuiet}
use uiscsi.Session.DataIn.Reassembly.Start.{reading, reading-IsWaiting, reading-IsQuiet}
use uiscsi.Session.State.{Session, SessionTask, cleanup_task, enqueue}
use uiscsi.Session.TaskLoop.{
  Round, goes_on, returned, panicked, Peers, around_of, after_data_in, stored,
}
use uiscsi.Session.TaskLoop.Results.{IsUnknown, cleanup_task-IsUnknown}
use uiscsi.Session.TaskLoop.WholeRead.{
  Event, arrives, reads, Arrived, Carries, task_loop, task_loop-append, updated, task_round-data_in,
}
use uiscsi.Session.TaskLoop.WholeRead.Waits.{IsSound, Waits, task_loop-Waits, handed_over}

-- The read's PDUs are those of `src`, and number `m` is the last one.
module _ (stamp : RawPdu → RawPdu) (exp_stat_sn : ℕ → ℕ) (src : ℕ → DataIn) (m itt : ℕ) where
  -- The loop has returned with one right result, and the tag is forgotten.
  abbrev pub Finished : List ℕ × Round → Type 0
  Finished (c, goes_on tk s) = ⊥
  Finished (c, returned tk s) = IsComplete src (suc m) c tk.received × IsUnknown itt s
  Finished (c, panicked) = ⊥

  task_loop-Finished :
      (es : List Event) (c : List ℕ) (tk : SessionTask) (s : Session)
      → IsComplete src (suc m) c tk.received
      → IsUnknown itt s
      → Finished (task_loop stamp exp_stat_sn es c (returned tk s))
  task_loop-Finished [] c tk s d u = (d, u)
  task_loop-Finished (reads j ∷ es) c tk s d u =
      let t = tk.received in
      let (d', _, _) = read_from-IsComplete src (suc m) j c t t.sink refl d in
      task_loop-Finished es _ (record tk { received = (read_from j c t t.sink).1 }) s d' u
  task_loop-Finished (arrives env raw k ∷ es) c tk s d u = task_loop-Finished es c tk s d u

  -- A task that has all PDUs does not wait.
  nothing_missing :
      (c : List ℕ) (t : ReadTask)
      → IsWaiting src (suc m) c t
      → ((j : ℕ) → j < suc m → Has src (suc m) j t)
      → ⊥
  nothing_missing c t w all =
      let missing = w.drained in
      elim (all t.next_data_sn w.more) [ inl below ↦ omega arith | inr found ↦ cc ]

  -- The last PDU ends the loop when all others are there.
  after_data_in-Finished :
      (es : List Event) (c : List ℕ) (env : Peers) (tk : SessionTask) (s : Session)
      (o : Option ReadTask)
      → env.write_accepts ≡ true
      → (src m).has_status ≡ true
      → IsQuiet itt tk.received
      → ((j : ℕ) → j < m → Has src (suc m) j tk.received)
      → Handled src (suc m) c (around_of env s) tk.received m o
      → Finished (task_loop stamp exp_stat_sn es c (stored (after_data_in (src m) tk o s)))
  after_data_in-Finished es c env tk s none accepts status q all h = absurd h
  after_data_in-Finished es c env tk s (some t1) accepts status q all (inl (w, keeps, has)) =
      absurd (
        nothing_missing c t1 w (λ j h. elim (ℕ_discrete j m) [
          | yes last ↦ subst (λ z. Has src (suc m) z t1) (sym last) has
          | no other ↦ keeps j (all j (omega arith))
        ]))
  after_data_in-Finished es c env tk s (some t1) accepts status q all (inr (inl done)) =
      let s1 = cleanup_task tk.received.itt (enqueue t1.sent s) in
      rw status (
        task_loop-Finished es c (record tk { received = handed_over t1 }) s1
          (record {
            result = done.result;
            only = done.only;
            of_last = done.of_last;
            all_data = done.all_data;
          })
          (subst (λ z. IsUnknown z s1) q.same_itt
            (cleanup_task-IsUnknown tk.received.itt (enqueue t1.sent s))))
  after_data_in-Finished es c env tk s (some t1) accepts status q all (inr (inr (refuses, lost))) =
      cc

  last_arrives :
      (es fs : List Event) (t0 : ReadTask) (env : Peers) (raw : RawPdu) (o : List ℕ × Round)
      → IsSplit src (suc m)
      → ((k : ℕ) → k < m → Arrived k es)
      → env.write_accepts ≡ true
      → Carries raw (src m)
      → Waits stamp exp_stat_sn src m itt t0 es o
      → Finished (task_loop stamp exp_stat_sn (arrives env raw m ∷ fs) o.0 o.1)
  last_arrives es fs t0 env raw (c, goes_on tk s) split all accepts carries (w, q, _, arrived) =
      let d = src m in
      let s2 = updated d s in
      rw (task_round-data_in stamp env exp_stat_sn raw d tk s carries) (
        after_data_in-Finished fs c env tk s2 (handle_data_in (around_of env s2) d tk.received)
          accepts (split.status_last m ∙ ground arith) q (λ j h. arrived j (all j h))
          (handle_data_in-Handled src (suc m) c (around_of env s2) tk.received m split w
            (omega arith)))
  last_arrives es fs t0 env raw (c, returned tk s) split all accepts carries h = absurd h
  last_arrives es fs t0 env raw (c, panicked) split all accepts carries h = absurd h

  -- A read, streaming or not, whose task was made at ErrorRecoveryLevel 1 or above: let the PDUs
  -- before the last arrive in any order, each at least once, some again and again, then the last
  -- one, which has the status, and then anything; let the caller read in between, and the write
  -- channel take every SNACK. Then the task loop has returned without a panic, on the last PDU, the
  -- task has sent exactly one result, with the status of that PDU, and its tag is forgotten; what
  -- the caller has read, followed by what is left to read, is the data of all PDUs in the order of
  -- their DataSNs. The PDUs carry on from each other, only the last has status, and the read is
  -- below 4 GiB.
  pub task_loop-IsWhole :
      (es fs : List Event) (env : Peers) (raw : RawPdu) (tk : SessionTask) (s : Session) (depth : ℤ)
      (erl snack_timeout : ℕ)
      → tk.received ≡ reading src (suc m) itt depth erl snack_timeout
      → IsSplit src (suc m)
      → 1 ≤ erl
      → All (IsSound stamp exp_stat_sn src m itt) es
      → ((k : ℕ) → k < m → Arrived k es)
      → env.write_accepts ≡ true
      → Carries raw (src m)
      → Finished (task_loop stamp exp_stat_sn (es ++ (arrives env raw m ∷ fs)) [] (goes_on tk s))
  task_loop-IsWhole es fs env raw tk s depth erl snack_timeout start split recovers sound all
        accepts carries =
      rw (task_loop-append stamp exp_stat_sn es (arrives env raw m ∷ fs) [] (goes_on tk s)) (
        last_arrives es fs tk.received env raw _ split all accepts carries (
          task_loop-Waits stamp exp_stat_sn src m itt es [] tk s split sound
            (subst (IsWaiting src (suc m) []) (sym start)
              (reading-IsWaiting src (suc m) itt depth erl snack_timeout (omega arith) recovers))
            (subst (IsQuiet itt) (sym start)
              (reading-IsQuiet src (suc m) itt depth erl snack_timeout))))
