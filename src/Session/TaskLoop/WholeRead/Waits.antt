-- ===== src/Session/TaskLoop/WholeRead/Waits.antt =====
-- internal/session/session.go: taskLoop goes on until the last PDU of the read.
use uiscsi.Common.{
  ℕ, suc, ◌<◌, ◌≡◌, ◌⊎◌, inl, inr, refl, ◌∙◌, subst, true, false, Option, some, none, List, [], ◌∷◌,
  All, arith,
}
use uiscsi.Pdu.Target.Transfers.{DataIn}
use uiscsi.Transport.Framer.{RawPdu}
use uiscsi.Session.ReadTask.{ReadTask}
use uiscsi.Session.DataIn.{handle_data_in}
use uiscsi.Session.DataIn.Reassembly.{IsSplit, IsWaiting, Has, Handled}
use uiscsi.Session.DataIn.Reassembly.Reads.{read_from, read_from-IsWaiting}
use uiscsi.Session.DataIn.Reassembly.Arrival.{handle_data_in-Handled}
use uiscsi.Session.DataIn.Reassembly.Quiet.{IsQuiet, Quietly, handle_data_in-Quietly}
use uiscsi.Session.State.{Session, SessionTask}
use uiscsi.Session.TaskLoop.{
  Round, goes_on, returned, panicked, Peers, around_of, after_data_in, stored,
}
use uiscsi.Session.TaskLoop.WholeRead.{
  Event, arrives, reads, Arrived, Carries, task_loop, updated, task_round-data_in,
  read_from-IsQuiet,
}

-- The PDUs that the task sent are in the write channel.
abbrev pub handed_over : ReadTask → ReadTask
handed_over t = record t { sent = [] }

-- The read's PDUs are those of `src`, and number `m` is the last one.
module _ (stamp : RawPdu → RawPdu) (exp_stat_sn : ℕ → ℕ) (src : ℕ → DataIn) (m itt : ℕ) where
  -- Every PDU is one of those before the last, and the write channel takes every SNACK.
  abbrev pub IsSound : Event → Type 0
  IsSound (arrives env raw k) = (k < m) × (env.write_accepts ≡ true) × Carries raw (src k)
  IsSound (reads j) = Unit

  handed_over-IsWaiting :
      (c : List ℕ) (t : ReadTask)
      → IsWaiting src (suc m) c t
      → IsWaiting src (suc m) c (handed_over t)
  handed_over-IsWaiting c t w =
      let p = w.part in
      record {
        part = record {
          in_range = p.in_range;
          offset = p.offset;
          prefix = p.prefix;
          is_open = p.is_open;
          ours = p.ours;
          no_result = p.no_result;
          not_done = p.not_done;
          recovers = p.recovers;
        };
        more = w.more;
        drained = w.drained;
      }

  -- The loop goes on, with all PDUs that the task had at the start `t` and those of the events.
  abbrev pub Waits : ReadTask → List Event → List ℕ × Round → Type 0
  Waits t es (c, goes_on tk s) =
      IsWaiting src (suc m) c tk.received
      × IsQuiet itt tk.received
      × ((j : ℕ) → Has src (suc m) j t → Has src (suc m) j tk.received)
      × ((j : ℕ) → Arrived j es → Has src (suc m) j tk.received)
  Waits t es (c, returned tk s) = ⊥
  Waits t es (c, panicked) = ⊥

  earlier-Waits :
      (es fs : List Event) (t t1 : ReadTask) (o : List ℕ × Round)
      → ((j : ℕ) → Has src (suc m) j t → Has src (suc m) j t1)
      → ((j : ℕ) → Arrived j es → Has src (suc m) j t1 ⊎ Arrived j fs)
      → Waits t1 fs o
      → Waits t es o
  earlier-Waits es fs t t1 (c, goes_on tk s) keeps comes (w, q, more, arrived) = (
    w,
    q,
    λ j had. more j (keeps j had),
    λ j now. elim (comes j now) [ inl had ↦ more j had | inr later ↦ arrived j later ],
  )
  earlier-Waits es fs t t1 (c, returned tk s) keeps comes h = h
  earlier-Waits es fs t t1 (c, panicked) keeps comes h = h

  -- A PDU that is not the last does not end the loop.
  after_data_in-Waits :
      (es : List Event) (c : List ℕ) (env : Peers) (raw : RawPdu) (k : ℕ) (tk : SessionTask)
      (s : Session) (o : Option ReadTask)
      → env.write_accepts ≡ true
      → (src k).has_status ≡ false
      → Handled src (suc m) c (around_of env s) tk.received k o
      → Quietly itt o
      → ((tk1 : SessionTask) (s1 : Session)
          → IsWaiting src (suc m) c tk1.received
          → IsQuiet itt tk1.received
          → Waits tk1.received es (task_loop stamp exp_stat_sn es c (goes_on tk1 s1)))
      → Waits tk.received
          (arrives env raw k ∷ es)
          (task_loop stamp exp_stat_sn es c (stored (after_data_in (src k) tk o s)))
  after_data_in-Waits es c env raw k tk s none accepts status h q rest = absurd h
  after_data_in-Waits es c env raw k tk s (some t1) accepts status (inl (w, keeps, has)) q rest =
      rw status (
        earlier-Waits (arrives env raw k ∷ es) es tk.received (handed_over t1) _ keeps
          (λ j comes. elim comes [
            | inl now ↦ inl (subst (λ z. Has src (suc m) z t1) now has)
            | inr later ↦ inr later
          ])
          (rest (record tk { received = handed_over t1 }) _ (handed_over-IsWaiting c t1 w)
            (record {
              same_itt = q.same_itt;
              no_status = q.no_status;
              only_errors = q.only_errors;
            })))
  after_data_in-Waits es c env raw k tk s (some t1) accepts status (inr (inl done)) q rest =
      absurd ((rw done.only at q.only_errors).0 (done.of_last m refl).succeeds)
  after_data_in-Waits es c env raw k tk s (some t1) accepts status (inr (inr (refuses, lost))) q
        rest =
      cc

  pub task_loop-Waits :
      (es : List Event) (c : List ℕ) (tk : SessionTask) (s : Session)
      → IsSplit src (suc m)
      → All IsSound es
      → IsWaiting src (suc m) c tk.received
      → IsQuiet itt tk.received
      → Waits tk.received es (task_loop stamp exp_stat_sn es c (goes_on tk s))
  task_loop-Waits [] c tk s split sound w q = (w, q, λ j had. had, λ j gone. absurd gone)
  task_loop-Waits (reads j ∷ es) c tk s split (_, sound) w q =
      let t = tk.received in
      let (w', keeps, _) = read_from-IsWaiting src (suc m) j c t t.sink refl w in
      let t' = (read_from j c t t.sink).1 in
      earlier-Waits (reads j ∷ es) es t t' _ keeps (λ i later. inr later)
        (task_loop-Waits es _ (record tk { received = t' }) _ split sound w'
          (read_from-IsQuiet itt j c t t.sink q))
  task_loop-Waits (arrives env raw k ∷ es) c tk s split ((below, accepts, carries), sound) w q =
      let d = src k in
      let status : d.has_status ≡ false = split.status_last k ∙ ground arith in
      let s2 = updated d s in
      let o = handle_data_in (around_of env s2) d tk.received in
      rw (task_round-data_in stamp env exp_stat_sn raw d tk s carries) (
        after_data_in-Waits es c env raw k tk s2 o accepts status
          (handle_data_in-Handled src (suc m) c (around_of env s2) tk.received k split w
            (omega arith))
          (handle_data_in-Quietly itt (around_of env s2) d tk.received status q)
          (λ tk1 s1 w1 q1. task_loop-Waits es c tk1 s1 split sound w1 q1))
