-- ===== src/Session/DataIn/Reassembly/Arrival.antt =====
-- internal/session/datain.go: handleDataIn of any PDU of the read keeps the reassembly.
use uiscsi.Common.{
  ℕ, suc, ◌<◌, ◌≡◌, ◌⊎◌, inl, inr, sym, ap, ◌∙◌, subst, Bool, true, false, Option, some, none, List,
  length, ltb, leb, ◌==◌, Bool-cases, if◌then◌else◌, not, ◌&&◌, arith,
}
use uiscsi.Common.Maps.{find_key, find-empty}
use native.Mathlib.Decide.{dec_lt, ℕ_discrete}
use uiscsi.Pdu.Target.Transfers.{DataIn}
use uiscsi.Session.ReadTask.{ReadTask, Around}
use uiscsi.Session.Snack.{finish, reset_snack_timer, start_snack_timer, drain_pending_data_in}
use uiscsi.Session.DataIn.{
  handle_in_order, handle_received, handle_data_in, after_data, after_drain, acknowledge_data,
}
use uiscsi.Session.DataIn.Reassembly.{pending_of, IsSplit, IsPartial, IsWaiting, Has, Handled}
use uiscsi.Session.DataIn.Reassembly.Gap.{handle_gap-Handled, and_false}
use uiscsi.Session.DataIn.Reassembly.Steps.{consume-IsPartial, finish-IsComplete}
use uiscsi.Session.DataIn.Reassembly.Drain.{drain_loop-Drained, Drained, same_pending}

module _ (src : ℕ → DataIn) (n : ℕ) where
  settle :
      (c : List ℕ) (env : Around) (t t1 : ReadTask) (k : ℕ)
      → IsSplit src n
      → IsPartial src n c t1
      → find_key t1.next_data_sn (pending_of t1) ≡ none
      → ((j : ℕ) → Has src n j t → Has src n j t1)
      → Has src n k t1
      → (suc k ≡ n) ⊎ (t1.next_data_sn < n)
      → (suc k ≡ n → t1.next_data_sn ≡ n)
      → Handled src n c env t k (if (src k).has_status then finish (src k) t1 else some t1)
  settle c env t t1 k split p drained keeps has below last = elim (Bool-cases (suc k == n)) [
    | inl is_last ↦
        let status : (src k).has_status ≡ true = split.status_last k ∙ is_last in
        let (t2, finished, done) =
          finish-IsComplete src n c t1 k p (last (ground arith)) (ground arith) in
        rw (finished, status) (inr (inl done))
    | inr not_last ↦
        let status : (src k).has_status ≡ false = split.status_last k ∙ not_last in
        rw status (
          inl (
            record {
              part = p;
              more = elim below [ inl l ↦ absurd (ground arith) | inr b ↦ b ];
              drained = drained;
            },
            keeps,
            has,
          ))
  ]

  acknowledge_data-IsPartial :
      (c : List ℕ) (env : Around) (t : ReadTask) (d : DataIn)
      → IsPartial src n c t
      → IsPartial src n c (acknowledge_data env d t)
  unfolding acknowledge_data
  acknowledge_data-IsPartial c env t d p = record {
    in_range = p.in_range;
    offset = p.offset;
    prefix = p.prefix;
    is_open = p.is_open;
    ours = p.ours;
    no_result = p.no_result;
    not_done = p.not_done;
    recovers = p.recovers;
  }

  after_drain-Handled :
      (c : List ℕ) (env : Around) (t t1 : ReadTask) (o : Option ReadTask)
      → IsSplit src n
      → ((j : ℕ) → Has src n j t → Has src n j t1)
      → t1.next_data_sn ≡ suc t.next_data_sn
      → Drained src n c t1 o
      → Handled src n c env t t.next_data_sn (after_drain true env (src t.next_data_sn) o)
  after_drain-Handled c env t t1 none split keeps next d = absurd d
  after_drain-Handled c env t t1 (some t2) split keeps next (inl d) =
      let k = t.next_data_sn in
      let quiet : (not env.all_received && ltb 0 (length t2.results)) ≡ false =
        rw d.part.no_result (and_false (not env.all_received)) in
      rw quiet (
        settle c env t t2 k split d.part d.drained (λ j had. d.keeps j (keeps j had))
          (d.keeps k (inl (omega arith)))
          (elim d.below [ inl all ↦ inl (omega arith) | inr more ↦ inr more ])
          (λ last. omega (arith, d.forward, d.part.in_range)))
  after_drain-Handled c env t t1 (some t2) split keeps next (inr (more, done)) =
      let status : (src t.next_data_sn).has_status ≡ false =
        split.status_last t.next_data_sn ∙ ground arith in
      elim (Bool-cases (not env.all_received && ltb 0 (length t2.results))) [
        | inl answered ↦ rw answered (inr (inl done))
        | inr quiet ↦ rw (quiet, status) (inr (inl done))
      ]

  after_data-Handled :
      (c : List ℕ) (env : Around) (t t1 : ReadTask)
      → IsSplit src n
      → IsWaiting src n c t
      → IsPartial src n c t1
      → t1.next_data_sn ≡ suc t.next_data_sn
      → t1.snack ≡ t.snack
      → Handled src n c env t t.next_data_sn (after_data env (src t.next_data_sn) t1)
  unfolding after_data drain_pending_data_in
  after_data-Handled c env t t1 split w p next same =
      let keeps : (j : ℕ) → Has src n j t → Has src n j t1 = λ j had. elim had [
        | inl below ↦ inl (omega arith)
        | inr found ↦ inr (ap (find_key j) (same_pending t1 t same) ∙ found)
      ] in
      elim (Bool-cases (ltb 0 (length (pending_of t1)))) [
        | inl some_pending ↦ rw some_pending (
            after_drain-Handled c env t t1 _ split keeps next
              (drain_loop-Drained src n _ c t1 split p (omega arith)))
        | inr none_pending ↦ rw none_pending (
            settle c env t t1 t.next_data_sn split p (find-empty _ _ (ground arith)) keeps
              (inl (omega arith))
              (elim (dec_lt t1.next_data_sn n) [
                | yes more ↦ inr more
                | no all ↦ inl (omega (arith, p.in_range))
              ])
              (λ last. omega arith))
      ]

  pub handle_received-Handled :
      (c : List ℕ) (env : Around) (t : ReadTask) (k : ℕ)
      → IsSplit src n
      → IsWaiting src n c t
      → k < n
      → Handled src n c env t k (handle_received env (src k) t)
  unfolding handle_received handle_in_order acknowledge_data
  handle_received-Handled c env t k split w h = elim (ℕ_discrete k t.next_data_sn) [
    | yes turn ↦
        subst (λ z. Handled src n c env t z (handle_received env (src z) t)) (sym turn)
          (let k = t.next_data_sn in
            let is_turn : ((src k).data_sn == k) ≡ true = rw (split.numbered k) (ground arith) in
            let placed : ((src k).buffer_offset == t.next_offset) ≡ true =
              rw (split.placed k, w.part.offset) (ground arith) in
            let (t1, consumed, p1, next, same) = consume-IsPartial src n c t split w.part w.more in
            rw (is_turn, placed, handle_in_order, consumed)
              (after_data-Handled c env t (acknowledge_data env (src k) t1) split w
                (acknowledge_data-IsPartial c env t1 (src k) p1) next same))
    | no other ↦
        let not_turn : ((src k).data_sn == t.next_data_sn) ≡ false =
          rw (split.numbered k) (ground arith) in
        let erl : leb 1 t.erl ≡ true = ground (arith, w.part.recovers) in
        rw (not_turn, erl) (handle_gap-Handled src n c env t k split w h other)
  ]

  reset-IsWaiting :
      (c : List ℕ) (env : Around) (t : ReadTask) (k : ℕ) (resets : Bool)
      → IsWaiting src n c t
      → IsWaiting src n c (if resets then reset_snack_timer t else t)
        × ((j : ℕ) → Has src n j t → Has src n j (if resets then reset_snack_timer t else t))
  unfolding reset_snack_timer start_snack_timer
  reset-IsWaiting c env t k false w = (w, λ j had. had)
  reset-IsWaiting c env t k true w =
      let p = w.part in
      (
        record {
          part = record {
            in_range = p.in_range;
            offset = p.offset;
            prefix = p.prefix;
            is_open = p.is_open;
            ours = p.ours;
            no_result = p.no_result;
            not_done = p.not_done;
            recovers = p.recovers;
          };
          more = w.more;
          drained = w.drained;
        },
        λ j had. had,
      )

  Handled-keeps :
      (c : List ℕ) (env : Around) (t t0 : ReadTask) (k : ℕ) (o : Option ReadTask)
      → ((j : ℕ) → Has src n j t → Has src n j t0)
      → Handled src n c env t0 k o
      → Handled src n c env t k o
  Handled-keeps c env t t0 k none keeps h = h
  Handled-keeps c env t t0 k (some t') keeps (inl (w, more, has)) =
      inl (w, λ j had. more j (keeps j had), has)
  Handled-keeps c env t t0 k (some t') keeps (inr over) = inr over

  -- A Data-In PDU of the read that arrives at a waiting task at ErrorRecoveryLevel 1 or above, in
  -- its turn, too early or again: handleDataIn does not panic, and either the task waits on, with
  -- this PDU and all that it had before, or it has sent one result, with the last PDU's status and
  -- with all data in order, or, only if the write channel did not take the SNACK, it gives up with
  -- an error and still holds the data so far in order. `c` is what the caller has read already. The
  -- PDUs carry on from each other, only the last has status, and the read is below 4 GiB.
  pub handle_data_in-Handled :
      (c : List ℕ) (env : Around) (t : ReadTask) (k : ℕ)
      → IsSplit src n
      → IsWaiting src n c t
      → k < n
      → Handled src n c env t k (handle_data_in env (src k) t)
  unfolding handle_data_in
  handle_data_in-Handled c env t k split w h =
      let resets = leb 1 t.erl && ltb 0 t.snack_timeout in
      let t0 : ReadTask = if resets then reset_snack_timer t else t in
      let (w0, keeps) = reset-IsWaiting c env t k resets w in
      Handled-keeps c env t t0 k (handle_received env (src k) t0) keeps
        (handle_received-Handled c env t0 k split w0 h)
