-- ===== src/Session/DataIn/Reassembly/Quiet.antt =====
-- internal/session/datain.go, snack.go: a task that gets no PDU with status sends no result but an
-- error.
use uiscsi.Common.{
  ℕ, zero, suc, ◌≡◌, subst, some-injective, false, Option, some, none, List, [], ◌∷◌, ◌++◌, inl,
  inr, length, ltb, leb, ◌==◌, not, ◌&&◌, All, Option-cases, Bool-cases, if-elim,
}
use uiscsi.Common.Maps.{find_key, put_key, delete_key}
use uiscsi.Pdu.Target.Transfers.{DataIn}
use uiscsi.Transport.Framer.{RawPdu}
use uiscsi.Session.ReadTask.{ReadTask, TaskError, TaskResult, SnackError, Around, write_data}
use uiscsi.Session.Snack.{
  on_pending, consume, drain_loop, drain_pending_data_in, reset_snack_timer, start_snack_timer,
}
use uiscsi.Session.DataIn.{
  keep_pending, gap_answer, handle_gap, fail_task, acknowledge_data, after_data, handle_in_order,
  handle_received, handle_data_in,
}
use uiscsi.Session.DataIn.Reassembly.{pending_of}

abbrev pub IsStatusless : List (ℕ × DataIn) → Type 0
IsStatusless m = All (λ e. e.1.has_status ≡ false) m

abbrev pub AreErrors : List TaskResult → Type 0
AreErrors rs = All (λ r. ¬ (r.failure ≡ none)) rs

find-IsStatusless :
    (k : ℕ) (m : List (ℕ × DataIn)) (d : DataIn)
    → IsStatusless m
    → find_key k m ≡ some d
    → d.has_status ≡ false
unfolding find_key
find-IsStatusless k [] d h found = absurd cc
find-IsStatusless k ((i, e) ∷ m) d h found = elim (Bool-cases (i == k)) [
  | inl is_k ↦
      let is_e : e ≡ d = some-injective (rw is_k at found) in
      subst (λ z. z.has_status ≡ false) is_e h.0
  | inr not_k ↦ find-IsStatusless k m d h.1 (rw not_k at found)
]

delete-IsStatusless :
    (k : ℕ) (m : List (ℕ × DataIn)) → IsStatusless m → IsStatusless (delete_key k m)
unfolding delete_key
delete-IsStatusless k [] h = tt
delete-IsStatusless k ((i, d) ∷ m) h =
    if-elim IsStatusless (i == k) (delete-IsStatusless k m h.1) (h.0, delete-IsStatusless k m h.1)

put-IsStatusless :
    (k : ℕ) (d : DataIn) (m : List (ℕ × DataIn))
    → d.has_status ≡ false
    → IsStatusless m
    → IsStatusless (put_key k d m)
unfolding put_key
put-IsStatusless k d m s h = (s, delete-IsStatusless k m h)

append-AreErrors :
    (rs : List TaskResult) (r : TaskResult)
    → AreErrors rs
    → ¬ (r.failure ≡ none)
    → AreErrors (rs ++ (r ∷ []))
append-AreErrors [] r h e = (e, tt)
append-AreErrors (x ∷ rs) r h e = (h.0, append-AreErrors rs r h.1 e)

-- No PDU that waits has status, and no result but an error was sent.
pub record IsQuiet (itt : ℕ) (t : ReadTask) : Type 0 where
  pub same_itt : t.itt ≡ itt
  pub no_status : IsStatusless (pending_of t)
  pub only_errors : AreErrors t.results

module _ (itt : ℕ) where
  abbrev pub Quietly : Option ReadTask → Type 0
  Quietly none = Unit
  Quietly (some t) = IsQuiet itt t

  consume-Quietly : (d : DataIn) (t : ReadTask) → IsQuiet itt t → Quietly (consume d t)
  unfolding consume
  consume-Quietly d t q = elim (Option-cases (write_data d.payload t.sink)) [
    | inl panics ↦ rw (consume, panics) tt
    | inr (s, written) ↦
        rw (consume, written)
          (record { same_itt = q.same_itt; no_status = q.no_status; only_errors = q.only_errors })
  ]

  drain_loop-Quietly : (fuel : ℕ) (t : ReadTask) → IsQuiet itt t → Quietly (drain_loop fuel t)
  unfolding drain_loop
  drain_loop-Quietly zero t q = tt
  drain_loop-Quietly (suc fuel) t q = elim (Option-cases (find_key t.next_data_sn (pending_of t))) [
    | inl not_there ↦ rw (drain_loop, not_there) q
    | inr (d, there) ↦
        let t0 = on_pending (delete_key d.data_sn) t in
        let q0 : IsQuiet itt t0 = record {
          same_itt = q.same_itt;
          no_status = delete-IsStatusless d.data_sn (pending_of t) q.no_status;
          only_errors = q.only_errors;
        } in
        let status = find-IsStatusless t.next_data_sn (pending_of t) d q.no_status there in
        elim (Option-cases (consume d t0)) [
          | inl panics ↦ rw (drain_loop, there, panics) tt
          | inr (t1, consumed) ↦
              let q1 : IsQuiet itt t1 = subst Quietly consumed (consume-Quietly d t0 q0) in
              rw (drain_loop, there, consumed, status) (drain_loop-Quietly fuel t1 q1)
        ]
  ]

  fail_task-IsQuiet : (e : TaskError) (t : ReadTask) → IsQuiet itt t → IsQuiet itt (fail_task e t)
  fail_task-IsQuiet e t q = record {
    same_itt = q.same_itt;
    no_status = q.no_status;
    only_errors = append-AreErrors t.results _ q.only_errors (λ h. cc);
  }

  gap_answer-IsQuiet :
      (a : Option SnackError × List RawPdu) (t : ReadTask)
      → IsQuiet itt t
      → IsQuiet itt (gap_answer a t)
  gap_answer-IsQuiet (none, pdus) t q = record {
    same_itt = q.same_itt;
    no_status = q.no_status;
    only_errors = q.only_errors;
  }
  gap_answer-IsQuiet (some e, pdus) t q = record {
    same_itt = q.same_itt;
    no_status = q.no_status;
    only_errors = append-AreErrors t.results _ q.only_errors (λ h. cc);
  }

  handle_gap-IsQuiet :
      (env : Around) (d : DataIn) (t : ReadTask)
      → d.has_status ≡ false
      → IsQuiet itt t
      → IsQuiet itt (handle_gap env d t)
  unfolding handle_gap
  handle_gap-IsQuiet env d t status q = gap_answer-IsQuiet _ (keep_pending d t) (record {
    same_itt = q.same_itt;
    no_status = put-IsStatusless d.data_sn d (pending_of t) status q.no_status;
    only_errors = q.only_errors;
  })

  after_data-Quietly :
      (env : Around) (d : DataIn) (t : ReadTask)
      → d.has_status ≡ false
      → IsQuiet itt t
      → Quietly (after_data env d t)
  unfolding after_data drain_pending_data_in
  after_data-Quietly env d t status q = elim (Bool-cases (ltb 0 (length (pending_of t)))) [
    | inl some_pending ↦
        let o = drain_loop (suc (length (pending_of t))) t in
        elim (Option-cases o) [
          | inl panics ↦ rw (some_pending, panics) tt
          | inr (t1, drained) ↦
              let q1 : IsQuiet itt t1 = subst Quietly drained (drain_loop-Quietly _ t q) in
              rw (some_pending, drained, status)
                (if-elim Quietly (not env.all_received && ltb 0 (length t1.results)) q1 q1)
        ]
    | inr none_pending ↦ rw (none_pending, status) q
  ]

  handle_received-Quietly :
      (env : Around) (d : DataIn) (t : ReadTask)
      → d.has_status ≡ false
      → IsQuiet itt t
      → Quietly (handle_received env d t)
  unfolding handle_received handle_in_order acknowledge_data
  handle_received-Quietly env d t status q =
      if-elim Quietly (not (d.data_sn == t.next_data_sn))
        (if-elim (IsQuiet itt) (leb 1 t.erl) (handle_gap-IsQuiet env d t status q)
          (fail_task-IsQuiet _ t q))
        (if-elim Quietly (not (d.buffer_offset == t.next_offset)) (fail_task-IsQuiet _ t q)
          (elim (Option-cases (consume d t)) [
            | inl panics ↦ rw (handle_in_order, panics) tt
            | inr (t1, consumed) ↦
                let q1 : IsQuiet itt t1 = subst Quietly consumed (consume-Quietly d t q) in
                rw (handle_in_order, consumed)
                  (after_data-Quietly env d (acknowledge_data env d t1) status (record {
                    same_itt = q1.same_itt;
                    no_status = q1.no_status;
                    only_errors = q1.only_errors;
                  }))
          ]))

  pub handle_data_in-Quietly :
      (env : Around) (d : DataIn) (t : ReadTask)
      → d.has_status ≡ false
      → IsQuiet itt t
      → Quietly (handle_data_in env d t)
  unfolding handle_data_in reset_snack_timer start_snack_timer
  handle_data_in-Quietly env d t status q = handle_received-Quietly env d _ status (
      if-elim (IsQuiet itt) (leb 1 t.erl && ltb 0 t.snack_timeout)
        (record { same_itt = q.same_itt; no_status = q.no_status; only_errors = q.only_errors }) q)
