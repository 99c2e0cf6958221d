-- ===== src/Session/DataIn/Reassembly/Drain.antt =====
-- internal/session/snack.go: drainPendingDataIn takes every PDU whose turn it is out of the map.
use uiscsi.Common.{
  some-injective, ℕ, zero, suc, ◌<◌, ◌≤◌, ◌≡◌, ◌⊎◌, inl, inr, refl, sym, ap, ◌∙◌, true, false,
  Option, some, none, List, [], ◌∷◌, length, ◌==◌, Option-cases, Bool-cases, arith,
}
use uiscsi.Common.Maps.{find_key, delete_key, find-delete_other, length-delete_found}
use native.Mathlib.Decide.{dec_lt, ℕ_discrete}
use uiscsi.Pdu.Target.Transfers.{DataIn}
use uiscsi.Session.ReadTask.{ReadTask}
use uiscsi.Session.Snack.{on_pending, drain_loop}
use uiscsi.Session.DataIn.Reassembly.{pending_of, IsSplit, IsOurs, IsPartial, IsComplete, Has}
use uiscsi.Session.DataIn.Reassembly.Steps.{consume-IsPartial, finish-IsComplete}

pub same_pending : (t t' : ReadTask) → t.snack ≡ t'.snack → pending_of t ≡ pending_of t'
same_pending t t' same = rw same refl

module _ (src : ℕ → DataIn) (n : ℕ) where
  pub delete-IsOurs :
      (k : ℕ) (m : List (ℕ × DataIn)) → IsOurs src n m → IsOurs src n (delete_key k m)
  unfolding delete_key
  delete-IsOurs k [] h = tt
  delete-IsOurs k ((i, d) ∷ m) h = elim (Bool-cases (i == k)) [
    | inl is_k ↦ rw is_k (delete-IsOurs k m h.1)
    | inr not_k ↦ rw not_k (h.0, delete-IsOurs k m h.1)
  ]

  find-IsOurs :
      (k : ℕ) (m : List (ℕ × DataIn)) (d : DataIn)
      → IsOurs src n m
      → find_key k m ≡ some d
      → (k < n) × (d ≡ src k)
  unfolding find_key
  find-IsOurs k [] d h found = cc
  find-IsOurs k ((i, e) ∷ m) d h found = elim (Bool-cases (i == k)) [
    | inl is_k ↦
        let same : i ≡ k = ground arith in
        let is_e : e ≡ d = some-injective (rw is_k at found) in
        (omega (arith, h.0.0), sym is_e ∙ h.0.1 ∙ ap src same)
    | inr not_k ↦ find-IsOurs k m d h.1 (rw not_k at found)
  ]

  -- What drainPendingDataIn leaves: everything is delivered, or the next PDU is not there.
  pub record IsDrained (c : List ℕ) (t t' : ReadTask) : Type 0 where
    pub part : IsPartial src n c t'
    pub drained : find_key t'.next_data_sn (pending_of t') ≡ none
    pub keeps : (j : ℕ) → Has src n j t → Has src n j t'
    pub forward : t.next_data_sn ≤ t'.next_data_sn
    pub below : (t.next_data_sn ≡ n) ⊎ (t'.next_data_sn < n)

  abbrev pub Drained : List ℕ → ReadTask → Option ReadTask → Type 0
  Drained c t none = ⊥
  Drained c t (some t') = IsDrained c t t' ⊎ ((t.next_data_sn < n) × IsComplete src n c t')

  round-Has :
      (t t1 : ReadTask) (k : ℕ)
      → k ≡ t.next_data_sn
      → t1.next_data_sn ≡ suc k
      → pending_of t1 ≡ delete_key k (pending_of t)
      → (j : ℕ) → Has src n j t
      → Has src n j t1
  round-Has t t1 k is_next next left j (inl below) = inl (omega arith)
  round-Has t t1 k is_next next left j (inr found) = elim (ℕ_discrete j k) [
    | yes same ↦ inl (omega arith)
    | no other ↦ inr (ap (find_key j) left ∙ find-delete_other j k (pending_of t) other ∙ found)
  ]

  after_round :
      (c : List ℕ) (t t1 : ReadTask) (o : Option ReadTask)
      → ((j : ℕ) → Has src n j t → Has src n j t1)
      → t.next_data_sn < n
      → (t.next_data_sn ≤ t1.next_data_sn) × (t1.next_data_sn < n)
      → Drained c t1 o
      → Drained c t o
  after_round c t t1 none keeps more ahead d = d
  after_round c t t1 (some t') keeps more (ahead, more1) (inl d) = inl (record {
    part = d.part;
    drained = d.drained;
    keeps = λ j had. d.keeps j (keeps j had);
    forward = omega (arith, d.forward);
    below = elim (d.below) [ inl all ↦ absurd (omega arith) | inr h ↦ inr h ];
  })
  after_round c t t1 (some t') keeps more ahead (inr (h, d)) = inr (more, d)

  -- The map without a PDU is one of ours again.
  taken :
      (c : List ℕ) (t : ReadTask)
      → IsPartial src n c t
      → IsPartial src n c (on_pending (delete_key (src t.next_data_sn).data_sn) t)
  taken c t p = record {
    in_range = p.in_range;
    offset = p.offset;
    prefix = p.prefix;
    is_open = p.is_open;
    ours = delete-IsOurs _ (pending_of t) p.ours;
    no_result = p.no_result;
    not_done = p.not_done;
    recovers = p.recovers;
  }

  pub drain_loop-Drained :
      (fuel : ℕ) (c : List ℕ) (t : ReadTask)
      → IsSplit src n
      → IsPartial src n c t
      → length (pending_of t) < fuel
      → Drained c t (drain_loop fuel t)
  unfolding drain_loop
  drain_loop-Drained zero c t split p h = absurd (omega arith)
  drain_loop-Drained (suc fuel) c t split p h =
      elim (Option-cases (find_key t.next_data_sn (pending_of t))) [
        | inl not_there ↦
            rw (drain_loop, not_there)
              (inl (record {
                part = p;
                drained = not_there;
                keeps = λ j had. had;
                forward = omega arith;
                below = elim (dec_lt t.next_data_sn n) [
                  | yes more ↦ inr more
                  | no all ↦ inl (omega (arith, p.in_range))
                ];
              }))
        | inr (din, there) ↦
            let k = t.next_data_sn in
            let (more, is_src) = find-IsOurs k (pending_of t) din p.ours there in
            let found : find_key k (pending_of t) ≡ some (src k) = there ∙ ap some is_src in
            let t0 = on_pending (delete_key (src k).data_sn) t in
            let (t1, consumed, p1, next, same) =
              consume-IsPartial src n c t0 split (taken c t p) more in
            let left : pending_of t1 ≡ delete_key k (pending_of t) =
              same_pending t1 t0 same ∙ ap (λ z. delete_key z (pending_of t)) (split.numbered k) in
            let fewer : length (delete_key k (pending_of t)) < length (pending_of t) =
              length-delete_found k (pending_of t) (src k) found in
            let fewer1 : length (pending_of t1) < fuel = omega (arith, ap length left) in
            elim (Bool-cases (suc k == n)) [
              | inl is_last ↦
                  let (t2, finished, done) =
                    finish-IsComplete src n c t1 k p1 (ground arith) (ground arith) in
                  let status : (src k).has_status ≡ true = split.status_last k ∙ is_last in
                  rw (drain_loop, found, consumed, status, finished) (inr (more, done))
              | inr not_last ↦
                  let status : (src k).has_status ≡ false = split.status_last k ∙ not_last in
                  rw (drain_loop, found, consumed, status)
                    (after_round c t t1 (drain_loop fuel t1) (round-Has t t1 k refl next left) more
                      (omega arith, ground arith) (drain_loop-Drained fuel c t1 split p1 fewer1))
            ]
      ]
