-- ===== src/Session/DataIn/Reassembly/Steps.antt =====
-- internal/session/datain.go, snack.go: the steps of handleDataIn keep the reassembly.
use uiscsi.Common.{
  ℕ, suc, ◌+◌, ◌%◌, ◌^◌, ◌<◌, ◌≡◌, refl, sym, ap, ◌∙◌, subst, Option, some, none, List, [], ◌∷◌,
  ◌++◌, length, All, append_assoc, append-nil, length-append, arith,
}
use native.Mathlib.Nat.{mod-eq_of_lt}
use uiscsi.Pdu.Target.Transfers.{DataIn}
use uiscsi.Session.ChanReader.{ChanReader, send, close}
use uiscsi.Session.ChanReader.Streams.{concat, concat-append}
use uiscsi.Session.ReadTask.{ReadTask, Sink, no_sink, buffer, stream, write_data, deliver_result}
use uiscsi.Session.Snack.{consume, finish, finish_into, status_result, stop_snack_timer}
use uiscsi.Session.DataIn.Reassembly.{
  contents, IsOpen, IsStatusOf, bytes, IsSplit, IsPartial, IsComplete, Gives,
}

All-snoc :
    {A : Type 0} (P : A → Type 0) (xs : List A) (y : A) → All P xs → P y → All P (xs ++ (y ∷ []))
All-snoc P [] y h p = (p, tt)
All-snoc P (x ∷ xs) y h p = (h.0, All-snoc P xs y h.1 p)

concat_one : (xs : List ℕ) → concat (xs ∷ []) ≡ xs
concat_one xs = append-nil xs

-- Data written to an open sink stands behind what it holds.
pub write_data-IsOpen :
    (d : List ℕ) (s : Sink)
    → IsOpen s
    → (s' : Sink) × (write_data d s ≡ some s') × IsOpen s' × (contents s' ≡ contents s ++ d)
unfolding write_data send
write_data-IsOpen [] s h = (s, refl, h, sym (append-nil (contents s)))
write_data-IsOpen (x ∷ xs) no_sink h = absurd h
write_data-IsOpen (x ∷ xs) (buffer b) h = (buffer (b ++ (x ∷ xs)), refl, tt, refl)
write_data-IsOpen (x ∷ xs) (stream cr) (is_open, no_error, is_stream) =
    let cr' : ChanReader _ = record cr { ch = cr.ch ++ ((x ∷ xs) ∷ []) } in
    (
      stream cr',
      rw is_open refl,
      (
        is_open,
        no_error,
        record { chunks_carry = All-snoc _ cr.ch (x ∷ xs) is_stream.chunks_carry (omega arith) },
      ),
      ap (◌++◌ cr.current)
            (concat-append cr.ch ((x ∷ xs) ∷ []) ∙ ap (◌++◌ (concat cr.ch)) (concat_one (x ∷ xs)))
          ∙ sym (append_assoc cr.current _ _),
    )

module _ (src : ℕ → DataIn) (n : ℕ) where
  -- The PDU whose turn it is is consumed.
  pub consume-IsPartial :
      (c : List ℕ) (t : ReadTask)
      → IsSplit src n
      → IsPartial src n c t
      → t.next_data_sn < n
      → (t' : ReadTask) × (consume (src t.next_data_sn) t ≡ some t')
        × IsPartial src n c t'
        × (t'.next_data_sn ≡ suc t.next_data_sn)
        × (t'.snack ≡ t.snack)
  unfolding consume
  consume-IsPartial c t split p h =
      let k = t.next_data_sn in
      let d = (src k).payload in
      let (s', written, is_open', held) = write_data-IsOpen d t.sink p.is_open in
      let next : (k + 1) % 2 ^ 32 ≡ suc k =
        mod-eq_of_lt (omega (arith, split.count)) ∙ omega arith in
      let total : length (bytes src n (suc k)) ≡ length (bytes src n k) + length d =
        length-append (bytes src n k) d in
      let offset : (t.next_offset + length d) % 2 ^ 32 ≡ length (bytes src n (suc k)) =
        mod-eq_of_lt (omega (arith, total, p.offset, split.size (suc k) (omega arith)))
        ∙ omega (arith, total, p.offset) in
      let t' : ReadTask = record t {
        sink = s';
        next_data_sn = (k + 1) % 2 ^ 32;
        next_offset = (t.next_offset + length d) % 2 ^ 32;
      } in
      (
        t',
        rw (consume, written) refl,
        record {
          in_range = omega (arith, next);
          offset = offset ∙ ap (λ z. length (bytes src n z)) (sym next);
          prefix =
              ap (◌++◌ c) held
              ∙ sym (append_assoc c _ _)
              ∙ ap (λ z. z ++ d) p.prefix
              ∙ ap (bytes src n) (sym next);
          is_open = is_open';
          ours = p.ours;
          no_result = p.no_result;
          not_done = p.not_done;
          recovers = p.recovers;
        },
        next,
        refl,
      )

  status_result-IsStatusOf :
      (k j : ℕ) (payload : Option (List ℕ))
      → suc k ≡ n
      → suc j ≡ n
      → IsStatusOf (src j) (status_result (src k) payload)
  status_result-IsStatusOf k j payload last is_last =
      let same : k ≡ j = omega arith in
      subst (λ z. IsStatusOf (src z) (status_result (src k) payload)) same
        (record {
          succeeds = refl;
          same_status = refl;
          same_overflow = refl;
          same_underflow = refl;
          same_count = refl;
        })

  finish_into-IsComplete :
      (c : List ℕ) (t : ReadTask) (k : ℕ) (s : Sink)
      → t.sink ≡ s
      → IsOpen s
      → c ++ contents s ≡ bytes src n n
      → t.results ≡ []
      → suc k ≡ n
      → (t' : ReadTask) × (finish_into (src k) s t ≡ some t') × IsComplete src n c t'
  unfolding close
  finish_into-IsComplete c t k no_sink same h all fresh last = absurd h
  finish_into-IsComplete c t k (buffer b) same h all fresh last = (
    deliver_result (status_result (src k) (some b)) t,
    refl,
    record {
      result = status_result (src k) (some b);
      only = ap (λ z. z ++ (status_result (src k) (some b) ∷ [])) fresh;
      of_last = λ j is_last. status_result-IsStatusOf k j (some b) last is_last;
      all_data = subst (λ z. Gives src n c z (some b)) (sym same) all;
    },
  )
  finish_into-IsComplete c t k (stream cr) same (is_open, no_error, is_stream) all fresh last =
      let r = status_result (src k) none in
      (
        deliver_result r (record t { sink = stream (close cr) }),
        refl,
        record {
          result = r;
          only = ap (λ z. z ++ (r ∷ [])) fresh;
          of_last = λ j is_last. status_result-IsStatusOf k j none last is_last;
          all_data =
              rw is_open (all, refl, no_error, record { chunks_carry = is_stream.chunks_carry });
        },
      )

  pub finish-IsComplete :
      (c : List ℕ) (t : ReadTask) (k : ℕ)
      → IsPartial src n c t
      → t.next_data_sn ≡ n
      → suc k ≡ n
      → (t' : ReadTask) × (finish (src k) t ≡ some t') × IsComplete src n c t'
  unfolding finish stop_snack_timer
  finish-IsComplete c t k p all last =
      finish_into-IsComplete c (stop_snack_timer t) k t.sink refl p.is_open
        (p.prefix ∙ ap (bytes src n) all) p.no_result last
