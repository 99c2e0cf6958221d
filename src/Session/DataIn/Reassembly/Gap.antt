-- ===== src/Session/DataIn/Reassembly/Gap.antt =====
-- internal/session/datain.go, snack.go: a PDU that is not the next is kept, and a SNACK is sent.
use uiscsi.Common.{
  ℕ, ◌<◌, ◌≡◌, inl, inr, refl, sym, ap, ◌∙◌, subst, Bool, true, false, Option, some, none, List, [],
  ◌∷◌, ◌++◌, Bool-cases, ◌&&◌,
}
use uiscsi.Common.Maps.{find_key, put_key, find-put_same, find-put_other}
use native.Mathlib.Decide.{ℕ_discrete}
use uiscsi.Pdu.Header.{ok, marshal_header}
use uiscsi.Pdu.Initiator.Transfers.{marshal_snack_req}
use uiscsi.Pdu.Target.Transfers.{DataIn}
use uiscsi.Session.ChanReader.{close_with_error}
use uiscsi.Serial.{sub32}
use uiscsi.Transport.Framer.{RawPdu}
use uiscsi.Session.DataOut.{raw_of}
use uiscsi.Session.ReadTask.{
  ReadTask, Around, Sink, no_sink, buffer, stream, TaskError, fail_stream, SnackError,
  snack_timed_out, error_result, snack_send_failed,
}
use uiscsi.Session.Snack.{snack_req_of, send_snack}
use uiscsi.Session.DataIn.{handle_gap, keep_pending, gap_answer}
use uiscsi.Session.DataIn.Reassembly.{
  contents, pending_of, IsSplit, IsOurs, IsWaiting, Has, Handled,
}
use uiscsi.Session.DataIn.Reassembly.Drain.{delete-IsOurs}

-- A SNACK has no data segment, and so its header is always encoded.
marshal_snack_req-ok :
    (itt type ttt beg_run run_length exp_stat_sn : ℕ)
    → (bhs : List ℕ) × (marshal_snack_req (snack_req_of itt type ttt beg_run run_length exp_stat_sn)
        ≡ ok bhs)
unfolding marshal_snack_req marshal_header
marshal_snack_req-ok itt type ttt beg_run run_length exp_stat_sn = (_, refl)

pub send_snack-accepted :
    (env : Around) (type beg_run run_length : ℕ) (t : ReadTask)
    → env.write_accepts ≡ true
    → (pdus : List RawPdu) × (send_snack env type beg_run run_length t ≡ (none, pdus))
unfolding send_snack
send_snack-accepted env type beg_run run_length t accepts =
    let (bhs, encoded) = marshal_snack_req-ok t.itt type 0 beg_run run_length env.exp_stat_sn in
    (raw_of bhs [] ∷ [], rw (send_snack, encoded, accepts) refl)

send_snack-refused :
    (env : Around) (type beg_run run_length : ℕ) (t : ReadTask)
    → env.write_accepts ≡ false
    → send_snack env type beg_run run_length t ≡ (some snack_timed_out, [])
unfolding send_snack
send_snack-refused env type beg_run run_length t refuses =
    let (bhs, encoded) = marshal_snack_req-ok t.itt type 0 beg_run run_length env.exp_stat_sn in
    rw (send_snack, encoded, refuses) refl

contents-fail_stream : (e : TaskError) (s : Sink) → contents (fail_stream e s) ≡ contents s
unfolding fail_stream close_with_error
contents-fail_stream e no_sink = refl
contents-fail_stream e (buffer b) = refl
contents-fail_stream e (stream cr) = elim (Bool-cases cr.closed) [
  | inl is_closed ↦ simp is_closed refl
  | inr is_open ↦ simp is_open refl
]

pub and_false : (b : Bool) → (b && false) ≡ false
and_false true = refl
and_false false = refl

module _ (src : ℕ → DataIn) (n : ℕ) where
  put-IsOurs :
      (k : ℕ) (m : List (ℕ × DataIn)) → k < n → IsOurs src n m → IsOurs src n (put_key k (src k) m)
  unfolding put_key
  put-IsOurs k m h ours = ((h, refl), delete-IsOurs src n k m ours)

  pub handle_gap-Handled :
      (c : List ℕ) (env : Around) (t : ReadTask) (k : ℕ)
      → IsSplit src n
      → IsWaiting src n c t
      → k < n
      → ¬ (k ≡ t.next_data_sn)
      → Handled src n c env t k (some (handle_gap env (src k) t))
  unfolding handle_gap
  handle_gap-Handled c env t k split w h other =
      let key = split.numbered k in
      let left : pending_of (keep_pending (src k) t) ≡ put_key k (src k) (pending_of t) =
        ap (λ z. put_key z (src k) (pending_of t)) key in
      let has = ap (find_key k) left ∙ find-put_same k (src k) (pending_of t) in
      let run = sub32 (src k).data_sn t.next_data_sn in
      let p = w.part in
      let handled : (o : Option SnackError × List RawPdu)
          → send_snack env 0 t.next_data_sn run (keep_pending (src k) t) ≡ o
          → handle_gap env (src k) t ≡ gap_answer o (keep_pending (src k) t) =
        λ o attempt. ap (λ z. gap_answer z (keep_pending (src k) t)) attempt in
      elim (Bool-cases env.write_accepts) [
        | inl accepts ↦
            let (pdus, attempt) =
              send_snack-accepted env 0 t.next_data_sn run (keep_pending (src k) t) accepts in
            rw (handled _ attempt) (
              inl (
                record {
                  part = record {
                    in_range = p.in_range;
                    offset = p.offset;
                    prefix = p.prefix;
                    is_open = p.is_open;
                    ours = subst (IsOurs src n) (sym left) (put-IsOurs k (pending_of t) h p.ours);
                    no_result = p.no_result;
                    not_done = p.not_done;
                    recovers = p.recovers;
                  };
                  more = w.more;
                  drained =
                      ap (find_key t.next_data_sn) left
                      ∙ find-put_other t.next_data_sn k (src k) (pending_of t) (λ e. other (sym e))
                      ∙ w.drained;
                },
                λ j had. elim had [
                  | inl below ↦ inl below
                  | inr found ↦ elim (ℕ_discrete j k) [
                    | yes same ↦
                        subst (λ z. Has src n z (gap_answer (none, pdus) (keep_pending (src k) t)))
                          (sym same) (inr has)
                    | no different ↦ inr (
                        ap (find_key j) left
                        ∙ find-put_other j k (src k) (pending_of t) different
                        ∙ found)
                  ]
                ],
                inr has,
              ))
        | inr refuses ↦
            let attempt =
              send_snack-refused env 0 t.next_data_sn run (keep_pending (src k) t) refuses in
            rw (handled _ attempt) (
              inr (
                inr (
                  refuses,
                  record {
                    gave_up = refl;
                    failed = (
                      snack_timed_out,
                      ap (λ z. z ++ (error_result (snack_send_failed snack_timed_out) ∷ []))
                          p.no_result,
                    );
                    held = ap (◌++◌ c) (contents-fail_stream _ t.sink) ∙ p.prefix;
                  },
                )))
      ]
