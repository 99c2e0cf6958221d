-- ===== src/Session/TaskLoop/Results.antt =====
-- internal/session/session.go: how the rounds of taskLoop end.
use uiscsi.Common.{
  ℕ, ◌-◌, ◌/◌, ◌%◌, ◌^◌, ◌<◌, ◌≡◌, refl, ap, ◌∙◌, true, Option, some, none, List, [], ◌∷◌, ◌++◌,
  ◌&&◌, ◌⊎◌, inl, inr, length, leb, if◌then◌else◌, Bool-cases, if-elim, take-append, length-append,
  arith,
}
use uiscsi.Common.Bytes.{join16-put, get16}
use uiscsi.Common.Maps.{find_key, find-delete_same}
use uiscsi.Pdu.Header.{Result, ok, err}
use uiscsi.Pdu.Codec.{decode_bhs, Pdu, data_in, r2t, scsi_response, reject}
use uiscsi.Pdu.Target.Commands.{ScsiResponse}
use uiscsi.Pdu.Target.Transfers.{DataIn}
use uiscsi.Transport.Framer.{RawPdu}
use uiscsi.Transport.Router.{lookup, unregister}
use uiscsi.Transport.Router.Laws.{lookup-remove_self}
use uiscsi.Session.ReadTask.{ReadTask, TaskResult, TaskError, Sink, no_sink, buffer, stream}
use uiscsi.Session.DataIn.{
  handle_data_in, handle_scsi_response, respond_into, response_result, sense_data_of,
}
use uiscsi.Session.DataOut.{BurstError}
use uiscsi.Session.Submit.{with_rest}
use uiscsi.Session.State.{Session, SessionTask, cleanup_task, forget_task, update_stat_sn}
use uiscsi.Session.TaskLoop.{
  is_streaming, reads_nil, after_burst, Round, goes_on, returned, panicked, Peers, around_of,
  update_window, after_data_in, on_data_in, on_r2t, on_scsi_response, on_reject, on_pdu,
  retry_same_connection, after_rewind, resend, pdu_arrived, call_done, stored, task_round,
}

-- The tag is unknown to the router and to the session.
abbrev pub IsUnknown : ℕ → Session → Type 0
IsUnknown itt s = (lookup itt s.router.pending ≡ none) × (find_key itt s.tasks ≡ none)

pub cleanup_task-IsUnknown : (itt : ℕ) (s : Session) → IsUnknown itt (cleanup_task itt s)
unfolding cleanup_task forget_task unregister
cleanup_task-IsUnknown itt s =
    if-elim (IsUnknown itt) _
      (lookup-remove_self itt s.router.pending, find-delete_same itt s.tasks)
      (lookup-remove_self itt s.router.pending, find-delete_same itt s.tasks)

-- A loop that has returned has left nothing behind.
abbrev pub Leaves : ℕ → Round → Type 0
Leaves itt (returned tk s) = IsUnknown itt s
Leaves itt (goes_on tk s) = Unit
Leaves itt panicked = Unit

module _ (stamp : RawPdu → RawPdu) (env : Peers) (itt : ℕ) where
  resend-Leaves :
      (tk : SessionTask) (o : Option (Result RawPdu)) (s : Session)
      → Leaves itt (resend stamp env tk o s)
  resend-Leaves tk none s = tt
  resend-Leaves tk (some (err e)) s = tt
  resend-Leaves tk (some (ok raw)) s = if-elim (Leaves itt) env.write_accepts tt tt

  after_rewind-Leaves :
      (o : TaskError × SessionTask ⊎ (List ℕ × SessionTask)) (s : Session)
      → Leaves itt (after_rewind stamp env o s)
  after_rewind-Leaves (inl (e, tk)) s = tt
  after_rewind-Leaves (inr (imm, tk)) s = resend-Leaves tk _ s

  retry_same_connection-Leaves :
      (tk : SessionTask) (s : Session) → Leaves itt (retry_same_connection stamp env tk s)
  unfolding retry_same_connection
  retry_same_connection-Leaves tk s = elim (Bool-cases (is_streaming tk.received.sink)) [
    | inl streams ↦ rw (retry_same_connection, streams) tt
    | inr no_stream ↦ rw (retry_same_connection, no_stream) (after_rewind-Leaves _ s)
  ]

after_data_in-Leaves :
    (p : DataIn) (tk : SessionTask) (o : Option ReadTask) (s : Session)
    → Leaves tk.received.itt (after_data_in p tk o s)
after_data_in-Leaves p tk none s = tt
after_data_in-Leaves p tk (some received) s =
    if-elim (Leaves tk.received.itt) p.has_status (cleanup_task-IsUnknown tk.received.itt _) tt

on_data_in-Leaves :
    (env : Peers) (p : DataIn) (tk : SessionTask) (s : Session)
    → Leaves tk.received.itt (on_data_in env p tk s)
unfolding on_data_in
on_data_in-Leaves env p tk s =
    let s1 = update_window p.exp_cmd_sn p.max_cmd_sn s in
    let s2 : Session = if p.has_status then update_stat_sn p.stat_sn s1 else s1 in
    after_data_in-Leaves p tk (handle_data_in (around_of env s2) p tk.received) s2

after_burst-Leaves :
    (env : Peers) (o : Option BurstError) (tk : SessionTask) (s : Session)
    → Leaves tk.received.itt (after_burst env o tk s)
after_burst-Leaves env none tk s = tt
after_burst-Leaves env (some e) tk s = cleanup_task-IsUnknown tk.received.itt s

on_pdu-Leaves :
    (stamp : RawPdu → RawPdu) (env : Peers) (exp_stat_sn : ℕ → ℕ) (segment : List ℕ)
    (decoded : Result Pdu) (tk : SessionTask) (s : Session)
    → Leaves tk.received.itt (on_pdu stamp env exp_stat_sn segment decoded tk s)
unfolding on_pdu on_r2t on_scsi_response on_reject
on_pdu-Leaves stamp env exp_stat_sn segment (err e) tk s = cleanup_task-IsUnknown tk.received.itt s
on_pdu-Leaves stamp env exp_stat_sn segment (ok (data_in p)) tk s =
    on_data_in-Leaves env (record p { payload = segment }) tk s
on_pdu-Leaves stamp env exp_stat_sn segment (ok (r2t p)) tk s =
    if-elim (Leaves tk.received.itt) (reads_nil tk.reader _ _) tt
      (after_burst-Leaves env _ (record tk { reader = with_rest _ tk.reader }) _)
on_pdu-Leaves stamp env exp_stat_sn segment (ok (scsi_response p)) tk s =
    cleanup_task-IsUnknown tk.received.itt _
on_pdu-Leaves stamp env exp_stat_sn segment (ok (reject p)) tk s =
    if-elim (Leaves tk.received.itt) (leb 1 tk.received.erl)
      (retry_same_connection-Leaves stamp env tk.received.itt tk _)
      (cleanup_task-IsUnknown tk.received.itt _)
on_pdu-Leaves stamp env exp_stat_sn segment (ok p) tk s = tt

stored-Leaves : (itt : ℕ) (round : Round) → Leaves itt round → Leaves itt (stored round)
stored-Leaves itt (returned tk s) h = h
stored-Leaves itt (goes_on tk s) h = tt
stored-Leaves itt panicked h = tt

-- When a round of the task loop returns on a PDU (or on the end of the call's context), with
-- success or with an error, the router and the session have forgotten the task's tag.
pub task_round-Leaves :
    (stamp : RawPdu → RawPdu) (env : Peers) (exp_stat_sn : ℕ → ℕ) (raw : RawPdu) (tk : SessionTask)
    (s : Session)
    → Leaves tk.received.itt (task_round stamp env exp_stat_sn (pdu_arrived raw) tk s)
      × Leaves tk.received.itt (task_round stamp env exp_stat_sn call_done tk s)
unfolding task_round
task_round-Leaves stamp env exp_stat_sn raw tk s = (
  stored-Leaves tk.received.itt _
      (on_pdu-Leaves stamp env exp_stat_sn raw.data_segment (decode_bhs raw.bhs) tk s),
  cleanup_task-IsUnknown tk.received.itt s,
)

-- A SCSI Response ends the loop with one more result: the response's status and residual, and the
-- sense data without its length.
pub record IsAnswered (p : ScsiResponse) (sense : List ℕ) (tk : SessionTask) (tk' : SessionTask)
    : Type 0 where
  pub result : TaskResult
  pub one_more : tk'.received.results ≡ tk.received.results ++ (result ∷ [])
  pub same_status : result.status ≡ p.status
  pub same_overflow : result.overflow ≡ p.overflow
  pub same_underflow : result.underflow ≡ p.underflow
  pub same_count : result.residual_count ≡ p.residual_count
  pub sense_given : result.sense_data ≡ sense
  pub succeeds : result.failure ≡ none

abbrev pub Answered : ScsiResponse → List ℕ → SessionTask → Round → Type 0
Answered p sense tk (returned tk' s') = IsAnswered p sense tk tk' × IsUnknown tk.received.itt s'
Answered p sense tk (goes_on tk' s') = ⊥
Answered p sense tk panicked = ⊥

sense_data_of_lem :
    (sense padding : List ℕ)
    → length sense < 2 ^ 16
    → sense_data_of ((length sense / 2 ^ 8 % 256) ∷ (length sense % 256) ∷ (sense ++ padding))
      ≡ sense
unfolding sense_data_of
sense_data_of_lem sense padding h =
    let n = length sense in
    let len : get16 0 ((n / 2 ^ 8 % 256) ∷ (n % 256) ∷ (sense ++ padding)) ≡ n = join16-put n h in
    let segment : List ℕ = (n / 2 ^ 8 % 256) ∷ (n % 256) ∷ (sense ++ padding) in
    let fits : (leb 2 (length segment) && leb n (length segment - 2)) ≡ true =
      ground (arith, length-append sense padding) in
    rw (len, fits) (take-append sense padding)

respond_into-IsAnswered :
    (p : ScsiResponse) (sense : List ℕ) (tk : SessionTask) (s : Sink)
    → sense_data_of p.payload ≡ sense
    → IsAnswered p sense tk
        (record tk { received = respond_into (response_result p) s tk.received })
respond_into-IsAnswered p sense tk no_sink h = record {
  result = response_result p;
  one_more = refl;
  same_status = refl;
  same_overflow = refl;
  same_underflow = refl;
  same_count = refl;
  sense_given = h;
  succeeds = refl;
}
respond_into-IsAnswered p sense tk (buffer []) h = record {
  result = response_result p;
  one_more = refl;
  same_status = refl;
  same_overflow = refl;
  same_underflow = refl;
  same_count = refl;
  sense_given = h;
  succeeds = refl;
}
respond_into-IsAnswered p sense tk (buffer (x ∷ b)) h = record {
  result = record (response_result p) {
    payload = if tk.received.is_read then some (x ∷ b) else none;
  };
  one_more = refl;
  same_status = refl;
  same_overflow = refl;
  same_underflow = refl;
  same_count = refl;
  sense_given = h;
  succeeds = refl;
}
respond_into-IsAnswered p sense tk (stream cr) h = record {
  result = response_result p;
  one_more = refl;
  same_status = refl;
  same_overflow = refl;
  same_underflow = refl;
  same_count = refl;
  sense_given = h;
  succeeds = refl;
}

-- A SCSI Response whose data segment is a 2-byte length, that many bytes of sense data, and anything
-- behind it, ends the task's loop with exactly one more result, which has the response's status and
-- residual and this sense data; the task's tag is forgotten.
pub on_scsi_response-Answered :
    (p : ScsiResponse) (sense padding : List ℕ) (tk : SessionTask) (s : Session)
    → length sense < 2 ^ 16
    → p.payload ≡ (length sense / 2 ^ 8 % 256) ∷ (length sense % 256) ∷ (sense ++ padding)
    → Answered p sense tk (on_scsi_response p tk s)
unfolding on_scsi_response handle_scsi_response
on_scsi_response-Answered p sense padding tk s h same = (
  respond_into-IsAnswered p sense tk tk.received.sink
      (ap sense_data_of same ∙ sense_data_of_lem sense padding h),
  cleanup_task-IsUnknown tk.received.itt _,
)
