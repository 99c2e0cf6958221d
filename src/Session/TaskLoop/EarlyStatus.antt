-- ===== src/Session/TaskLoop/EarlyStatus.antt =====
-- internal/session/session.go, datain.go: a status that arrives too early.
use uiscsi.Common.{
  some-injective, ◌≤◌, ◌≡◌, refl, ap, ◌∙◌, Bool, true, false, Option, some, none, ◌&&◌, leb, ltb,
  ◌==◌, if◌then◌else◌, arith,
}
use uiscsi.Pdu.Target.Transfers.{DataIn}
use uiscsi.Session.ReadTask.{ReadTask, Around}
use uiscsi.Session.Snack.{reset_snack_timer, start_snack_timer}
use uiscsi.Session.DataIn.{handle_data_in, handle_received, handle_gap, keep_pending, gap_answer}
use uiscsi.Session.State.{Session, SessionTask, update_stat_sn}
use uiscsi.Session.TaskLoop.{
  Round, goes_on, returned, panicked, Peers, around_of, update_window, after_data_in, on_data_in,
}
use uiscsi.Serial.{sub32}
use uiscsi.Session.DataIn.Reassembly.Gap.{send_snack-accepted}
use uiscsi.Session.TaskLoop.Results.{IsUnknown, cleanup_task-IsUnknown}

-- The loop has returned, nothing of the task is left in the session, and no result was sent.
abbrev pub Abandoned : SessionTask → Round → Type 0
Abandoned tk (returned tk' s') =
    (tk'.received.results ≡ tk.received.results) × IsUnknown tk.received.itt s'
Abandoned tk (goes_on tk' s') = ⊥
Abandoned tk panicked = ⊥

after_data_in-Abandoned :
    (p : DataIn) (tk : SessionTask) (received : ReadTask) (o : Option ReadTask) (s : Session)
    → o ≡ some received
    → received.results ≡ tk.received.results
    → p.has_status ≡ true
    → Abandoned tk (after_data_in p tk o s)
after_data_in-Abandoned p tk received none s same kept status = absurd cc
after_data_in-Abandoned p tk received (some t) s same kept status =
    let is_received : t ≡ received = some-injective same in
    rw status (ap ReadTask.results is_received ∙ kept, cleanup_task-IsUnknown tk.received.itt _)

gap_received :
    (env : Around) (p : DataIn) (t : ReadTask)
    → ¬ (p.data_sn ≡ t.next_data_sn)
    → 1 ≤ t.erl
    → env.write_accepts ≡ true
    → (t' : ReadTask) × (handle_received env p t ≡ some t') × (t'.results ≡ t.results)
unfolding handle_received handle_gap
gap_received env p t early recovers accepts =
    let differs : (p.data_sn == t.next_data_sn) ≡ false = ground arith in
    let erl : leb 1 t.erl ≡ true = ground arith in
    let (pdus, attempt) =
      send_snack-accepted env 0 t.next_data_sn (sub32 p.data_sn t.next_data_sn) (keep_pending p t)
        accepts in
    let gap : handle_gap env p t ≡ gap_answer (none, pdus) (keep_pending p t) =
      ap (λ o. gap_answer o (keep_pending p t)) attempt in
    (gap_answer (none, pdus) (keep_pending p t), rw (differs, erl) (ap some gap), refl)

early_data :
    (env : Around) (p : DataIn) (t : ReadTask) (resets : Bool)
    → ¬ (p.data_sn ≡ t.next_data_sn)
    → 1 ≤ t.erl
    → env.write_accepts ≡ true
    → (t' : ReadTask) × (handle_received env p (if resets then reset_snack_timer t else t)
        ≡ some t')
      × (t'.results ≡ t.results)
unfolding reset_snack_timer start_snack_timer
early_data env p t true early recovers accepts =
    gap_received env p (reset_snack_timer t) early recovers accepts
early_data env p t false early recovers accepts = gap_received env p t early recovers accepts

-- At ErrorRecoveryLevel 1 or above the Data-In PDU with the status arrives while a PDU before it is
-- missing, and the write channel takes the SNACK for it: the task loop returns and the task is
-- forgotten, and no result has been sent.
pub on_data_in-Abandoned :
    (env : Peers) (p : DataIn) (tk : SessionTask) (s : Session)
    → p.has_status ≡ true
    → ¬ (p.data_sn ≡ tk.received.next_data_sn)
    → 1 ≤ tk.received.erl
    → env.write_accepts ≡ true
    → Abandoned tk (on_data_in env p tk s)
unfolding on_data_in handle_data_in
on_data_in-Abandoned env p tk s status early recovers accepts =
    let s1 = update_window p.exp_cmd_sn p.max_cmd_sn s in
    let s2 : Session = if p.has_status then update_stat_sn p.stat_sn s1 else s1 in
    let t = tk.received in
    let (t', handled, kept) =
      early_data (around_of env s2) p t (leb 1 t.erl && ltb 0 t.snack_timeout) early recovers
        accepts in
    after_data_in-Abandoned p tk t' (handle_data_in (around_of env s2) p t) s2 handled kept status
