-- ===== src/Session/Submit/LostNumber.antt =====
-- internal/session/session.go: a CmdSN that no PDU carries, and a Drain that nobody wakes.
use uiscsi.Common.{
  ℕ, ◌<◌, ◌≡◌, refl, sym, ap, ◌∙◌, subst, Bool, true, false, ◌&&◌, some, none, [], length, ltb,
  ◌==◌, min, arith,
}
use uiscsi.Common.Integers.{ℤ}
use uiscsi.Common.Maps.{put_key}
use uiscsi.Serial.{incr}
use uiscsi.Window.{Window, granted, acquire, window_open, advance}
use uiscsi.Transport.Framer.{RawPdu}
use uiscsi.Transport.Router.{allocate_itt, register_persistent}
use uiscsi.Login.Params.{NegotiatedParams}
use uiscsi.Session.Command.{Command, Reader, read_immediate}
use uiscsi.Session.State.{Session, forget_task}
use uiscsi.Session.Submit.{
  Submitted, refused, read_immediate_failed, start_task, submit_task, with_immediate, immediate_of,
  is_some, submitted_task,
}

-- What Submit returns and what has become of the session.
pub record IsLostNumber (s : Session) (o : Submitted × Session) : Type 0 where
  pub is_refused : o.0 ≡ refused read_immediate_failed
  pub number_used : o.1.window.cmd_sn ≡ incr s.window.cmd_sn
  pub nothing_sent : o.1.write_ch ≡ s.write_ch

nothing_to_read :
    (p : NegotiatedParams) (r : Reader)
    → r.rest ≡ []
    → 0 < min p.first_burst_length p.max_recv_data_segment_length
    → immediate_of true p (some r) ≡ none
unfolding read_immediate
nothing_to_read p r empty room =
    let n = min p.first_burst_length p.max_recv_data_segment_length in
    let is_empty : (length r.rest == 0) ≡ true = rw empty refl in
    let asks : ltb 0 n ≡ true = ground arith in
    rw (immediate_of, read_immediate, asks, is_empty) refl

takes_slot :
    (w : Window)
    → w.closed ≡ false
    → window_open w ≡ true
    → acquire w ≡ granted w.cmd_sn (advance w)
unfolding acquire
takes_slot w live is_open = simp (live, is_open) refl

-- Submit of a write whose reader is at its end, where the parameters ask for immediate data and the
-- window is open: it returns an error and sends nothing, but the CmdSN that it took is used up, and
-- the next command goes out with the number behind it.
pub submit_task-IsLostNumber :
    (stamp : RawPdu → RawPdu) (exp_stat_sn : ℕ → ℕ) (depth : ℤ) (takes : Bool) (cmd : Command)
    (r : Reader) (s : Session)
    → cmd.source ≡ some r
    → r.rest ≡ []
    → s.params.immediate_data ≡ true
    → 0 < min s.params.first_burst_length s.params.max_recv_data_segment_length
    → s.recovering ≡ false
    → s.draining ≡ false
    → s.window.closed ≡ false
    → window_open s.window ≡ true
    → IsLostNumber s (submit_task stamp exp_stat_sn depth takes cmd s)
unfolding submit_task start_task forget_task
submit_task-IsLostNumber stamp exp_stat_sn depth takes cmd r s source empty immediate room ready
      busy live is_open =
    let s0 : Session = record s { window = advance s.window } in
    let reaches : submit_task stamp exp_stat_sn depth takes cmd s
        ≡ start_task stamp exp_stat_sn depth takes cmd s.window.cmd_sn s0 =
      simp (ready, busy, takes_slot s.window live is_open) refl in
    let reads : immediate_of (is_some cmd.source && s.params.immediate_data) s.params cmd.source
        ≡ none =
      simp (source, immediate) (nothing_to_read s.params r empty room) in
    let tk = submitted_task depth cmd (allocate_itt s.router).0 s.window.cmd_sn s0 in
    let s1 : Session = record s0 {
      router = (register_persistent (allocate_itt s.router).0 (allocate_itt s.router).1).1;
      tasks = put_key (allocate_itt s.router).0 tk s.tasks;
    } in
    let started : start_task stamp exp_stat_sn depth takes cmd s.window.cmd_sn s0
        ≡ (refused read_immediate_failed, forget_task (allocate_itt s.router).0 s1) =
      ap (λ o. with_immediate stamp exp_stat_sn takes (allocate_itt s.router).0 tk o s1) reads in
    subst (IsLostNumber s) (sym (reaches ∙ started))
      (record { is_refused = refl; number_used = refl; nothing_sent = refl })
