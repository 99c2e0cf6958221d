-- ===== src/Session/Submit/Registered.antt =====
-- internal/session/session.go: what Submit registers, and that its error paths undo it.
use uiscsi.Common.{
  ℕ, ◌<◌, ◌≡◌, ◌≢◌, refl, sym, ◌∙◌, subst, Bool, true, false, ◌&&◌, not, Option, some, none, List,
  [], ◌∷◌, if◌then◌else◌, inl, inr, length, Bool-cases, arith,
}
use uiscsi.Common.Maps.{
  find_key, put_key, find-delete_same, find-delete_other, find-put_same, find-put_other,
}
use uiscsi.Common.Integers.{ℤ}
use uiscsi.Pdu.Header.{Result, ok, err, encode_sam_lun}
use uiscsi.Transport.Framer.{RawPdu}
use uiscsi.Transport.Router.{Entry, lookup, allocate_itt, register_persistent, unregister}
use uiscsi.Transport.Router.Laws.{
  lookup-insert_self, lookup-insert_ne, lookup-remove_self, lookup-remove_ne,
}
use uiscsi.Session.DataOut.{BurstError, send_unsolicited_data_out}
use uiscsi.Session.Command.{Command, Reader, build_scsi_command_pdu}
use uiscsi.Session.State.{Session, SessionTask, limits_of, forget_task, enqueue}
use uiscsi.Session.Submit.{
  Submitted, accepted, refused, waits, panicked, start_task, with_immediate, submitted_task,
  send_command, send_unsolicited, after_unsolicited, immediate_of, is_some, rest_of, with_rest,
}

-- The session apart from one tag is as before.
pub record SameBeside (itt : ℕ) (before after : Session) : Type 0 where
  pub same_routes :
      (j : ℕ) → itt ≢ j → lookup j after.router.pending ≡ lookup j before.router.pending
  pub same_tasks : (j : ℕ) → itt ≢ j → find_key j after.tasks ≡ find_key j before.tasks
  pub same_window : after.window ≡ before.window
  pub same_stat_sn : after.exp_stat_sn ≡ before.exp_stat_sn

-- Responses with the tag go to a task with this CmdSN.
pub record IsRegistered (itt cmd_sn : ℕ) (before after : Session) : Type 0 where
  pub route : Entry
  pub routed : lookup itt after.router.pending ≡ some route
  pub stays : route.persistent ≡ true
  pub task : SessionTask
  pub found : find_key itt after.tasks ≡ some task
  pub numbered : task.cmd_sn ≡ cmd_sn
  pub beside : SameBeside itt before after

-- The tag is unknown to the router and to the session.
pub record IsForgotten (itt : ℕ) (before after : Session) : Type 0 where
  pub unrouted : lookup itt after.router.pending ≡ none
  pub unknown : find_key itt after.tasks ≡ none
  pub beside : SameBeside itt before after

abbrev pub Started : (cmd : Command) (itt cmd_sn : ℕ) → Session → Submitted × Session → Type 0
Started cmd itt cmd_sn s (accepted k, s') = (k ≡ itt) × IsRegistered itt cmd_sn s s'
Started cmd itt cmd_sn s (refused e, s') = IsForgotten itt s s'
Started cmd itt cmd_sn s (waits, s') = ⊥
Started cmd itt cmd_sn s (panicked, s') = 0xffff < cmd.lun

pub forget_task-IsForgotten :
    (itt : ℕ) (s s1 : Session) → SameBeside itt s s1 → IsForgotten itt s (forget_task itt s1)
unfolding forget_task unregister
forget_task-IsForgotten itt s s1 b = record {
  unrouted = lookup-remove_self itt s1.router.pending;
  unknown = find-delete_same itt s1.tasks;
  beside = record {
    same_routes = λ j h. lookup-remove_ne itt j s1.router.pending h ∙ b.same_routes j h;
    same_tasks = λ j h. find-delete_other j itt s1.tasks (λ e. h (sym e)) ∙ b.same_tasks j h;
    same_window = b.same_window;
    same_stat_sn = b.same_stat_sn;
  };
}

module _ (cmd : Command) (itt cmd_sn : ℕ) (s : Session) where
  -- The task's present state; more PDUs in the write channel.
  again :
      (s1 : Session) (tk : SessionTask)
      → IsRegistered itt cmd_sn s s1
      → tk.cmd_sn ≡ cmd_sn
      → IsRegistered itt cmd_sn s (record s1 { tasks = put_key itt tk s1.tasks })
  again s1 tk r number = record {
    route = r.route;
    routed = r.routed;
    stays = r.stays;
    task = tk;
    found = find-put_same itt tk s1.tasks;
    numbered = number;
    beside = record {
      same_routes = r.beside.same_routes;
      same_tasks =
          λ j h. find-put_other j itt tk s1.tasks (λ e. h (sym e)) ∙ r.beside.same_tasks j h;
      same_window = r.beside.same_window;
      same_stat_sn = r.beside.same_stat_sn;
    };
  }

  queued :
      (s1 : Session) (raws : List RawPdu)
      → IsRegistered itt cmd_sn s s1
      → IsRegistered itt cmd_sn s (enqueue raws s1)
  queued s1 raws r = record {
    route = r.route;
    routed = r.routed;
    stays = r.stays;
    task = r.task;
    found = r.found;
    numbered = r.numbered;
    beside = record {
      same_routes = r.beside.same_routes;
      same_tasks = r.beside.same_tasks;
      same_window = r.beside.same_window;
      same_stat_sn = r.beside.same_stat_sn;
    };
  }

  after_unsolicited-Started :
      (failure : Option BurstError) (s1 : Session)
      → IsRegistered itt cmd_sn s s1
      → Started cmd itt cmd_sn s (after_unsolicited failure itt s1)
  after_unsolicited-Started none s1 r = (refl, r)
  after_unsolicited-Started (some e) s1 r = forget_task-IsForgotten itt s s1 r.beside

  -- EncodeSAMLUN does not panic up to 0xffff.
  panic-Started :
      (itt0 number exp_stat_sn : ℕ) (cmd0 : Command) (imm : List ℕ)
      → build_scsi_command_pdu cmd0 itt0 number exp_stat_sn imm ≡ none
      → 0xffff < cmd0.lun
  unfolding build_scsi_command_pdu encode_sam_lun
  panic-Started itt0 number exp_stat_sn cmd0 imm h = ground arith

  module _ (stamp : RawPdu → RawPdu) (exp_stat_sn : ℕ → ℕ) where
    send_unsolicited-Started :
        (tk : SessionTask) (s1 : Session)
        → IsRegistered itt cmd_sn s s1
        → tk.cmd_sn ≡ cmd_sn
        → Started cmd itt cmd_sn s (send_unsolicited stamp exp_stat_sn itt tk s1)
    send_unsolicited-Started tk s1 r number =
        let (b, t) =
          send_unsolicited_data_out exp_stat_sn stamp (limits_of s1.params)
            (record { itt = itt; bytes_sent = tk.bytes_sent; reader = rest_of tk.reader }) in
        let tk' : SessionTask = record tk {
          reader = with_rest t.reader tk.reader;
          bytes_sent = t.bytes_sent;
        } in
        after_unsolicited-Started b.failure
          (enqueue b.pdus (record s1 { tasks = put_key itt tk' s1.tasks }))
          (queued (record s1 { tasks = put_key itt tk' s1.tasks }) b.pdus (again s1 tk' r number))

    send_command-Started :
        (takes : Bool) (tk : SessionTask) (o : Option (Result RawPdu)) (s1 : Session)
        → IsRegistered itt cmd_sn s s1
        → tk.cmd_sn ≡ cmd_sn
        → (o ≡ none → 0xffff < cmd.lun)
        → Started cmd itt cmd_sn s (send_command stamp exp_stat_sn takes itt tk o s1)
    send_command-Started takes tk none s1 r number big = big refl
    send_command-Started takes tk (some (err e)) s1 r number big =
        forget_task-IsForgotten itt s s1 r.beside
    send_command-Started false tk (some (ok raw)) s1 r number big =
        forget_task-IsForgotten itt s s1 r.beside
    send_command-Started true tk (some (ok raw)) s1 r number big =
        let s2 = enqueue (stamp raw ∷ []) s1 in
        let r2 = queued s1 (stamp raw ∷ []) r in
        elim (Bool-cases (is_some tk.reader && not s1.params.initial_r2t)) [
          | inl more ↦ rw more (send_unsolicited-Started tk s2 r2 number)
          | inr no_more ↦ rw no_more (refl, r2)
        ]

    with_immediate-Started :
        (takes : Bool) (tk : SessionTask) (o : Option (List ℕ × Option Reader)) (s1 : Session)
        → IsRegistered itt cmd_sn s s1
        → tk.cmd_sn ≡ cmd_sn
        → tk.cmd.lun ≡ cmd.lun
        → Started cmd itt cmd_sn s (with_immediate stamp exp_stat_sn takes itt tk o s1)
    with_immediate-Started takes tk none s1 r number lun = forget_task-IsForgotten itt s s1 r.beside
    with_immediate-Started takes tk (some (imm, reader)) s1 r number lun =
        let sent = if is_some tk.reader && s1.params.immediate_data then length imm else 0 in
        let tk' : SessionTask = record tk { reader = reader; bytes_sent = sent } in
        send_command-Started takes tk'
          (build_scsi_command_pdu tk.cmd itt tk.cmd_sn s1.exp_stat_sn imm)
          (record s1 { tasks = put_key itt tk' s1.tasks }) (again s1 tk' r number) number
          (λ panics.
            subst (λ z. 0xffff < z) lun
              (panic-Started itt tk.cmd_sn s1.exp_stat_sn tk.cmd imm panics))

first-IsRegistered :
    (itt cmd_sn : ℕ) (s : Session) (tk : SessionTask)
    → tk.cmd_sn ≡ cmd_sn
    → IsRegistered itt cmd_sn s (record s {
      router = (register_persistent itt (allocate_itt s.router).1).1;
      tasks = put_key itt tk s.tasks;
    })
unfolding allocate_itt register_persistent
first-IsRegistered itt cmd_sn s tk number =
    let r1 = (allocate_itt s.router).1 in
    let entry : Entry = record {
      ch = record { serial = r1.made; capacity = r1.persistent_depth };
      persistent = true;
    } in
    record {
      route = entry;
      routed = lookup-insert_self itt entry r1.pending;
      stays = refl;
      task = tk;
      found = find-put_same itt tk s.tasks;
      numbered = number;
      beside = record {
        same_routes = λ j h. lookup-insert_ne itt j entry r1.pending h;
        same_tasks = λ j h. find-put_other j itt tk s.tasks (λ e. h (sym e));
        same_window = refl;
        same_stat_sn = refl;
      };
    }

-- What Submit and SubmitStreaming do once `acquire` has given them a CmdSN, with their tag and
-- whatever the reader and the write channel do. When the command is accepted, the router sends
-- every response with the tag to its channel, and the session's map has a task with this CmdSN.
-- When it is refused, the tag is unknown to both again. All other tags, the window and ExpStatSN
-- are as before. Only a LUN above 0xffff panics.
pub start_task-Started :
    (stamp : RawPdu → RawPdu) (exp_stat_sn : ℕ → ℕ) (depth : ℤ) (takes : Bool) (cmd : Command)
    (cmd_sn : ℕ) (s : Session)
    → Started cmd
        (allocate_itt s.router).0
        cmd_sn
        s
        (start_task stamp exp_stat_sn depth takes cmd cmd_sn s)
unfolding start_task
start_task-Started stamp exp_stat_sn depth takes cmd cmd_sn s =
    let itt = (allocate_itt s.router).0 in
    let r1 = (allocate_itt s.router).1 in
    let tk = submitted_task depth cmd itt cmd_sn s in
    let s1 : Session = record s {
      router = (register_persistent itt r1).1;
      tasks = put_key itt tk s.tasks;
    } in
    with_immediate-Started cmd itt cmd_sn s stamp exp_stat_sn takes tk
      (immediate_of (is_some cmd.source && s.params.immediate_data) s.params cmd.source) s1
      (first-IsRegistered itt cmd_sn s tk refl) refl refl
