-- ===== src/Session/TaskLoop/Tests.antt =====
-- internal/session/session.go: a read and two writes that are submitted, and the rounds of a task.
use uiscsi.Common.{ℕ, Bool, ◌≡◌, refl, true, false, none, some, List, [], ◌∷◌, replicate, arith}
use uiscsi.Common.Bytes.{zeros}
use uiscsi.Common.Integers.{pos}
use uiscsi.Pdu.Header.{Header}
use uiscsi.Pdu.Codec.{decode_bhs, decode_opcode}
use uiscsi.Pdu.Target.Commands.{ScsiResponse}
use uiscsi.Pdu.Target.Transfers.{DataIn}
use uiscsi.Login.Params.{defaults}
use uiscsi.Serial.{in_window, less_than, greater_than}
use uiscsi.Window.{window_open}
use uiscsi.Transport.Framer.{RawPdu}
use uiscsi.Transport.Router.{allocate_itt}
use uiscsi.Session.ReadTask.{buffer}
use uiscsi.Session.DataOut.{raw_of}
use uiscsi.Session.Command.{Command, Reader}
use uiscsi.Session.State.{Session, SessionTask}
use uiscsi.Session.Submit.{start_task, submit_task}
use uiscsi.Session.Submit.Registered.{Started, start_task-Started}
use uiscsi.Session.Submit.CommandPdu.{Sends, start_task-Sends}
use uiscsi.Session.Submit.LostNumber.{IsLostNumber, submit_task-IsLostNumber}
use uiscsi.Session.TaskLoop.{
  Peers, Round, returned, task_round, on_pdu, pdu_arrived, call_done, on_scsi_response, on_data_in,
}
use uiscsi.Session.TaskLoop.Results.{Leaves, task_round-Leaves, Answered, on_scsi_response-Answered}
use uiscsi.Session.TaskLoop.EarlyStatus.{Abandoned, on_data_in-Abandoned}

abbrev pub session : Session
session = record {
  params = record defaults { error_recovery_level = 1 };
  router = record { pending = []; next_itt = 0; persistent_depth = 64; made = 0 };
  window = record { cmd_sn = 1; exp_cmd_sn = 1; max_cmd_sn = 4; closed = false };
  exp_stat_sn = 9;
  tasks = [];
  logged_in = true;
  recovering = false;
  draining = false;
  drain_waits = false;
  drained = false;
  closed = false;
  failed = false;
  write_ch = [];
  stream_buf_depth = pos 0;
  snack_timeout = 30;
}

abbrev reader : List ℕ → Reader
reader bs = record { whole = bs; rest = bs; seekable = true }

-- WRITE(10) of these bytes.
abbrev writing : List ℕ → Command
writing bs = record {
  cdb = 0x2a ∷ zeros 15;
  read = false;
  write = false;
  expected_data_transfer_len = 512;
  lun = 3;
  task_attributes = 0;
  source = some (reader bs);
}

abbrev pub plain : RawPdu → RawPdu
plain raw = raw

abbrev pub nine : ℕ → ℕ
nine k = 9

start_task-Started_example :
    Started
      (writing (replicate 6 1))
      (allocate_itt session.router).0
      1
      session
      (start_task plain nine (pos 0) true (writing (replicate 6 1)) 1 session)
start_task-Started_example =
    start_task-Started plain nine (pos 0) true (writing (replicate 6 1)) 1 session

start_task-Sends_example :
    Sends plain
      (writing (replicate 6 1))
      (allocate_itt session.router).0
      1
      session
      (start_task plain nine (pos 0) true (writing (replicate 6 1)) 1 session)
start_task-Sends_example =
    start_task-Sends plain nine (pos 0) true (writing (replicate 6 1)) 1 session
      (record { of_cdb = refl; of_attributes = omega arith; of_length = omega arith }) (omega arith)
      (omega arith) (omega arith) (omega arith)

is_open : window_open session.window ≡ true
unfolding window_open in_window less_than greater_than
is_open = refl

submit_task-IsLostNumber_example :
    IsLostNumber session (submit_task plain nine (pos 0) true (writing []) session)
submit_task-IsLostNumber_example =
    submit_task-IsLostNumber plain nine (pos 0) true (writing []) (reader []) session refl refl refl
      (omega arith) refl refl refl is_open

abbrev pub task : SessionTask
task = record {
  received = record {
    itt = 0;
    is_read = true;
    is_write = false;
    sink = buffer [];
    next_data_sn = 0;
    next_offset = 0;
    erl = 1;
    snack_timeout = 30;
    snack = none;
    results = [];
    done = false;
    sent = [];
  };
  lun = 3;
  cmd = record (writing []) { read = true; source = none };
  cmd_sn = 1;
  reader = none;
  bytes_sent = 0;
}

abbrev pub peers : Peers
peers = record { write_accepts = true; has_room = true; all_received = true }

-- A PDU with an opcode that is not assigned, and the session that waits for the task's PDUs.
abbrev garbage : RawPdu
garbage = raw_of (0x3e ∷ zeros 47) []

abbrev waiting : Session
waiting = record session {
  router = record (session.router) {
    pending =
        (0, record { ch = record { serial = 0; capacity = 64 }; persistent = true })
        ∷ (8, record { ch = record { serial = 1; capacity = 64 }; persistent = true })
        ∷ [];
  };
  tasks = (0, task) ∷ [];
}

-- The round does return.
abbrev has_returned : Round → Bool
has_returned (returned tk s) = true
has_returned round = false

garbage_returns :
    has_returned (task_round plain peers nine (pdu_arrived garbage) task waiting) ≡ true
unfolding task_round on_pdu decode_bhs decode_opcode
garbage_returns = refl

task_round-Leaves_example :
    Leaves 0 (task_round plain peers nine (pdu_arrived garbage) task waiting)
    × Leaves 0 (task_round plain peers nine call_done task waiting)
task_round-Leaves_example = task_round-Leaves plain peers nine garbage task waiting

abbrev target_header : Header
target_header = record {
  immediate = false;
  op_code = 0x21;
  final = true;
  total_ahs_length = 0;
  data_segment_len = 6;
  lun = zeros 8;
  initiator_task_tag = 0;
}

-- CHECK CONDITION with three bytes of sense data and one of padding.
abbrev check_condition : ScsiResponse
check_condition = record {
  header = target_header;
  bidi_overflow = false;
  bidi_underflow = false;
  overflow = false;
  underflow = true;
  response = 0;
  status = 2;
  snack_tag = 0;
  stat_sn = 9;
  exp_cmd_sn = 2;
  max_cmd_sn = 5;
  exp_data_sn = 0;
  bidi_residual_count = 0;
  residual_count = 512;
  payload = 0 ∷ 3 ∷ 0x70 ∷ 0 ∷ 5 ∷ 0 ∷ [];
}

on_scsi_response-Answered_example :
    Answered check_condition
      (0x70 ∷ 0 ∷ 5 ∷ [])
      task
      (on_scsi_response check_condition task session)
on_scsi_response-Answered_example =
    on_scsi_response-Answered check_condition (0x70 ∷ 0 ∷ 5 ∷ []) (0 ∷ []) task session
      (omega arith) refl

-- The second of two PDUs, with the status.
abbrev last : DataIn
last = record {
  header = record target_header { op_code = 0x25 };
  acknowledge = false;
  residual_overflow = false;
  residual_underflow = false;
  has_status = true;
  status = 0;
  target_transfer_tag = 0xffff_ffff;
  stat_sn = 9;
  exp_cmd_sn = 2;
  max_cmd_sn = 5;
  data_sn = 1;
  buffer_offset = 512;
  residual_count = 0;
  payload = replicate 8 1;
}

on_data_in-Abandoned_example : Abandoned task (on_data_in peers last task session)
on_data_in-Abandoned_example =
    on_data_in-Abandoned peers last task session refl (λ e. absurd (omega arith)) (omega arith) refl
