-- ===== src/Session/Unsolicited/Tests.antt =====
-- internal/session/session.go: a target rejects a command whose PDU it sends back.
use uiscsi.Common.{true, [], ◌∷◌, ◌++◌}
use uiscsi.Common.Bytes.{zeros}
use uiscsi.Transport.Framer.{RawPdu}
use uiscsi.Session.DataOut.{raw_of}
use uiscsi.Session.State.{Session, SessionTask}
use uiscsi.Session.TaskLoop.Tests.{session, task}

-- The rejected PDU is a SCSI Command with tag 5.
abbrev rejection : RawPdu
rejection = raw_of (0x3f ∷ 0x80 ∷ 4 ∷ zeros 45) (1 ∷ 0x80 ∷ (zeros 17 ++ (5 ∷ zeros 28)))

abbrev without_recovery : SessionTask
without_recovery = record task { received = record (task.received) { itt = 5; erl = 0 } }

-- The session has tasks with the tags 5 and 6.
abbrev busy : Session
busy = record session {
  router = record (session.router) {
    pending =
        (5, record { ch = record { serial = 0; capacity = 64 }; persistent = true })
        ∷ (6, record { ch = record { serial = 1; capacity = 64 }; persistent = true })
        ∷ [];
  };
  tasks = (5, without_recovery) ∷ (6, task) ∷ [];
}
