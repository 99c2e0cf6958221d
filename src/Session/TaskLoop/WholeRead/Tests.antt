-- ===== src/Session/TaskLoop/WholeRead/Tests.antt =====
-- internal/session/session.go: a streaming read of three PDUs whose second comes first.
use uiscsi.Common.{
  ℕ, zero, suc, ◌<◌, refl, inl, inr, List, [], ◌∷◌, ◌++◌, length, ◌==◌, if◌then◌else◌, arith,
}
use uiscsi.Common.Integers.{pos}
use uiscsi.Pdu.Codec.{decode_bhs, decode_opcode}
use uiscsi.Pdu.Target.Transfers.{unmarshal_data_in}
use uiscsi.Transport.Framer.{RawPdu}
use uiscsi.Session.DataOut.{raw_of}
use uiscsi.Session.State.{SessionTask}
use uiscsi.Session.DataIn.Tests.{piece, place, pdu, pdu-IsSplit}
use uiscsi.Session.DataIn.Reassembly.Start.{reading}
use uiscsi.Session.TaskLoop.WholeRead.{Event, arrives, reads, Arrived, Carries, task_loop}
use uiscsi.Session.TaskLoop.{goes_on}
use uiscsi.Session.TaskLoop.WholeRead.Whole.{Finished, task_loop-IsWhole}
use uiscsi.Session.TaskLoop.Tests.{session, plain, nine, task, peers}

-- The three PDUs of a read on the wire.
abbrev on_wire : ℕ → RawPdu
on_wire k =
    raw_of
      (0x25
        ∷ (if suc k == 3 then 0x81 else 0x80)
        ∷ 0
        ∷ 0
        ∷ 0
        ∷ 0
        ∷ 0
        ∷ length (piece k)
        ∷ 0
        ∷ 0
        ∷ 0
        ∷ 0
        ∷ 0
        ∷ 0
        ∷ 0
        ∷ 0
        ∷ 0
        ∷ 0
        ∷ 0
        ∷ 5
        ∷ 0xff
        ∷ 0xff
        ∷ 0xff
        ∷ 0xff
        ∷ 0
        ∷ 0
        ∷ 0
        ∷ 1
        ∷ 0
        ∷ 0
        ∷ 0
        ∷ 1
        ∷ 0
        ∷ 0
        ∷ 0
        ∷ 9
        ∷ 0
        ∷ 0
        ∷ 0
        ∷ k
        ∷ 0
        ∷ 0
        ∷ 0
        ∷ place k
        ∷ 0
        ∷ 0
        ∷ 0
        ∷ 0
        ∷ [])
      (piece k)

first-Carries : Carries (on_wire 0) (pdu 0)
unfolding decode_bhs decode_opcode unmarshal_data_in
first-Carries = (unmarshal_data_in (on_wire 0).bhs, refl, refl)

second-Carries : Carries (on_wire 1) (pdu 1)
unfolding decode_bhs decode_opcode unmarshal_data_in
second-Carries = (unmarshal_data_in (on_wire 1).bhs, refl, refl)

third-Carries : Carries (on_wire 2) (pdu 2)
unfolding decode_bhs decode_opcode unmarshal_data_in
third-Carries = (unmarshal_data_in (on_wire 2).bhs, refl, refl)

-- A streaming read with tag 5.
abbrev reader_task : SessionTask
reader_task = record task { received = reading pdu 3 5 (pos 8) 1 30 }

-- The second PDU comes first, and again after the first; the caller reads in between.
abbrev early_events : List Event
early_events =
    arrives peers (on_wire 1) 1
    ∷ reads 4
    ∷ arrives peers (on_wire 0) 0
    ∷ reads 2
    ∷ arrives peers (on_wire 1) 1
    ∷ []

early_arrive : (k : ℕ) → k < 2 → Arrived k early_events
early_arrive zero h = inr (inl refl)
early_arrive (suc zero) h = inl refl
early_arrive (suc (suc k)) h = absurd (omega arith)

task_loop-IsWhole_example : Finished plain nine pdu 2 5 (
    task_loop plain nine
      (early_events ++ (arrives peers (on_wire 2) 2 ∷ (reads 9 ∷ [])))
      []
      (goes_on reader_task session))
task_loop-IsWhole_example =
    task_loop-IsWhole plain nine pdu 2 5 early_events (reads 9 ∷ []) peers (on_wire 2) reader_task
      session (pos 8) 1 30 refl pdu-IsSplit (omega arith)
      (
        (omega arith, refl, second-Carries),
        (tt, ((omega arith, refl, first-Carries), (tt, ((omega arith, refl, second-Carries), tt)))),
      )
      early_arrive refl third-Carries
