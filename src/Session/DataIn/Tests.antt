-- ===== src/Session/DataIn/Tests.antt =====
-- internal/session/datain.go, snack.go, chanreader.go: a read of three PDUs whose second comes first.
use uiscsi.Common.{
  ℕ, zero, suc, ◌^◌, ◌<◌, ◌≡◌, refl, true, false, none, List, [], ◌∷◌, ◌==◌, length, append-nil,
  sym, ap, ◌∙◌, subst, arith,
}
use uiscsi.Common.Bytes.{zeros}
use uiscsi.Common.Integers.{pos}
use uiscsi.Pdu.Target.Transfers.{DataIn}
use uiscsi.Session.ChanReader.{ChanReader, read}
use uiscsi.Session.ChanReader.Streams.{Streams, read-Streams}
use uiscsi.Session.ReadTask.{Around, TaskError}
use uiscsi.Session.DataIn.{handle_data_in}
use uiscsi.Session.DataIn.Reassembly.{bytes, IsSplit, Handled}
use uiscsi.Session.DataIn.Reassembly.Arrival.{handle_data_in-Handled}
use uiscsi.Session.DataIn.Reassembly.Start.{reading, reading-IsWaiting}

-- Three bytes in the first PDU, two in the second, none in the others.
abbrev pub piece : ℕ → List ℕ
piece zero = 7 ∷ 8 ∷ 9 ∷ []
piece (suc zero) = 1 ∷ 2 ∷ []
piece (suc (suc k)) = []

abbrev pub place : ℕ → ℕ
place zero = 0
place (suc zero) = 3
place (suc (suc k)) = 5

abbrev pub pdu : ℕ → DataIn
pdu k = record {
  header = record {
    immediate = false;
    op_code = 0x25;
    final = true;
    total_ahs_length = 0;
    data_segment_len = length (piece k);
    lun = zeros 8;
    initiator_task_tag = 5;
  };
  acknowledge = false;
  residual_overflow = false;
  residual_underflow = false;
  has_status = suc k == 3;
  status = 0;
  target_transfer_tag = 0xffff_ffff;
  stat_sn = 1;
  exp_cmd_sn = 1;
  max_cmd_sn = 9;
  data_sn = k;
  buffer_offset = place k;
  residual_count = 0;
  payload = piece k;
}

total : (k : ℕ) → bytes pdu 3 (suc (suc k)) ≡ 7 ∷ 8 ∷ 9 ∷ 1 ∷ 2 ∷ []
total zero = refl
total (suc k) = append-nil (bytes pdu 3 (suc (suc k))) ∙ total k

place-small : (k : ℕ) → place k < 2 ^ 32
place-small zero = omega arith
place-small (suc zero) = omega arith
place-small (suc (suc k)) = omega arith

placed : (k : ℕ) → place k ≡ length (bytes pdu 3 k)
placed zero = refl
placed (suc zero) = refl
placed (suc (suc k)) = sym (ap length (total k))

pub pdu-IsSplit : IsSplit pdu 3
pdu-IsSplit = record {
  numbered = λ k. refl;
  placed = placed;
  status_last = λ k. refl;
  count = omega arith;
  size = λ k h. subst (λ z. z < 2 ^ 32) (placed k) (place-small k);
}

abbrev around : Around
around = record { write_accepts = true; exp_stat_sn = 4; all_received = true }

handle_data_in-Handled_example :
    Handled pdu 3 [] around
      (reading pdu 3 5 (pos 0) 1 30)
      1
      (handle_data_in around (pdu 1) (reading pdu 3 5 (pos 0) 1 30))
handle_data_in-Handled_example =
    handle_data_in-Handled pdu 3 [] around (reading pdu 3 5 (pos 0) 1 30) 1 pdu-IsSplit
      (reading-IsWaiting pdu 3 5 (pos 0) 1 30 (omega arith) (omega arith)) (omega arith)

-- Two chunks, the first of them read in part.
abbrev stream_of_two : ChanReader TaskError
stream_of_two = record {
  capacity = 8;
  ch = (4 ∷ 5 ∷ []) ∷ [];
  current = 3 ∷ [];
  failure = none;
  closed = false;
}

read-Streams_example : Streams 2 stream_of_two (read 2 stream_of_two)
read-Streams_example = read-Streams 2 stream_of_two (record { chunks_carry = (omega arith, tt) })
