-- ===== src/Session/Tests.antt =====
-- internal/session: a burst of three PDUs, a reader that ends early, and a stamped PDU.
use uiscsi.Common.{
  ℕ, ◌-◌, ◌^◌, ◌<◌, ◌≡◌, refl, true, false, List, [], ◌∷◌, ◌++◌, min, replicate, arith,
}
use uiscsi.Common.Bytes.{zeros}
use uiscsi.Pdu.Header.{pad_len}
use uiscsi.Pdu.Target.Transfers.{R2t}
use uiscsi.Transport.Framer.{RawPdu, little_endian, ok, read_raw_pdu, write_raw_pdu, wire_size}
use uiscsi.Session.Stamping.{
  stamp_digests, KeepsContent, stamp_digests-KeepsContent, IsPlain, read_raw_pdu-stamp_digests,
}
use uiscsi.Session.DataOut.{
  Limits, Task, send_data_out_burst, handle_r2t, send_unsolicited_data_out,
}
use uiscsi.Session.DataOut.Segments.{IsTransfer, Complete, send_data_out_burst-Complete}
use uiscsi.Session.DataOut.Exhausted.{Exhausted, send_data_out_burst-Exhausted}
use uiscsi.Session.DataOut.Tasks.{
  Transferred, handle_r2t-Transferred, send_unsolicited_data_out-Transferred,
}

-- A stand-in for CRC32C.
abbrev parity : List ℕ → ℕ
parity xs = 7

abbrev stamp : RawPdu → RawPdu
stamp = stamp_digests parity true true

stamp-KeepsContent : KeepsContent stamp
stamp-KeepsContent = stamp_digests-KeepsContent parity true true

abbrev five : ℕ → ℕ
five k = 5

-- Segments of at most four bytes.
tagged : (ttt offset : ℕ) → ttt < 2 ^ 32 → IsTransfer 9 ttt offset 4 five
tagged ttt offset h = record {
  itt_word = omega arith;
  ttt_word = h;
  stat_word = λ k. omega arith;
  some_room = omega arith;
  room_fits = omega arith;
}

send_data_out_burst-Complete_example :
    Complete 9 77 512 4 five 10 stamp stamp-KeepsContent
      (replicate 12 1)
      (send_data_out_burst 9 77 512 10 4 five stamp (replicate 12 1))
send_data_out_burst-Complete_example =
    send_data_out_burst-Complete 9 77 512 4 five 10 stamp stamp-KeepsContent (replicate 12 1)
      (tagged 77 512 (omega arith)) (omega arith)

send_data_out_burst-Exhausted_example :
    Exhausted 9 77 512 10 4 five stamp 0 0
      (replicate 8 1)
      (send_data_out_burst 9 77 512 10 4 five stamp (replicate 8 1))
send_data_out_burst-Exhausted_example =
    send_data_out_burst-Exhausted 9 77 512 10 4 five stamp stamp-KeepsContent (replicate 8 1)
      (tagged 77 512 (omega arith)) (omega arith)

abbrev limits : Limits
limits = record { max_burst_length = 6; first_burst_length = 10; max_recv_data_segment_length = 4 }

-- Three bytes went as immediate data.
abbrev writing : Task
writing = record { itt = 9; bytes_sent = 3; reader = replicate 20 1 }

abbrev ready : R2t
ready = record {
  header = record {
    immediate = false;
    op_code = 0x31;
    final = true;
    total_ahs_length = 0;
    data_segment_len = 0;
    lun = zeros 8;
    initiator_task_tag = 9;
  };
  target_transfer_tag = 77;
  stat_sn = 1;
  exp_cmd_sn = 2;
  max_cmd_sn = 3;
  r2t_sn = 0;
  buffer_offset = 10;
  desired_data_transfer_length = 8;
}

handle_r2t-Transferred_example :
    Transferred five limits writing 77 10 (min 8 6) (handle_r2t five stamp ready limits writing)
    × ((handle_r2t five stamp ready limits writing).1.bytes_sent ≡ 3)
handle_r2t-Transferred_example =
    handle_r2t-Transferred five stamp ready limits writing stamp-KeepsContent
      (tagged 77 10 (omega arith)) (omega arith)

send_unsolicited_data_out-Transferred_example :
    Transferred five limits writing 0xffff_ffff 3
      (10 - 3)
      (send_unsolicited_data_out five stamp limits writing)
    × ((send_unsolicited_data_out five stamp limits writing).1.bytes_sent ≡ 10)
send_unsolicited_data_out-Transferred_example =
    send_unsolicited_data_out-Transferred five stamp limits writing stamp-KeepsContent
      (tagged 0xffff_ffff 3 (omega arith)) (omega arith) (omega arith) (omega arith)

-- A BHS that announces a segment of three bytes.
abbrev plain_pdu : RawPdu
plain_pdu = record {
  bhs = 5 ∷ 0 ∷ 0 ∷ 0 ∷ 0 ∷ 0 ∷ 0 ∷ 3 ∷ zeros 40;
  ahs = [];
  data_segment = 9 ∷ 8 ∷ 7 ∷ [];
  header_digest = 0;
  data_digest = 0;
  has_h_digest = false;
  has_d_digest = false;
}

plain_pdu-IsPlain : IsPlain plain_pdu
plain_pdu-IsPlain = record {
  bhs_size = refl;
  ahs_size = refl;
  segment_size = refl;
  segment_fits = omega arith;
  header_digest_unset = refl;
  data_digest_unset = refl;
  no_header_digest = refl;
  no_data_digest = refl;
}

read_raw_pdu-stamp_digests_example :
    read_raw_pdu parity true true little_endian
      (write_raw_pdu little_endian (replicate 60 0xff) (stamp plain_pdu) ++ 1 ∷ [])
    ≡ ok (stamp plain_pdu) (1 ∷ [])
read_raw_pdu-stamp_digests_example =
    read_raw_pdu-stamp_digests parity (λ xs. omega arith) true true little_endian
      (replicate 60 0xff) (1 ∷ []) plain_pdu plain_pdu-IsPlain
      (unfold wire_size pad_len stamp_digests in refl)
