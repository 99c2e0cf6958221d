-- ===== src/Session/DataOut/Segments.antt =====
-- internal/session/dataout.go: the PDUs of a burst for which the reader has enough data.
use uiscsi.Common.{
  ℕ, zero, suc, ◌+◌, ◌-◌, ◌%◌, ◌^◌, ◌≤◌, ◌<◌, ◌≡◌, refl, ap, Bool, true, false, none, List, [], ◌∷◌,
  ◌++◌, take, drop, length, ltb, leb, ◌==◌, min, take_past, drop_past, length-take, length-drop,
  length-append, take-drop, arith,
}
use mathlib.Core.Bool.{or-false}
use native.Mathlib.Decide.{dec_lt}
use uiscsi.Pdu.Header.{ok, >>=-eq-ok}
use uiscsi.Pdu.Initiator.Transfers.{IsValidDataOut, marshal_data_out, sent_data_out}
use uiscsi.Pdu.Codec.{data_out, decode_bhs}
use uiscsi.Pdu.RoundTrip.InitiatorTransfers.{data_out_round_trip}
use uiscsi.Transport.Framer.{RawPdu, validate_outgoing_segment_length}
use uiscsi.Session.Stamping.{KeepsContent}
use uiscsi.Session.DataOut.{Burst, data_out_of, raw_of, queue, send_loop, send_data_out_burst}

abbrev pub is_last : List RawPdu → Bool
is_last [] = true
is_last (p ∷ ps) = false

pub validated :
    (max_recv_dsl n : ℕ) → n ≤ max_recv_dsl → validate_outgoing_segment_length n max_recv_dsl ≡ none
unfolding validate_outgoing_segment_length
validated max_recv_dsl n h = ground arith

module _ (itt ttt offset max_recv_dsl : ℕ) (exp_stat_sn : ℕ → ℕ) where
  -- The PDUs carry the bytes `segment` from BufferOffset `offset + sent` on, with DataSNs from
  -- `data_sn` on: each has some bytes and at most `max_recv_dsl`, and DecodeBHS of its BHS gives the
  -- Data-Out header with the tags, its place and its length, and the F bit on the last one only.
  abbrev pub Covers : ℕ → ℕ → List ℕ → List RawPdu → Type 0
  Covers data_sn sent segment [] = segment ≡ []
  Covers data_sn sent segment (p ∷ ps) =
      (0 < length p.data_segment)
      × (length p.data_segment ≤ max_recv_dsl)
      × (decode_bhs p.bhs
          ≡ ok (
              data_out (
                sent_data_out (
                  data_out_of itt ttt offset exp_stat_sn data_sn sent (is_last ps)
                    p.data_segment))))
      × ((rest : List ℕ) × (segment ≡ p.data_segment ++ rest)
          × Covers ((data_sn + 1) % 2 ^ 32) (sent + length p.data_segment) rest ps)

  is_last_lem :
      (data_sn sent burst_len : ℕ) (segment : List ℕ) (ps : List RawPdu)
      → length segment ≡ burst_len - sent
      → Covers data_sn sent segment ps
      → leb burst_len sent ≡ is_last ps
  is_last_lem data_sn sent burst_len segment [] h e = ground (arith, h, ap length e)
  is_last_lem data_sn sent burst_len segment (p ∷ ps) h (nonempty, _, _, (rest, e, _)) =
      ground (arith, h, nonempty, ap length e, length-append p.data_segment rest)

  -- The widths of what goes into the headers.
  pub record IsTransfer : Type 0 where
    pub itt_word : itt < 2 ^ 32
    pub ttt_word : ttt < 2 ^ 32
    pub stat_word : (k : ℕ) → exp_stat_sn k < 2 ^ 32
    pub some_room : 0 < max_recv_dsl
    pub room_fits : max_recv_dsl < 2 ^ 24

  pub data_out_of-IsValid :
      (data_sn sent : ℕ) (is_final : Bool) (chunk : List ℕ)
      → IsTransfer
      → data_sn < 2 ^ 32
      → length chunk ≤ max_recv_dsl
      → IsValidDataOut (data_out_of itt ttt offset exp_stat_sn data_sn sent is_final chunk)
  unfolding data_out_of
  data_out_of-IsValid data_sn sent is_final chunk t h short = record {
    of_header = record {
      ahs_byte = omega arith;
      length_fits = omega (arith, t.room_fits);
      lun_array = refl;
      tag_word = t.itt_word;
    };
    of_target_transfer_tag = t.ttt_word;
    of_exp_stat_sn = t.stat_word data_sn;
    of_data_sn = h;
    of_buffer_offset = omega arith;
  }

  module _ (burst_len : ℕ) (stamp : RawPdu → RawPdu) (kept : KeepsContent stamp) where
    -- The burst sent all that is left of it from `sent` on.
    record Delivered (data_sn sent : ℕ) (reader : List ℕ) (b : Burst) : Type 0 where
      all_sent : b.sent ≡ burst_len
      no_failure : b.failure ≡ none
      reader_left : b.reader ≡ drop (burst_len - sent) reader
      covered : Covers data_sn sent (take (burst_len - sent) reader) b.pdus

    left_over : (n m k : ℕ) → n - m - k ≡ n - (m + k)
    left_over n m k = omega arith

    Covers-stamp :
        (data_sn sent : ℕ) (is_final : Bool) (bhs chunk rest : List ℕ) (ps : List RawPdu)
        → 0 < length chunk
        → length chunk ≤ max_recv_dsl
        → is_final ≡ is_last ps
        → decode_bhs bhs
          ≡ ok (
              data_out (
                sent_data_out (data_out_of itt ttt offset exp_stat_sn data_sn sent is_final chunk)))
        → Covers ((data_sn + 1) % 2 ^ 32) (sent + length chunk) rest ps
        → Covers data_sn sent (chunk ++ rest) (stamp (raw_of bhs chunk) ∷ ps)
    Covers-stamp data_sn sent is_final bhs chunk rest ps some_bytes short last back c =
        rw (kept.bhs_kept (raw_of bhs chunk), kept.segment_kept (raw_of bhs chunk), ← last)
          (some_bytes, short, back, (rest, refl, c))

    queue-Delivered :
        (data_sn sent : ℕ) (chunk rest : List ℕ) (more : Burst)
        → IsTransfer
        → data_sn < 2 ^ 32
        → 0 < length chunk
        → length chunk ≤ max_recv_dsl
        → sent + length chunk ≤ burst_len
        → burst_len - (sent + length chunk) ≤ length rest
        → Delivered ((data_sn + 1) % 2 ^ 32) (sent + length chunk) rest more
        → Delivered data_sn sent (chunk ++ rest) (
            queue stamp
              (marshal_data_out (
                data_out_of itt ttt offset exp_stat_sn data_sn sent
                  (leb burst_len (sent + length chunk))
                  chunk))
              none
              sent
              chunk
              rest
              more)
    queue-Delivered data_sn sent chunk rest more t h some_bytes short le enough d =
        let is_final = leb burst_len (sent + length chunk) in
        let p = data_out_of itt ttt offset exp_stat_sn data_sn sent is_final chunk in
        let (bhs, written, back) =
          >>=-eq-ok (marshal_data_out p) decode_bhs
            (data_out_round_trip p (data_out_of-IsValid data_sn sent is_final chunk t h short)) in
        rw written (record {
          all_sent = d.all_sent;
          no_failure = d.no_failure;
          reader_left =
              rw (drop_past (burst_len - sent) chunk rest (omega arith), left_over) d.reader_left;
          covered =
              rw (take_past (burst_len - sent) chunk rest (omega arith), left_over)
                (Covers-stamp data_sn sent is_final bhs chunk _ more.pdus some_bytes short
                  (is_last_lem _ _ burst_len _ more.pdus (length-take _ rest enough) d.covered) back
                  d.covered);
        })

    send_loop-Delivered :
        (fuel data_sn sent : ℕ) (reader : List ℕ)
        → IsTransfer
        → data_sn < 2 ^ 32
        → sent ≤ burst_len
        → burst_len - sent < fuel
        → burst_len - sent ≤ length reader
        → Delivered data_sn sent reader (
            send_loop itt ttt offset burst_len max_recv_dsl exp_stat_sn stamp fuel data_sn sent
              reader)
    unfolding send_loop
    send_loop-Delivered zero data_sn sent reader t h le fuelled enough = absurd (omega arith)
    send_loop-Delivered (suc fuel) data_sn sent reader t h le fuelled enough =
        let c = min max_recv_dsl (burst_len - sent) in
        elim (dec_lt sent burst_len) [
          | yes more ↦
              let some_bytes : 0 < c = omega (arith, t.some_room) in
              let n : length (take c reader) ≡ c = length-take c reader (omega arith) in
              let is_more : ltb sent burst_len ≡ true = ground arith in
              let not_empty : (c == 0) ≡ false = ground arith in
              let not_eof : (length reader == 0) ≡ false = ground arith in
              let not_short : ltb (length reader) c ≡ false = ground arith in
              rw
                (
                  is_more,
                  not_empty,
                  not_eof,
                  not_short,
                  or-false,
                  validated max_recv_dsl (length (take c reader)) (omega (arith, n)),
                )
                (rw (take-drop c reader) at (
                  queue-Delivered data_sn sent (take c reader) (drop c reader) _ t h
                    (omega (arith, n)) (omega (arith, n)) (omega (arith, n))
                    (omega (arith, n, length-drop c reader))
                    (send_loop-Delivered fuel _ (sent + length (take c reader)) (drop c reader) t
                      (omega arith) (omega (arith, n)) (omega (arith, n))
                      (omega (arith, n, length-drop c reader)))))
          | no done ↦
              let all : burst_len - sent ≡ 0 = omega arith in
              let no_more : ltb sent burst_len ≡ false = ground arith in
              rw (no_more) (record {
                all_sent = omega arith;
                no_failure = refl;
                reader_left = rw all refl;
                covered = rw all refl;
              })
        ]

    -- The burst sent its first `burst_len` bytes.
    pub record Complete (reader : List ℕ) (b : Burst) : Type 0 where
      pub sent_all : b.sent ≡ burst_len
      pub succeeded : b.failure ≡ none
      pub rest_unread : b.reader ≡ drop burst_len reader
      pub as_pdus : Covers 0 0 (take burst_len reader) b.pdus

    -- With tags and ExpStatSNs of 32 bits, `max_recv_dsl` above 0 and below 2 ^ 24, and a stamping
    -- that keeps the content of PDUs: when the reader has the whole burst, sendDataOutBurst sends
    -- exactly its first `burst_len` bytes and no more is read: the PDUs have contiguous offsets,
    -- consecutive DataSNs from 0, at most `max_recv_dsl` bytes each, and the F bit on the last one
    -- only.
    pub send_data_out_burst-Complete :
        (reader : List ℕ)
        → IsTransfer
        → burst_len ≤ length reader
        → Complete reader
            (send_data_out_burst itt ttt offset burst_len max_recv_dsl exp_stat_sn stamp reader)
    unfolding send_data_out_burst
    send_data_out_burst-Complete reader t enough =
        let d =
          send_loop-Delivered (suc burst_len) 0 0 reader t (omega arith) (omega arith) (omega arith)
            (omega arith) in
        let all : burst_len - 0 ≡ burst_len = omega arith in
        record {
          sent_all = d.all_sent;
          succeeded = d.no_failure;
          rest_unread = rw all at d.reader_left;
          as_pdus = rw all at d.covered;
        }
