-- ===== src/Session/DataOut/Exhausted.antt =====
-- internal/session/dataout.go: a burst for which the reader has too little data.
use uiscsi.Common.{
  ℕ, zero, suc, ◌+◌, ◌-◌, ◌%◌, ◌^◌, ◌≤◌, ◌<◌, ◌≡◌, refl, ap, sym, subst, ◌∙◌, Bool, true, false,
  Option, some, none, List, [], ◌∷◌, take, drop, length, ltb, ◌==◌, if◌then◌else◌, min, length-take,
  length-drop, take_all, drop_all, arith,
}
use native.Mathlib.Decide.{dec_lt}
use native.Mathlib.Nat.{mod-add-mod, mod_self, mod-eq_of_lt, zero-mod}
use uiscsi.Pdu.Header.{ok, >>=-eq-ok}
use uiscsi.Pdu.Initiator.Transfers.{DataOut, IsValidDataOut, marshal_data_out, sent_data_out}
use uiscsi.Pdu.Codec.{data_out, decode_bhs}
use uiscsi.Pdu.RoundTrip.InitiatorTransfers.{data_out_round_trip}
use uiscsi.Transport.Framer.{RawPdu}
use uiscsi.Session.Stamping.{KeepsContent}
use uiscsi.Session.DataOut.{
  Burst, BurstError, read_failed, data_out_of, raw_of, queue, send_loop, send_data_out_burst,
}
use uiscsi.Session.DataOut.Segments.{IsTransfer, data_out_of-IsValid, validated}

-- `queue` of a valid PDU puts it in front of the list of PDUs and changes nothing else.
queue_passes :
    (stamp : RawPdu → RawPdu) (p : DataOut) (sent : ℕ) (chunk reader : List ℕ) (more : Burst)
    → IsValidDataOut p
    → (bhs : List ℕ) × (decode_bhs bhs ≡ ok (data_out (sent_data_out p)))
      × (queue stamp (marshal_data_out p) none sent chunk reader more
          ≡ record more { pdus = stamp (raw_of bhs chunk) ∷ more.pdus })
queue_passes stamp p sent chunk reader more v =
    let (bhs, written, back) =
      >>=-eq-ok (marshal_data_out p) decode_bhs (data_out_round_trip p v) in
    (bhs, back, rw written refl)

add-mod_self : (m k : ℕ) → (m + k) % m ≡ k % m
add-mod_self m k = sym (mod-add-mod m m k) ∙ ap (λ z. z % m) (omega (arith, mod_self m))

abbrev pub at_end : ℕ → Option BurstError
at_end left = if left == 0 then some read_failed else none

module _ (itt ttt offset burst_len max_recv_dsl : ℕ) (exp_stat_sn : ℕ → ℕ)
    (stamp : RawPdu → RawPdu) where
  -- The PDUs carry all bytes of `reader`, from BufferOffset `offset + sent` and DataSN `data_sn` on,
  -- each `max_recv_dsl` of them but perhaps the last; the F bit is on a last PDU with fewer, and on
  -- no other.
  abbrev pub Sends : ℕ → ℕ → List ℕ → List RawPdu → Type 0
  Sends data_sn sent reader [] = reader ≡ []
  Sends data_sn sent reader (p ∷ ps) =
      (0 < length p.data_segment)
      × (p.data_segment ≡ take max_recv_dsl reader)
      × (decode_bhs p.bhs
          ≡ ok (
              data_out (
                sent_data_out (
                  data_out_of itt ttt offset exp_stat_sn data_sn sent
                    (ltb (length p.data_segment) max_recv_dsl) p.data_segment))))
      × Sends ((data_sn + 1) % 2 ^ 32) (sent + length p.data_segment) (drop max_recv_dsl reader) ps

  -- All the reader's data was sent; the burst fails when it ended with a full PDU.
  pub record Exhausted (data_sn sent : ℕ) (reader : List ℕ) (b : Burst) : Type 0 where
    pub failure_at_boundary : b.failure ≡ at_end (length reader % max_recv_dsl)
    pub all_data_counted : b.sent ≡ sent + length reader
    pub nothing_left : b.reader ≡ []
    pub all_data_sent : Sends data_sn sent reader b.pdus

  module _ (kept : KeepsContent stamp) where
    Sends-stamp :
        (data_sn sent : ℕ) (is_final : Bool) (bhs reader chunk : List ℕ) (ps : List RawPdu)
        → 0 < length chunk
        → chunk ≡ take max_recv_dsl reader
        → is_final ≡ ltb (length chunk) max_recv_dsl
        → decode_bhs bhs
          ≡ ok (
              data_out (
                sent_data_out (data_out_of itt ttt offset exp_stat_sn data_sn sent is_final chunk)))
        → Sends ((data_sn + 1) % 2 ^ 32) (sent + length chunk) (drop max_recv_dsl reader) ps
        → Sends data_sn sent reader (stamp (raw_of bhs chunk) ∷ ps)
    Sends-stamp data_sn sent is_final bhs reader chunk ps some_bytes is_next last back c =
        rw (kept.bhs_kept (raw_of bhs chunk), kept.segment_kept (raw_of bhs chunk), ← last)
          (some_bytes, is_next, back, c)

    queue-Exhausted :
        (data_sn sent : ℕ) (is_final : Bool) (reader chunk rest : List ℕ) (more : Burst)
        → IsTransfer itt ttt offset max_recv_dsl exp_stat_sn
        → data_sn < 2 ^ 32
        → 0 < length chunk
        → length chunk ≤ max_recv_dsl
        → chunk ≡ take max_recv_dsl reader
        → is_final ≡ ltb (length chunk) max_recv_dsl
        → more.failure ≡ at_end (length reader % max_recv_dsl)
        → more.sent ≡ sent + length reader
        → more.reader ≡ []
        → Sends ((data_sn + 1) % 2 ^ 32) (sent + length chunk) (drop max_recv_dsl reader) more.pdus
        → Exhausted data_sn sent reader (
            queue stamp
              (marshal_data_out
                (data_out_of itt ttt offset exp_stat_sn data_sn sent is_final chunk))
              none
              sent
              chunk
              rest
              more)
    queue-Exhausted data_sn sent is_final reader chunk rest more t h some_bytes small is_next last
          failure all left later =
        let (bhs, back, queued) =
          queue_passes stamp (data_out_of itt ttt offset exp_stat_sn data_sn sent is_final chunk)
            sent chunk rest more
            (data_out_of-IsValid itt ttt offset max_recv_dsl exp_stat_sn data_sn sent is_final chunk
              t h small) in
        rw queued (record {
          failure_at_boundary = failure;
          all_data_counted = all;
          nothing_left = left;
          all_data_sent =
              Sends-stamp data_sn sent is_final bhs reader chunk more.pdus some_bytes is_next last
                back later;
        })

    send_loop-Exhausted :
        (fuel data_sn sent : ℕ) (reader : List ℕ)
        → IsTransfer itt ttt offset max_recv_dsl exp_stat_sn
        → data_sn < 2 ^ 32
        → length reader < fuel
        → length reader < burst_len - sent
        → Exhausted data_sn sent reader (
            send_loop itt ttt offset burst_len max_recv_dsl exp_stat_sn stamp fuel data_sn sent
              reader)
    unfolding send_loop
    send_loop-Exhausted zero data_sn sent reader t h fuelled short = absurd (omega arith)
    send_loop-Exhausted (suc fuel) data_sn sent [] t h fuelled short =
        let is_more : ltb sent burst_len ≡ true = ground arith in
        let not_empty : (min max_recv_dsl (burst_len - sent) == 0) ≡ false =
          ground (arith, t.some_room) in
        rw (is_more, not_empty)
          (record {
            failure_at_boundary = rw (zero-mod max_recv_dsl) refl;
            all_data_counted = omega arith;
            nothing_left = refl;
            all_data_sent = refl;
          })
    send_loop-Exhausted (suc fuel) data_sn sent (x ∷ xs) t h fuelled short =
        let reader : List ℕ = x ∷ xs in
        let c = min max_recv_dsl (burst_len - sent) in
        let is_more : ltb sent burst_len ≡ true = ground arith in
        let not_empty : (c == 0) ≡ false = ground (arith, t.some_room) in
        let not_eof : (length reader == 0) ≡ false = ground arith in
        elim (dec_lt (length reader) c) [
          | yes part ↦
              let is_short : ltb (length reader) c ≡ true = ground arith in
              let all : take c reader ≡ reader = take_all c reader (omega arith) in
              let below : length reader < max_recv_dsl = omega arith in
              rw (is_more, not_empty, not_eof, is_short, all)
                (rw (validated max_recv_dsl (length reader) (omega arith)) (
                  queue-Exhausted data_sn sent _ reader reader (drop c reader) _ t h (omega arith)
                    (omega arith) (sym (take_all max_recv_dsl reader (omega arith))) (ground arith)
                    (rw (mod-eq_of_lt below, not_eof) refl) refl (drop_all c reader (omega arith))
                    (drop_all max_recv_dsl reader (omega arith))))
          | no full ↦
              let whole : c ≡ max_recv_dsl = omega arith in
              let not_short : ltb (length reader) c ≡ false = ground arith in
              let n : length (take c reader) ≡ c = length-take c reader (omega arith) in
              let left : max_recv_dsl + length (drop c reader) ≡ length reader =
                omega (arith, length-drop c reader) in
              let later =
                send_loop itt ttt offset burst_len max_recv_dsl exp_stat_sn stamp fuel
                  ((data_sn + 1) % 2 ^ 32) (sent + length (take c reader)) (drop c reader) in
              let more =
                send_loop-Exhausted fuel ((data_sn + 1) % 2 ^ 32) (sent + length (take c reader))
                  (drop c reader) t (omega arith) (omega (arith, left, t.some_room))
                  (omega (arith, n, left)) in
              let same : length (drop c reader) % max_recv_dsl ≡ length reader % max_recv_dsl =
                sym (add-mod_self max_recv_dsl _) ∙ ap (λ z. z % max_recv_dsl) left in
              rw (is_more, not_empty, not_eof, not_short)
                (rw (validated max_recv_dsl (length (take c reader)) (omega (arith, n))) (
                  queue-Exhausted data_sn sent _ reader (take c reader) (drop c reader) _ t h
                    (omega (arith, n, t.some_room)) (omega (arith, n))
                    (ap (λ z. take z reader) whole) (ground (arith, n))
                    (more.failure_at_boundary ∙ ap at_end same)
                    (omega (arith, more.all_data_counted, n, left)) more.nothing_left
                    (subst
                      (λ z.
                        Sends ((data_sn + 1) % 2 ^ 32) (sent + length (take c reader))
                          (drop z reader) later.pdus)
                      whole more.all_data_sent)))
        ]

    -- With tags and ExpStatSNs of 32 bits, `max_recv_dsl` above 0 and below 2 ^ 24, and a stamping
    -- that keeps the content of PDUs: when the reader ends before the burst is complete,
    -- sendDataOutBurst sends exactly its data, in PDUs of `max_recv_dsl` bytes and perhaps a last one
    -- with fewer, with contiguous offsets and consecutive DataSNs. With such a last PDU, which has the
    -- F bit, the burst succeeds; when the data ends with a full PDU (or there is none) no PDU has the
    -- F bit and the burst fails with the reader's io.EOF.
    pub send_data_out_burst-Exhausted :
        (reader : List ℕ)
        → IsTransfer itt ttt offset max_recv_dsl exp_stat_sn
        → length reader < burst_len
        → Exhausted 0 0 reader
            (send_data_out_burst itt ttt offset burst_len max_recv_dsl exp_stat_sn stamp reader)
    unfolding send_data_out_burst
    send_data_out_burst-Exhausted reader t short =
        send_loop-Exhausted (suc burst_len) 0 0 reader t (omega arith) (omega arith) (omega arith)
