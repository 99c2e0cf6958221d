-- ===== src/Session/DataOut/Tasks.antt =====
-- internal/session/dataout.go: handleR2T and sendUnsolicitedDataOut on a task.
use uiscsi.Common.{
  ℕ, ◌+◌, ◌-◌, ◌%◌, ◌^◌, ◌≤◌, ◌<◌, ◌≡◌, refl, sym, none, take, drop, length, min, ◌==◌, ==_iff,
  Bool-cases, inl, inr, arith,
}
use uiscsi.Pdu.Target.Transfers.{R2t}
use uiscsi.Transport.Framer.{RawPdu}
use uiscsi.Session.Stamping.{KeepsContent}
use uiscsi.Session.DataOut.{Burst, Limits, Task, handle_r2t, send_unsolicited_data_out}
use uiscsi.Session.DataOut.Segments.{IsTransfer, Covers, send_data_out_burst-Complete}

-- The burst `b` took `n` bytes off the task's reader and sent them as Data-Out PDUs with the target
-- transfer tag `ttt` from the buffer offset `offset` on.
pub record Transferred (exp_stat_sn : ℕ → ℕ) (params : Limits) (t : Task) (ttt offset n : ℕ)
    (r : Burst × Task) : Type 0 where
  pub failed : r.0.failure ≡ none
  pub sent : r.0.sent ≡ n
  pub sent_pdus :
      Covers t.itt ttt offset params.max_recv_data_segment_length exp_stat_sn 0 0
        (take n t.reader)
        r.0.pdus
  pub reader_left : r.1.reader ≡ drop n t.reader

-- With tags and ExpStatSNs of 32 bits, a MaxRecvDataSegmentLength above 0 and below 2 ^ 24, a
-- stamping that keeps the content of PDUs and enough data: handleR2T answers an R2T with the next
-- bytes of the task's data, as many as it asks for and MaxBurstLength allows, and leaves the count
-- of unsolicited bytes alone.
pub handle_r2t-Transferred :
    (exp_stat_sn : ℕ → ℕ) (stamp : RawPdu → RawPdu) (r2t : R2t) (params : Limits) (t : Task)
    → KeepsContent stamp
    → IsTransfer t.itt r2t.target_transfer_tag r2t.buffer_offset params.max_recv_data_segment_length
        exp_stat_sn
    → min r2t.desired_data_transfer_length params.max_burst_length ≤ length t.reader
    → Transferred exp_stat_sn params t r2t.target_transfer_tag r2t.buffer_offset
        (min r2t.desired_data_transfer_length params.max_burst_length)
        (handle_r2t exp_stat_sn stamp r2t params t)
      × ((handle_r2t exp_stat_sn stamp r2t params t).1.bytes_sent ≡ t.bytes_sent)
unfolding handle_r2t
handle_r2t-Transferred exp_stat_sn stamp r2t params t kept v enough =
    let d =
      send_data_out_burst-Complete t.itt r2t.target_transfer_tag r2t.buffer_offset
        params.max_recv_data_segment_length exp_stat_sn
        (min r2t.desired_data_transfer_length params.max_burst_length) stamp kept t.reader v
        enough in
    (
      record {
        failed = d.succeeded;
        sent = d.sent_all;
        sent_pdus = d.as_pdus;
        reader_left = d.rest_unread;
      },
      refl,
    )

-- With tags and ExpStatSNs of 32 bits, a MaxRecvDataSegmentLength above 0 and below 2 ^ 24, enough
-- data and a stamping that keeps the content of PDUs, after immediate data within a
-- FirstBurstLength of 32 bits, sendUnsolicitedDataOut sends the rest of the first burst with the
-- reserved transfer tag, from where the immediate data ended, and the task has then sent
-- FirstBurstLength bytes in all.
pub send_unsolicited_data_out-Transferred :
    (exp_stat_sn : ℕ → ℕ) (stamp : RawPdu → RawPdu) (params : Limits) (t : Task)
    → KeepsContent stamp
    → IsTransfer t.itt 0xffff_ffff t.bytes_sent params.max_recv_data_segment_length exp_stat_sn
    → params.first_burst_length < 2 ^ 32
    → t.bytes_sent ≤ params.first_burst_length
    → params.first_burst_length - t.bytes_sent ≤ length t.reader
    → Transferred exp_stat_sn params t 0xffff_ffff t.bytes_sent
        (params.first_burst_length - t.bytes_sent)
        (send_unsolicited_data_out exp_stat_sn stamp params t)
      × ((send_unsolicited_data_out exp_stat_sn stamp params t).1.bytes_sent
          ≡ params.first_burst_length)
unfolding send_unsolicited_data_out
send_unsolicited_data_out-Transferred exp_stat_sn stamp params t kept v word within enough =
    let n = params.first_burst_length - t.bytes_sent in
    let no_wrap : (params.first_burst_length + 2 ^ 32 - t.bytes_sent) % 2 ^ 32 ≡ n = omega arith in
    let d =
      send_data_out_burst-Complete t.itt 0xffff_ffff t.bytes_sent
        params.max_recv_data_segment_length exp_stat_sn n stamp kept t.reader v enough in
    elim (Bool-cases (n == 0)) [
      | inl e ↦
          let nothing : n ≡ 0 = (==_iff n 0).0 e in
          rw (no_wrap, e)
            (
              record {
                failed = refl;
                sent = sym nothing;
                sent_pdus = rw nothing refl;
                reader_left = rw nothing refl;
              },
              omega arith,
            )
      | inr e ↦
          rw (no_wrap, e)
            (
              record {
                failed = d.succeeded;
                sent = d.sent_all;
                sent_pdus = d.as_pdus;
                reader_left = d.rest_unread;
              },
              rw d.sent_all (omega arith),
            )
    ]
