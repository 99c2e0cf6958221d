-- ===== src/Session/DataOut.antt =====
-- internal/session/dataout.go. The task's reader is the list of bytes that it still delivers before
-- io.EOF; the PDUs are in the order in which they go into `writeCh`. `expStatSN()` may answer
-- differently each time: `exp_stat_sn k` is its answer for the PDU with DataSN `k`.
pub mod Segments
pub mod Exhausted
pub mod Tasks
use uiscsi.Common.{
  ℕ, zero, suc, ◌+◌, ◌-◌, ◌%◌, ◌^◌, ◌<◌, Bool, true, false, ◌||◌, not, Option, some, none, List, [],
  ◌∷◌, take, drop, length, ltb, leb, ◌==◌, if◌then◌else◌, min,
}
use uiscsi.Common.Bytes.{zeros}
use uiscsi.Pdu.Header.{Result, ok, err, Error}
use uiscsi.Pdu.Initiator.Transfers.{DataOut, marshal_data_out}
use uiscsi.Pdu.Target.Transfers.{R2t}
use uiscsi.Transport.Framer.{RawPdu, validate_outgoing_segment_length}

-- `read_failed` is the reader's io.EOF; `out_of_fuel` is no Go error: the model's loop took more
-- rounds than it was given.
pub data BurstError : Type 0 where
  read_failed out_of_fuel : BurstError
  encode_failed validation_failed : Error → BurstError

pub record Burst : Type 0 where
  pub sent : ℕ
  pub failure : Option BurstError
  pub reader : List ℕ
  pub pdus : List RawPdu

-- The fields of the session's negotiated parameters that the transfer reads.
pub record Limits : Type 0 where
  pub max_burst_length : ℕ
  pub first_burst_length : ℕ
  pub max_recv_data_segment_length : ℕ

abbrev pub stopped : Option BurstError → ℕ → List ℕ → Burst
stopped failure sent reader = record { sent = sent; failure = failure; reader = reader; pdus = [] }

unfoldable pub data_out_of :
    (itt ttt offset : ℕ) (exp_stat_sn : ℕ → ℕ) (data_sn sent : ℕ) → Bool → List ℕ → DataOut
data_out_of itt ttt offset exp_stat_sn data_sn sent is_final chunk = record {
  header = record {
    immediate = false;
    op_code = 0;
    final = is_final;
    total_ahs_length = 0;
    data_segment_len = length chunk;
    lun = zeros 8;
    initiator_task_tag = itt;
  };
  target_transfer_tag = ttt;
  exp_stat_sn = exp_stat_sn data_sn;
  data_sn = data_sn;
  buffer_offset = (offset + sent) % 2 ^ 32;
  payload = chunk;
}

abbrev pub raw_of : List ℕ → List ℕ → RawPdu
raw_of bhs chunk = record {
  bhs = bhs;
  ahs = [];
  data_segment = chunk;
  header_digest = 0;
  data_digest = 0;
  has_h_digest = false;
  has_d_digest = false;
}

-- One PDU, after its BHS is encoded and its segment checked, before what the loop sends next.
abbrev pub queue :
    (RawPdu → RawPdu) → Result (List ℕ) → Option Error → ℕ → List ℕ → List ℕ → Burst → Burst
queue stamp (err e) check sent chunk reader more = stopped (some (encode_failed e)) sent reader
queue stamp (ok bhs) (some e) sent chunk reader more =
    stopped (some (validation_failed e)) sent reader
queue stamp (ok bhs) none sent chunk reader more = record more {
  pdus = stamp (raw_of bhs chunk) ∷ more.pdus;
}

module _ (itt ttt offset burst_len max_recv_dsl : ℕ) (exp_stat_sn : ℕ → ℕ)
    (stamp : RawPdu → RawPdu) where
  -- The `for` loop of sendDataOutBurst. io.ReadFull of no bytes reads none and does not fail; it
  -- fails with io.EOF at the end of the reader, and with io.ErrUnexpectedEOF on a part of a chunk.
  unfoldable pub send_loop : ℕ → ℕ → ℕ → List ℕ → Burst
  send_loop zero data_sn sent reader = stopped (some out_of_fuel) sent reader
  send_loop (suc fuel) data_sn sent reader =
      let chunk_size = min max_recv_dsl (burst_len - sent) in
      let chunk = take chunk_size reader in
      let rest = drop chunk_size reader in
      let short = ltb (length reader) chunk_size in
      let sent' = sent + length chunk in
      let is_final = leb burst_len sent' || short in
      let more = send_loop fuel ((data_sn + 1) % 2 ^ 32) sent' rest in
      if not (ltb sent burst_len)
      then stopped none sent reader
      else if chunk_size == 0
      then stopped none sent reader
      else if length reader == 0
      then stopped (some read_failed) sent reader
      else queue stamp
          (marshal_data_out (data_out_of itt ttt offset exp_stat_sn data_sn sent is_final chunk))
          (validate_outgoing_segment_length (length chunk) max_recv_dsl) sent chunk rest
          (if short then stopped none sent' rest else more)

  -- Each round sends one byte at least.
  unfoldable pub send_data_out_burst : List ℕ → Burst
  send_data_out_burst reader = send_loop (suc burst_len) 0 0 reader

-- The part of the task that the transfer changes.
pub record Task : Type 0 where
  pub itt : ℕ
  pub bytes_sent : ℕ
  pub reader : List ℕ

unfoldable pub handle_r2t :
    (exp_stat_sn : ℕ → ℕ) (stamp : RawPdu → RawPdu) → R2t → Limits → Task → Burst × Task
handle_r2t exp_stat_sn stamp r2t params t =
    let desired = min r2t.desired_data_transfer_length params.max_burst_length in
    let b =
      send_data_out_burst t.itt r2t.target_transfer_tag r2t.buffer_offset desired
        params.max_recv_data_segment_length exp_stat_sn stamp t.reader in
    (b, record t { reader = b.reader })

-- `remaining` is a uint32, and so never below 0.
unfoldable pub send_unsolicited_data_out :
    (exp_stat_sn : ℕ → ℕ) (stamp : RawPdu → RawPdu) → Limits → Task → Burst × Task
send_unsolicited_data_out exp_stat_sn stamp params t =
    let remaining = (params.first_burst_length + 2 ^ 32 - t.bytes_sent) % 2 ^ 32 in
    let b =
      send_data_out_burst t.itt 0xffff_ffff t.bytes_sent remaining
        params.max_recv_data_segment_length exp_stat_sn stamp t.reader in
    if remaining == 0
    then (stopped none 0 t.reader, t)
    else (b, record t { bytes_sent = (t.bytes_sent + b.sent) % 2 ^ 32; reader = b.reader })
