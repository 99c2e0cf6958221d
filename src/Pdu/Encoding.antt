-- ===== src/Pdu/Encoding.antt =====
-- internal/pdu: padding.go, the LUN encoding of header.go, and the wire form of EncodePDU (pdu.go).
use uiscsi.Common.{ℕ, ◌+◌, ◌%◌, ◌^◌, ◌<◌, ◌≡◌, refl, List, ◌++◌, some, length, arith, ap}
use uiscsi.Common.Bytes.{zeros, put16}
use uiscsi.Pdu.Header.{
  ok, >>=-eq-ok, ok-injective, pad_len, encode_sam_lun, decode_sam_lun, frame_of, Frame,
}
use uiscsi.Pdu.Codec.{
  nop_out, scsi_command, task_mgmt_req, login_req, text_req, data_out, logout_req, snack_req,
  nop_in, scsi_response, task_mgmt_resp, login_resp, text_resp, data_in, logout_resp, r2t,
  async_msg, reject, Pdu, IsValidPdu, header, data_segment, marshal_bhs, decode_bhs, encode_pdu,
  sent,
}
use uiscsi.Pdu.RoundTrip.All.{decode_bhs-marshal_bhs}
use uiscsi.Pdu.Shape.{marshal_bhs-frame}

-- Padding fills up to the next multiple of four, and is as short as that allows.
pub pad_len_aligns : (n : ℕ) → ((n + pad_len n) % 4 ≡ 0) × (pad_len n < 4)
unfolding pad_len
pad_len_aligns n = omega arith

-- A LUN of at most 16 bits is encoded in eight bytes, and decoded again.
pub decode_sam_lun-encode_sam_lun :
    (lun : ℕ)
    → lun < 2 ^ 16
    → (b : List ℕ) × (encode_sam_lun lun ≡ some b) × (length b ≡ 8) × (decode_sam_lun b ≡ lun)
unfolding encode_sam_lun decode_sam_lun
decode_sam_lun-encode_sam_lun lun h =
    (put16 0 (lun % 2 ^ 16) (zeros 8), ground arith, refl, ground arith)

length_valid : (p : Pdu) → IsValidPdu p → (header p).data_segment_len < 2 ^ 24
unfolding header
length_valid (nop_out p) v = v.of_header.length_fits
length_valid (scsi_command p) v = v.of_header.length_fits
length_valid (task_mgmt_req p) v = v.of_header.length_fits
length_valid (login_req p) v = v.of_header.length_fits
length_valid (text_req p) v = v.of_header.length_fits
length_valid (data_out p) v = v.of_header.length_fits
length_valid (logout_req p) v = v.of_header.length_fits
length_valid (snack_req p) v = v.of_header.length_fits
length_valid (nop_in p) v = v.of_header.length_fits
length_valid (scsi_response p) v = v.of_header.length_fits
length_valid (task_mgmt_resp p) v = v.of_header.length_fits
length_valid (login_resp p) v = v.of_header.length_fits
length_valid (text_resp p) v = v.of_header.length_fits
length_valid (data_in p) v = v.of_header.length_fits
length_valid (logout_resp p) v = v.of_header.length_fits
length_valid (r2t p) v = v.of_header.length_fits
length_valid (async_msg p) v = v.of_header.length_fits
length_valid (reject p) v = v.of_header.length_fits

length_bhs : (p : Pdu) (bhs : List ℕ) → IsValidPdu p → marshal_bhs p ≡ ok bhs → length bhs ≡ 48
unfolding frame_of
length_bhs p bhs v written =
    ap Frame.bhs_len (ok-injective (rw written at (marshal_bhs-frame p (length_valid p v))))

-- EncodePDU of a valid PDU succeeds: 48 bytes that DecodeBHS reads back, the data segment as it
-- is, and the least number of zero bytes that makes the whole a multiple of four bytes long.
pub encode_pdu_wire :
    (p : Pdu)
    → IsValidPdu p
    → (bhs : List ℕ) × (k : ℕ) × (encode_pdu p ≡ ok (bhs ++ (data_segment p ++ zeros k)))
      × (length bhs ≡ 48)
      × (decode_bhs bhs ≡ ok (sent p))
      × (k < 4)
      × ((48 + length (data_segment p) + k) % 4 ≡ 0)
unfolding encode_pdu frame_of
encode_pdu_wire p v =
    let (bhs, written, back) = >>=-eq-ok (marshal_bhs p) decode_bhs (decode_bhs-marshal_bhs p v) in
    let n = length (data_segment p) in
    (
      bhs,
      pad_len (n % 2 ^ 32),
      rw written,
      length_bhs p bhs v written,
      back,
      (pad_len_aligns (n % 2 ^ 32)).1,
      omega (arith, (pad_len_aligns (n % 2 ^ 32)).0),
    )
