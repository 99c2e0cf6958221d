-- ===== src/Pdu/Tests.antt =====
-- internal/pdu: a WRITE(10) command with immediate data, a PDU that is too long, and segments.
use uiscsi.Common.{
  ℕ, ◌+◌, ◌%◌, ◌<◌, ◌≡◌, true, false, List, [], ◌∷◌, ◌++◌, length, refl, bit_and, arith,
}
use uiscsi.Common.Bytes.{byte_at, zeros}
use uiscsi.Pdu.Header.{Header, ok, ◌>>=◌}
use uiscsi.Pdu.Codec.{
  Pdu, scsi_command, IsValidPdu, data_segment, marshal_bhs, decode_bhs, encode_pdu, sent,
}
use uiscsi.Pdu.RoundTrip.All.{decode_bhs-marshal_bhs}
use uiscsi.Pdu.Decoding.{Answers, decode_bhs-Answers}
use uiscsi.Pdu.Encoding.{encode_pdu_wire}

abbrev write_header : ℕ → Header
write_header len = record {
  immediate = true;
  op_code = 0;
  final = true;
  total_ahs_length = 0;
  data_segment_len = len;
  lun = 0 ∷ 3 ∷ 0 ∷ 0 ∷ 0 ∷ 0 ∷ 0 ∷ 0 ∷ [];
  initiator_task_tag = 0xdead_beef;
}

-- A WRITE(10) that announces `len` bytes of immediate data.
abbrev write_10 : ℕ → Pdu
write_10 len = scsi_command (record {
  header = write_header len;
  read = false;
  write = true;
  attr = 1;
  expected_data_transfer_length = 512;
  cmd_sn = 0xffff_ffff;
  exp_stat_sn = 7;
  cdb = 0x2a ∷ zeros 15;
  immediate_data = 1 ∷ 2 ∷ 3 ∷ 4 ∷ 5 ∷ [];
})

write_10-IsValid : IsValidPdu (write_10 5)
write_10-IsValid = record {
  of_header = record {
    ahs_byte = omega arith;
    length_fits = omega arith;
    lun_array = refl;
    tag_word = omega arith;
  };
  of_attr = omega arith;
  of_expected_data_transfer_length = omega arith;
  of_cmd_sn = omega arith;
  of_exp_stat_sn = omega arith;
  of_cdb = refl;
}

decode_bhs-marshal_bhs_example : (marshal_bhs (write_10 5) >>= decode_bhs) ≡ ok (sent (write_10 5))
decode_bhs-marshal_bhs_example = decode_bhs-marshal_bhs (write_10 5) write_10-IsValid

decode_bhs-Answers_example :
    Answers
      (bit_and (byte_at (0x41 ∷ zeros 47) 0) 0x3f)
      (0x41 ∷ zeros 47)
      (decode_bhs (0x41 ∷ zeros 47))
decode_bhs-Answers_example = decode_bhs-Answers (0x41 ∷ zeros 47)

encode_pdu_wire_example :
    (bhs : List ℕ) × (k : ℕ) × (encode_pdu (write_10 5)
      ≡ ok (bhs ++ (data_segment (write_10 5) ++ zeros k)))
    × (length bhs ≡ 48)
    × (decode_bhs bhs ≡ ok (sent (write_10 5)))
    × (k < 4)
    × ((48 + length (data_segment (write_10 5)) + k) % 4 ≡ 0)
encode_pdu_wire_example = encode_pdu_wire (write_10 5) write_10-IsValid
