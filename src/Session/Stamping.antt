-- ===== src/Session/Stamping.antt =====
-- internal/session/session.go: Session.stampDigests, with the connection's two digest settings.
use uiscsi.Common.{
  ℕ, ◌^◌, ◌<◌, ◌≡◌, Bool, true, false, ◌&&◌, List, ◌++◌, length, ltb, if-elim, subst, arith,
}
use uiscsi.Digest.{header_digest_of, data_digest_of}
use uiscsi.Pdu.Header.{bhs_length, decode_data_segment_length}
use uiscsi.Transport.Framer.{
  RawPdu, ByteOrder, ok, ahs_len_of, read_raw_pdu, write_raw_pdu, wire_size,
}
use uiscsi.Transport.Framer.Reading.{IsFramed, read_raw_pdu-write_raw_pdu}

abbrev with_header_digest : Bool → ℕ → RawPdu → RawPdu
with_header_digest true sum raw = record raw { header_digest = sum; has_h_digest = true }
with_header_digest false sum raw = raw

abbrev with_data_digest : Bool → ℕ → RawPdu → RawPdu
with_data_digest true sum raw = record raw { data_digest = sum; has_d_digest = true }
with_data_digest false sum raw = raw

unfoldable pub stamp_digests : (List ℕ → ℕ) → Bool → Bool → RawPdu → RawPdu
stamp_digests crc digest_header digest_data raw =
    with_data_digest (digest_data && ltb 0 (length raw.data_segment))
      (data_digest_of crc raw.data_segment)
      (with_header_digest digest_header (header_digest_of crc (raw.bhs ++ raw.ahs)) raw)

-- The digests change neither the header segments nor the data.
pub record KeepsContent (stamp : RawPdu → RawPdu) : Type 0 where
  pub bhs_kept : (p : RawPdu) → (stamp p).bhs ≡ p.bhs
  pub ahs_kept : (p : RawPdu) → (stamp p).ahs ≡ p.ahs
  pub segment_kept : (p : RawPdu) → (stamp p).data_segment ≡ p.data_segment

pub stamp_digests-KeepsContent :
    (crc : List ℕ → ℕ) (h d : Bool) → KeepsContent (stamp_digests crc h d)
unfolding stamp_digests
stamp_digests-KeepsContent crc h d = record {
  bhs_kept = λ p. ground arith;
  ahs_kept = λ p. ground arith;
  segment_kept = λ p. ground arith;
}

-- A PDU without digests whose BHS announces its segments.
pub record IsPlain (p : RawPdu) : Type 0 where
  pub bhs_size : length p.bhs ≡ bhs_length
  pub ahs_size : length p.ahs ≡ ahs_len_of p.bhs
  pub segment_size : length p.data_segment ≡ decode_data_segment_length p.bhs
  pub segment_fits : length p.data_segment < 2 ^ 24
  pub header_digest_unset : p.header_digest ≡ 0
  pub data_digest_unset : p.data_digest ≡ 0
  pub no_header_digest : p.has_h_digest ≡ false
  pub no_data_digest : p.has_d_digest ≡ false

module _ (crc : List ℕ → ℕ) (crc_word : (xs : List ℕ) → crc xs < 2 ^ 32) where
  header_digest_word : (xs : List ℕ) → header_digest_of crc xs < 2 ^ 32
  unfolding header_digest_of
  header_digest_word xs = crc_word xs

  data_digest_word : (xs : List ℕ) → data_digest_of crc xs < 2 ^ 32
  unfolding data_digest_of
  data_digest_word xs = if-elim (λ n. n < 2 ^ 32) _ (crc_word _) (crc_word _)

  stamp_digests-IsFramed :
      (h d : Bool) (p : RawPdu)
      → IsPlain p
      → ((stamp_digests crc h d p).has_h_digest ≡ h) × IsFramed crc d (stamp_digests crc h d p)
  unfolding stamp_digests
  stamp_digests-IsFramed h d p v =
      let header_fits = header_digest_word (p.bhs ++ p.ahs) in
      let data_fits = data_digest_word p.data_segment in
      (
        ground (arith, v.no_header_digest),
        record {
          bhs_size = ground (arith, v.bhs_size);
          ahs_size = ground (arith, v.ahs_size);
          segment_size = ground (arith, v.segment_size);
          segment_fits = ground (arith, v.segment_fits);
          header_digested = ground (arith, v.no_header_digest, v.header_digest_unset);
          data_digested = ground (arith, v.no_data_digest, v.data_digest_unset);
          data_expected = ground (arith, v.no_data_digest);
          header_word = ground (arith, v.header_digest_unset, header_fits);
          data_word = ground (arith, v.data_digest_unset, data_fits);
        },
      )

  -- With a CRC of 32 bits, a PDU without digests whose BHS announces its segments (the data of less
  -- than 2 ^ 24 bytes), once stampDigests has stamped it and WriteRawPDU has sent it, is accepted
  -- and read back whole by ReadRawPDU with the same digest settings and byte order.
  pub read_raw_pdu-stamp_digests :
      (h d : Bool) (order : ByteOrder) (buf rest : List ℕ) (p : RawPdu)
      → IsPlain p
      → length buf ≡ wire_size (stamp_digests crc h d p)
      → read_raw_pdu crc h d order (write_raw_pdu order buf (stamp_digests crc h d p) ++ rest)
        ≡ ok (stamp_digests crc h d p) rest
  read_raw_pdu-stamp_digests h d order buf rest p v b =
      let (same, framed) = stamp_digests-IsFramed h d p v in
      let raw = stamp_digests crc h d p in
      subst (λ x. read_raw_pdu crc x d order (write_raw_pdu order buf raw ++ rest) ≡ ok raw rest)
        same (read_raw_pdu-write_raw_pdu crc order d buf rest raw framed b)
