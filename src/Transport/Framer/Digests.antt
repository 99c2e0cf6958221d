-- ===== src/Transport/Framer/Digests.antt =====
-- internal/transport/framer.go: the digest checks of ReadRawPDU.
use uiscsi.Common.{
  ℕ, ◌<◌, ◌≡◌, refl, Bool, true, false, ◌⊎◌, ◌&&◌, not, List, ◌++◌, ◌==◌, ==_iff, inl, inr,
  if◌then◌else◌, arith,
}
use uiscsi.Digest.{header_digest_of, data_digest_of}
use uiscsi.Pdu.Header.{bhs_length, decode_data_segment_length}
use uiscsi.Transport.Framer.{
  RawPdu, ByteOrder, ReadResult, ok, err, ReadError, read_full, remaining, no_payload,
  slice_payload, verify_digests, read_raw_pdu, after_payload, after_bhs,
}

accepted :
    (c1 c2 : Bool) (x y : ReadError) (raw p : RawPdu) (left rest : List ℕ)
    → (if c1 then err x else if c2 then err y else ok raw left) ≡ ok p rest
    → (c1 ≡ false) × (c2 ≡ false) × (raw ≡ p)
accepted true c2 x y raw p left rest e = absurd (cc)
accepted false true x y raw p left rest e = absurd (cc)
accepted false false x y raw p left rest e = (refl, refl, cc)

matched : (c : Bool) (a b : ℕ) → c ≡ true → (c && not (a == b)) ≡ false → b ≡ a
matched c a b t e = ground arith

module _ (crc : List ℕ → ℕ) where
  -- What a PDU with the digests that the reader asked for satisfies.
  pub record IsChecked (digest_header digest_data : Bool) (p : RawPdu) : Type 0 where
    pub header_ok : digest_header ≡ true → p.header_digest ≡ header_digest_of crc (p.bhs ++ p.ahs)
    pub data_ok :
        digest_data ≡ true
        → 0 < decode_data_segment_length p.bhs
        → p.data_digest ≡ data_digest_of crc p.data_segment

  verify_digests-ok :
      (raw p : RawPdu) (left rest : List ℕ)
      → verify_digests crc raw left ≡ ok p rest
      → ((raw.has_h_digest && not (header_digest_of crc (raw.bhs ++ raw.ahs) == raw.header_digest))
          ≡ false)
        × ((raw.has_d_digest && not (data_digest_of crc raw.data_segment == raw.data_digest))
            ≡ false)
        × (raw ≡ p)
  unfolding verify_digests
  verify_digests-ok raw p left rest e = accepted _ _ _ _ raw p left rest e

  slice_payload-IsChecked :
      (h d : Bool) (order : ByteOrder) (bhs payload rest left : List ℕ) (p : RawPdu)
      → verify_digests crc (slice_payload h d order bhs payload) left ≡ ok p rest
      → IsChecked h d (slice_payload h d order bhs payload)
  unfolding slice_payload
  slice_payload-IsChecked h d order bhs payload rest left p e =
      let (header, segment, _) =
        verify_digests-ok (slice_payload h d order bhs payload) p left rest e in
      record {
        header_ok = λ asked. matched h _ _ asked header;
        data_ok = λ asked announced. matched _ _ _ (ground arith) segment;
      }

  verify_digests-IsChecked :
      (h d : Bool) (order : ByteOrder) (bhs payload rest left : List ℕ) (p : RawPdu)
      → verify_digests crc (slice_payload h d order bhs payload) left ≡ ok p rest
      → IsChecked h d p
  verify_digests-IsChecked h d order bhs payload rest left p e =
      let (_, _, same) = verify_digests-ok (slice_payload h d order bhs payload) p left rest e in
      rw (← same) (slice_payload-IsChecked h d order bhs payload rest left p e)

  no_payload-IsChecked :
      (h d : Bool) (bhs : List ℕ) → remaining h d bhs ≡ 0 → IsChecked h d (no_payload bhs)
  unfolding remaining
  no_payload-IsChecked true d bhs e = absurd (omega arith)
  no_payload-IsChecked false d bhs e = record {
    header_ok = λ asked. absurd cc;
    data_ok = λ _ announced. absurd (omega arith);
  }

  after_payload-IsChecked :
      (h d : Bool) (order : ByteOrder) (bhs rest : List ℕ) (p : RawPdu) (read : ReadResult (List ℕ))
      → after_payload crc h d order bhs read ≡ ok p rest
      → IsChecked h d p
  after_payload-IsChecked h d order bhs rest p (err x) e = absurd cc
  after_payload-IsChecked h d order bhs rest p (ok payload left) e =
      verify_digests-IsChecked h d order bhs payload rest left p e

  announced :
      (big none_left : Bool) (x : ReadError) (bhs left rest : List ℕ) (p : RawPdu)
      (more : ReadResult RawPdu)
      → (if big then err x else if none_left then ok (no_payload bhs) left else more) ≡ ok p rest
      → ((none_left ≡ true) × (no_payload bhs ≡ p)) ⊎ (more ≡ ok p rest)
  announced true none_left x bhs left rest p more e = absurd cc
  announced false true x bhs left rest p more e = inl (refl, cc)
  announced false false x bhs left rest p more e = inr e

  after_bhs-IsChecked :
      (h d : Bool) (order : ByteOrder) (rest : List ℕ) (p : RawPdu) (read : ReadResult (List ℕ))
      → after_bhs crc h d order read ≡ ok p rest
      → IsChecked h d p
  after_bhs-IsChecked h d order rest p (err x) e = absurd cc
  after_bhs-IsChecked h d order rest p (ok bhs left) e =
      elim (announced _ (remaining h d bhs == 0) _ bhs left rest p _ e) [
        | inl (nothing, same) ↦ rw (← same) (no_payload-IsChecked h d bhs ((==_iff _ 0).0 nothing))
        | inr more ↦ after_payload-IsChecked h d order bhs rest p _ more
      ]

  -- A PDU that ReadRawPDU accepts carries the right digests, whatever the connection delivered: with
  -- header digests on, that of its header segments, and with data digests on and a data segment
  -- announced, that of its data.
  pub read_raw_pdu-IsChecked :
      (h d : Bool) (order : ByteOrder) (s rest : List ℕ) (p : RawPdu)
      → read_raw_pdu crc h d order s ≡ ok p rest
      → IsChecked h d p
  unfolding read_raw_pdu
  read_raw_pdu-IsChecked h d order s rest p e =
      after_bhs-IsChecked h d order rest p (read_full bhs_length s) e
