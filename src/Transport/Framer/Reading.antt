-- ===== src/Transport/Framer/Reading.antt =====
-- internal/transport/framer.go: ReadRawPDU against what WriteRawPDU sends, and its digest checks.
use uiscsi.Common.{
  ℕ, ◌+◌, ◌^◌, ◌<◌, ◌≡◌, refl, ap, sym, ◌∙◌, Bool, true, false, ◌&&◌, not, List, [], ◌∷◌, ◌++◌,
  take, drop, length, ltb, ◌==◌, ==_iff, length-append, length-replicate, take-append, drop-append,
  append_assoc, append-nil, Bool-cases, inl, inr, if◌then◌else◌, arith,
}
use uiscsi.Common.Bytes.{zeros, join32-put}
use uiscsi.Digest.{header_digest_of, data_digest_of}
use uiscsi.Pdu.Header.{bhs_length, pad_len, decode_data_segment_length}
use uiscsi.Transport.Framer.{
  RawPdu, ByteOrder, little_endian, big_endian, put_word, get_word, when, four_if, ok, read_full,
  ahs_len_of, remaining, no_payload, slice_payload, verify_digests, read_raw_pdu, wire_size,
  write_raw_pdu,
}
use uiscsi.Transport.Framer.Wire.{
  wire, segment_wire, length-put_word, length-when, length-segment_wire, write_raw_pdu-wire,
}

-- A digest that is read is the one that was put, in either byte order.
get_word-put_word : (order : ByteOrder) (x : ℕ) → x < 2 ^ 32 → get_word order (put_word order x) ≡ x
unfolding get_word put_word
get_word-put_word little_endian x h = join32-put x h
get_word-put_word big_endian x h = join32-put x h

take_at : (n : ℕ) (xs ys : List ℕ) → length xs ≡ n → take n (xs ++ ys) ≡ xs
take_at n xs ys h = rw (← h) (take-append xs ys)

drop_at : (n : ℕ) (xs ys : List ℕ) → length xs ≡ n → drop n (xs ++ ys) ≡ ys
drop_at n xs ys h = rw (← h) (drop-append xs ys)

read_full-append : (n : ℕ) (xs ys : List ℕ) → length xs ≡ n → read_full n (xs ++ ys) ≡ ok xs ys
unfolding read_full
read_full-append n xs ys h =
    rw (take_at n xs ys h, drop_at n xs ys h) (ground (arith, length-append xs ys))

agrees :
    (c : Bool) (digest sum : ℕ)
    → digest ≡ (if c then sum else 0)
    → (c && not (sum == digest)) ≡ false
agrees true digest sum e = ground arith
agrees false digest sum e = refl

nil_of_length : (xs : List ℕ) → length xs ≡ 0 → xs ≡ []
nil_of_length [] h = refl
nil_of_length (x ∷ xs) h = absurd (omega arith)

four_if-zero : (c : Bool) → four_if c ≡ 0 → c ≡ false
four_if-zero true h = absurd (omega arith)
four_if-zero false h = refl

and_twice : (a c : Bool) → (a && c && c) ≡ (a && c)
and_twice true true = refl
and_twice true false = refl
and_twice false c = refl

module _ (crc : List ℕ → ℕ) where
  -- A PDU whose BHS announces its segments and that carries the digests of `crc`.
  pub record IsFramed (digest_data : Bool) (p : RawPdu) : Type 0 where
    pub bhs_size : length p.bhs ≡ bhs_length
    pub ahs_size : length p.ahs ≡ ahs_len_of p.bhs
    pub segment_size : length p.data_segment ≡ decode_data_segment_length p.bhs
    pub segment_fits : length p.data_segment < 2 ^ 24
    pub header_digested :
        p.header_digest ≡ (if p.has_h_digest then header_digest_of crc (p.bhs ++ p.ahs) else 0)
    pub data_digested :
        p.data_digest ≡ (if p.has_d_digest then data_digest_of crc p.data_segment else 0)
    pub data_expected : p.has_d_digest ≡ (digest_data && ltb 0 (length p.data_segment))
    pub header_word : p.header_digest < 2 ^ 32
    pub data_word : p.data_digest < 2 ^ 32

  module _ (order : ByteOrder) (digest_data : Bool) (p : RawPdu) (f : IsFramed digest_data p) where
    hd : List ℕ
    hd = when p.has_h_digest (put_word order p.header_digest)

    sg : List ℕ
    sg = segment_wire order p.has_d_digest p.data_digest p.data_segment

    present : (p.has_d_digest && ltb 0 (length p.data_segment)) ≡ p.has_d_digest
    present = rw f.data_expected (and_twice digest_data (ltb 0 (length p.data_segment)))

    length_payload : length (p.ahs ++ (hd ++ sg)) ≡ remaining p.has_h_digest digest_data p.bhs
    unfolding remaining hd sg
    length_payload =
        rw
          (
            length-append p.ahs,
            length-append hd,
            length-when p.has_h_digest order p.header_digest,
            length-segment_wire order p.has_d_digest p.data_digest p.data_segment,
            present,
            ← f.segment_size,
            ← f.ahs_size,
            ← f.data_expected,
          )
          (omega arith)

    header_read :
        (h : Bool)
        → p.header_digest ≡ (if h then header_digest_of crc (p.bhs ++ p.ahs) else 0)
        → (if h then get_word order (take 4 (when h (put_word order p.header_digest) ++ sg)) else 0)
          ≡ p.header_digest
    header_read true e =
        rw (take_at 4 (put_word order p.header_digest) sg (length-put_word order p.header_digest))
          (get_word-put_word order p.header_digest f.header_word)
    header_read false e = sym e

    header_skipped :
        (h : Bool) → drop (four_if h) (when h (put_word order p.header_digest) ++ sg) ≡ sg
    header_skipped true =
        drop_at 4 (put_word order p.header_digest) sg (length-put_word order p.header_digest)
    header_skipped false = refl

    data_read :
        (d : Bool)
        → p.data_digest ≡ (if d then data_digest_of crc p.data_segment else 0)
        → (if d then get_word order (take 4 (when d (put_word order p.data_digest))) else 0)
          ≡ p.data_digest
    data_read true e =
        rw
          (
            ← append-nil (put_word order p.data_digest),
            take_at 4 (put_word order p.data_digest) [] (length-put_word order p.data_digest),
          )
          (get_word-put_word order p.data_digest f.data_word)
    data_read false e = sym e

    data_skipped :
        drop (length p.data_segment + pad_len (length p.data_segment)) sg
        ≡ when p.has_d_digest (put_word order p.data_digest)
    unfolding sg
    data_skipped =
        rw (present, ← append_assoc p.data_segment)
          (drop_at _ (p.data_segment ++ zeros (pad_len (length p.data_segment))) _ (
            length-append p.data_segment _
            ∙ ap (◌+◌ (length p.data_segment))
                (length-replicate {A = ℕ} (pad_len (length p.data_segment)) 0)))

    data_taken : take (length p.data_segment) sg ≡ p.data_segment
    unfolding sg
    data_taken = take-append p.data_segment _

    slice_payload-wire :
        slice_payload p.has_h_digest digest_data order p.bhs (p.ahs ++ (hd ++ sg)) ≡ p
    unfolding slice_payload hd
    slice_payload-wire = rw (
      take_at (ahs_len_of p.bhs) p.ahs (hd ++ sg) f.ahs_size,
      drop_at (ahs_len_of p.bhs) p.ahs (hd ++ sg) f.ahs_size,
      ← f.segment_size,
      ← f.data_expected,
      header_read p.has_h_digest f.header_digested,
      header_skipped p.has_h_digest,
      data_taken,
      data_skipped,
      data_read p.has_d_digest f.data_digested,
    )

    verify_digests-framed : (rest : List ℕ) → verify_digests crc p rest ≡ ok p rest
    unfolding verify_digests
    verify_digests-framed rest =
        rw (agrees p.has_h_digest _ _ f.header_digested, agrees p.has_d_digest _ _ f.data_digested)

    short : ltb 0xffffff (decode_data_segment_length p.bhs) ≡ false
    short = ground (arith, f.segment_size, f.segment_fits)

    nothing_sent : remaining p.has_h_digest digest_data p.bhs ≡ 0 → no_payload p.bhs ≡ p
    unfolding remaining
    nothing_sent e =
        let no_ahs : p.ahs ≡ [] = nil_of_length p.ahs (omega (arith, f.ahs_size)) in
        let no_data : p.data_segment ≡ [] =
          nil_of_length p.data_segment (omega (arith, f.segment_size)) in
        let no_header : p.has_h_digest ≡ false = four_if-zero p.has_h_digest (omega arith) in
        ground
          (arith, f.data_expected, f.data_digested, f.header_digested, no_ahs, no_data, no_header)

    read_payload :
        (rest : List ℕ)
        → read_raw_pdu crc p.has_h_digest digest_data order
            (p.bhs ++ ((p.ahs ++ (hd ++ sg)) ++ rest))
          ≡ ok p rest
    unfolding read_raw_pdu
    read_payload rest = elim (Bool-cases (remaining p.has_h_digest digest_data p.bhs == 0)) [
      | inl e ↦
          rw
            (read_full-append bhs_length p.bhs ((p.ahs ++ (hd ++ sg)) ++ rest) f.bhs_size, short, e)
            (rw
              (
                nothing_sent ((==_iff _ 0).0 e),
                nil_of_length (p.ahs ++ (hd ++ sg)) (length_payload ∙ (==_iff _ 0).0 e),
              )
              refl)
      | inr e ↦
          rw
            (
              read_full-append bhs_length p.bhs ((p.ahs ++ (hd ++ sg)) ++ rest) f.bhs_size,
              short,
              e,
              read_full-append _ (p.ahs ++ (hd ++ sg)) rest length_payload,
              slice_payload-wire,
            )
            (verify_digests-framed rest)
    ]

  -- For a PDU whose BHS announces its segments (the data of less than 2 ^ 24 bytes) and whose digests
  -- are present as set and right, and a pool buffer of its wire size: ReadRawPDU with the same digest
  -- settings and byte order reads back the PDU that WriteRawPDU sent, with all its segments and
  -- digests, and leaves on the connection what follows it.
  pub read_raw_pdu-write_raw_pdu :
      (order : ByteOrder) (digest_data : Bool) (buf rest : List ℕ) (p : RawPdu)
      → IsFramed digest_data p
      → length buf ≡ wire_size p
      → read_raw_pdu crc p.has_h_digest digest_data order (write_raw_pdu order buf p ++ rest)
        ≡ ok p rest
  unfolding wire hd sg
  read_raw_pdu-write_raw_pdu order digest_data buf rest p f b =
      rw (write_raw_pdu-wire order buf p f.bhs_size b, append_assoc p.bhs)
        (read_payload order digest_data p f rest)
