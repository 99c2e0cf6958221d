-- ===== src/Transport/Framer/Wire.antt =====
-- internal/transport/framer.go: the bytes that WriteRawPDU sends, whatever the pool's buffer held.
use uiscsi.Common.{
  ℕ, suc, ◌+◌, ◌≤◌, ◌≡◌, refl, sym, ◌∙◌, Bool, true, false, ◌&&◌, List, [], ◌∷◌, ◌++◌, take, drop,
  length, ltb, length-append, length-replicate, length-drop, take-append, take_all, append_assoc,
  append-nil, arith,
}
use uiscsi.Common.Bytes.{zeros}
use uiscsi.Pdu.Header.{bhs_length, pad_len}
use uiscsi.Transport.Framer.{
  RawPdu, ByteOrder, little_endian, big_endian, put_word, when, four_if, append_to, append_if,
  wire_size, write_segment, write_raw_pdu,
}

-- The data segment on the wire.
abbrev pub segment_wire : ByteOrder → Bool → ℕ → List ℕ → List ℕ
segment_wire order has_d digest segment =
    segment
    ++ (zeros (pad_len (length segment))
        ++ when (has_d && ltb 0 (length segment)) (put_word order digest))

-- The PDU on the wire: header segments, header digest, data, padding, data digest.
unfoldable pub wire : ByteOrder → RawPdu → List ℕ
wire order p =
    p.bhs
    ++ (p.ahs
        ++ (when p.has_h_digest (put_word order p.header_digest)
            ++ segment_wire order p.has_d_digest p.data_digest p.data_segment))

pub length-put_word : (order : ByteOrder) (x : ℕ) → length (put_word order x) ≡ 4
unfolding put_word
length-put_word little_endian x = refl
length-put_word big_endian x = refl

-- The cursor `c` over a buffer of `n` bytes has written `front`.
record Wrote (front : List ℕ) (n : ℕ) (c : ℕ × List ℕ) : Type 0 where
  at : c.0 ≡ length front
  starts : take (length front) c.1 ≡ front
  size : length c.1 ≡ n

append_to-Wrote :
    (front xs : List ℕ) (n : ℕ) (c : ℕ × List ℕ)
    → Wrote front n c
    → length front + length xs ≤ n
    → Wrote (front ++ xs) n (append_to xs c)
append_to-Wrote front xs n (off, buf) w h =
    let after = drop (length front + length xs) buf in
    let size : length ((front ++ xs) ++ after) ≡ n = omega (
      arith,
      length-append (front ++ xs) after,
      length-append front xs,
      length-drop (length front + length xs) buf,
      w.size,
    ) in
    rw
      (
        w.at,
        w.starts,
        ← append_assoc front xs,
        take_all (length buf) ((front ++ xs) ++ after) (omega (arith, w.size)),
      )
      (record {
        at = sym (length-append front xs);
        starts = take-append (front ++ xs) _;
        size = size;
      })

append_if-Wrote :
    (c : Bool) (front xs : List ℕ) (n : ℕ) (at : ℕ × List ℕ)
    → Wrote front n at
    → length front + length (when c xs) ≤ n
    → Wrote (front ++ when c xs) n (append_if c xs at)
append_if-Wrote true front xs n at w h = append_to-Wrote front xs n at w h
append_if-Wrote false front xs n at w h = rw (append-nil front) w

pub length-when :
    (c : Bool) (order : ByteOrder) (x : ℕ) → length (when c (put_word order x)) ≡ four_if c
length-when true order x = length-put_word order x
length-when false order x = refl

when_and : {A : Type 0} (c : Bool) (xs : List A) → when (c && true) xs ≡ when c xs
when_and true xs = refl
when_and false xs = refl

when-false : {A : Type 0} (c : Bool) (xs : List A) → when (c && false) xs ≡ []
when-false true xs = refl
when-false false xs = refl

some_bytes : (n : ℕ) → ltb 0 (suc n) ≡ true
some_bytes n = ground arith

four_if_some : (c : Bool) (n : ℕ) → four_if (c && ltb 0 (suc n)) ≡ four_if c
four_if_some true n = rw (some_bytes n)
four_if_some false n = refl

pub length-segment_wire :
    (order : ByteOrder) (has_d : Bool) (digest : ℕ) (segment : List ℕ)
    → length (segment_wire order has_d digest segment)
      ≡ length segment + pad_len (length segment) + four_if (has_d && ltb 0 (length segment))
length-segment_wire order has_d digest segment =
    let z = zeros (pad_len (length segment)) in
    let t = when (has_d && ltb 0 (length segment)) (put_word order digest) in
    omega (
      arith,
      length-append segment (z ++ t),
      length-append z t,
      length-replicate {A = ℕ} (pad_len (length segment)) 0,
      length-when (has_d && ltb 0 (length segment)) order digest,
    )

write_segment-Wrote :
    (order : ByteOrder) (has_d : Bool) (digest : ℕ) (segment front : List ℕ) (n : ℕ)
    (c : ℕ × List ℕ)
    → Wrote front n c
    → length front + length (segment_wire order has_d digest segment) ≤ n
    → Wrote
        (front ++ segment_wire order has_d digest segment)
        n
        (write_segment order has_d digest segment c)
unfolding pad_len
write_segment-Wrote order has_d digest [] front n c w h =
    rw (when-false has_d (put_word order digest), append-nil front) w
write_segment-Wrote order has_d digest (x ∷ xs) front n c w h =
    let a = x ∷ xs in
    let z = zeros (pad_len (length a)) in
    let d = put_word order digest in
    let fits : length front + (length a + length z + four_if has_d) ≤ n = omega (
      arith,
      h,
      length-segment_wire order has_d digest a,
      four_if_some has_d (length xs),
      length-replicate {A = ℕ} (pad_len (length a)) 0,
    ) in
    let w1 = append_to-Wrote front a n c w (omega arith) in
    let w2 =
      append_to-Wrote (front ++ a) z n (append_to a c) w1 (omega (arith, length-append front a)) in
    rw
      (
        some_bytes (length xs),
        when_and has_d d,
        ← append_assoc front a,
        ← append_assoc (front ++ a) z,
      )
      (append_if-Wrote has_d ((front ++ a) ++ z) d n _ w2 (
        omega (
          arith,
          length-append (front ++ a) z,
          length-append front a,
          length-when has_d order digest,
        )))

written_front : {front : List ℕ} {n : ℕ} {c : ℕ × List ℕ} → Wrote front n c → take c.0 c.1 ≡ front
written_front w = rw w.at w.starts

-- For a PDU with a BHS of 48 bytes and a pool buffer of its wire size with any content, WriteRawPDU
-- sends exactly the wire form of the PDU: no stale byte of the buffer goes out.
pub write_raw_pdu-wire :
    (order : ByteOrder) (buf : List ℕ) (p : RawPdu)
    → length p.bhs ≡ bhs_length
    → length buf ≡ wire_size p
    → write_raw_pdu order buf p ≡ wire order p
unfolding write_raw_pdu wire wire_size
write_raw_pdu-wire order buf p b h =
    let hd = put_word order p.header_digest in
    let sg = segment_wire order p.has_d_digest p.data_digest p.data_segment in
    let room = length-segment_wire order p.has_d_digest p.data_digest p.data_segment in
    let w0 : Wrote [] (wire_size p) (0, buf) = record { at = refl; starts = refl; size = h } in
    let w1 = append_to-Wrote [] p.bhs _ _ w0 (omega (arith, b)) in
    let w2 = append_to-Wrote p.bhs p.ahs _ _ w1 (omega (arith, b)) in
    let w3 = append_if-Wrote p.has_h_digest (p.bhs ++ p.ahs) hd _ _ w2 (
      omega
        (arith, b, length-append p.bhs p.ahs, length-when p.has_h_digest order p.header_digest)) in
    let w4 = write_segment-Wrote order p.has_d_digest p.data_digest p.data_segment _ _ _ w3 (
      omega (
        arith,
        b,
        room,
        length-append (p.bhs ++ p.ahs) (when p.has_h_digest hd),
        length-append p.bhs p.ahs,
        length-when p.has_h_digest order p.header_digest,
      )) in
    written_front w4 ∙ simp append_assoc
