-- ===== src/Transport/Framer.antt =====
-- internal/transport/framer.go. The reader is the list of bytes that the connection still delivers;
-- `io.ReadFull` takes a number of them or fails. The pool's buffers are dirty: WriteRawPDU gets one
-- as an argument. A data segment is shorter than 2 ^ 32 bytes, so `uint32(len)` is its length.
-- CRC32C of hash/crc32 is the parameter `crc`.
pub mod Wire
pub mod Reading
pub mod Digests
use uiscsi.Common.{
  Option, some, none, ℕ, zero, suc, ◌+◌, ◌*◌, ◌/◌, ◌%◌, ◌^◌, ◌<◌, ◌≡◌, Bool, true, false, ◌&&◌, not,
  List, [], ◌∷◌, ◌++◌, take, drop, length, ltb, ◌==◌, if◌then◌else◌,
}
use uiscsi.Common.Bytes.{byte_at, zeros, join32}
use uiscsi.Digest.{header_digest_of, data_digest_of}
use uiscsi.Pdu.Header.{bhs_length, pad_len, decode_data_segment_length, Error, mrdsl_exceeded}

pub record RawPdu : Type 0 where
  pub bhs : List ℕ
  pub ahs : List ℕ
  pub data_segment : List ℕ
  pub header_digest : ℕ
  pub data_digest : ℕ
  pub has_h_digest : Bool
  pub has_d_digest : Bool

-- The two values of binary.ByteOrder.
pub data ByteOrder : Type 0 where
  little_endian big_endian : ByteOrder

unfoldable pub put_word : ByteOrder → ℕ → List ℕ
put_word little_endian x =
    (x % 256) ∷ (x / 2 ^ 8 % 256) ∷ (x / 2 ^ 16 % 256) ∷ (x / 2 ^ 24 % 256) ∷ []
put_word big_endian x = (x / 2 ^ 24 % 256) ∷ (x / 2 ^ 16 % 256) ∷ (x / 2 ^ 8 % 256) ∷ (x % 256) ∷ []

unfoldable pub get_word : ByteOrder → List ℕ → ℕ
get_word little_endian b = join32 (byte_at b 3) (byte_at b 2) (byte_at b 1) (byte_at b 0)
get_word big_endian b = join32 (byte_at b 0) (byte_at b 1) (byte_at b 2) (byte_at b 3)

pub data ReadError : Type 0 where
  eof unexpected_eof : ReadError
  oversized : ℕ → ReadError
  header_digest_error data_digest_error : ℕ → ℕ → ReadError

-- The PDU with the bytes that are left, or the error.
pub data ReadResult {ℓ} (A : Type ℓ) : Type ℓ where
  ok : A → List ℕ → ReadResult A
  err : ReadError → ReadResult A

-- `io.ReadFull` into a buffer of `n` bytes.
unfoldable pub read_full : ℕ → List ℕ → ReadResult (List ℕ)
read_full n s =
    if ltb (length s) n
    then err (if length s == 0 then eof else unexpected_eof)
    else ok (take n s) (drop n s)

abbrev pub ahs_len_of : List ℕ → ℕ
ahs_len_of bhs = byte_at bhs 4 * 4

abbrev pub when {ℓ} : {A : Type ℓ} → Bool → List A → List A
when true xs = xs
when false xs = []

-- `n` bytes if `c` holds.
abbrev pub four_if : Bool → ℕ
four_if true = 4
four_if false = 0

-- The bytes behind the BHS. A uint32 holds it: it is below 2 ^ 24 + 2 ^ 12.
unfoldable pub remaining : Bool → Bool → List ℕ → ℕ
remaining digest_header digest_data bhs =
    let ds_len = decode_data_segment_length bhs in
    ahs_len_of bhs
    + four_if digest_header
    + (ds_len + pad_len ds_len)
    + four_if (digest_data && ltb 0 ds_len)

-- Stage 5: the payload's parts.
unfoldable pub slice_payload : Bool → Bool → ByteOrder → List ℕ → List ℕ → RawPdu
slice_payload digest_header digest_data order bhs payload =
    let ds_len = decode_data_segment_length bhs in
    let after_ahs = drop (ahs_len_of bhs) payload in
    let segment = drop (four_if digest_header) after_ahs in
    let has_d = digest_data && ltb 0 ds_len in
    record {
      bhs = bhs;
      ahs = take (ahs_len_of bhs) payload;
      data_segment = take ds_len segment;
      header_digest = if digest_header then get_word order (take 4 after_ahs) else 0;
      data_digest =
          if has_d then get_word order (take 4 (drop (ds_len + pad_len ds_len) segment)) else 0;
      has_h_digest = digest_header;
      has_d_digest = has_d;
    }

-- The PDU of a BHS that announces nothing behind it.
abbrev pub no_payload : List ℕ → RawPdu
no_payload bhs = record {
  bhs = bhs;
  ahs = [];
  data_segment = [];
  header_digest = 0;
  data_digest = 0;
  has_h_digest = false;
  has_d_digest = false;
}

module _ (crc : List ℕ → ℕ) where
  -- Stage 6, with the bytes that are left on the connection.
  unfoldable pub verify_digests : RawPdu → List ℕ → ReadResult RawPdu
  verify_digests raw rest =
      let header_crc = header_digest_of crc (raw.bhs ++ raw.ahs) in
      let data_crc = data_digest_of crc raw.data_segment in
      if raw.has_h_digest && not (header_crc == raw.header_digest)
      then err (header_digest_error header_crc raw.header_digest)
      else if raw.has_d_digest && not (data_crc == raw.data_digest)
      then err (data_digest_error data_crc raw.data_digest)
      else ok raw rest

  abbrev after_payload : Bool → Bool → ByteOrder → List ℕ → ReadResult (List ℕ) → ReadResult RawPdu
  after_payload digest_header digest_data order bhs (err e) = err e
  after_payload digest_header digest_data order bhs (ok payload rest) =
      verify_digests (slice_payload digest_header digest_data order bhs payload) rest

  abbrev after_bhs : Bool → Bool → ByteOrder → ReadResult (List ℕ) → ReadResult RawPdu
  after_bhs digest_header digest_data order (err e) = err e
  after_bhs digest_header digest_data order (ok bhs rest) =
      let n = remaining digest_header digest_data bhs in
      if ltb 0xffffff (decode_data_segment_length bhs)
      then err (oversized (decode_data_segment_length bhs))
      else if n == 0
      then ok (no_payload bhs) rest
      else after_payload digest_header digest_data order bhs (read_full n rest)

  unfoldable pub read_raw_pdu : Bool → Bool → ByteOrder → List ℕ → ReadResult RawPdu
  read_raw_pdu digest_header digest_data order s =
      after_bhs digest_header digest_data order (read_full bhs_length s)

-- `copy(buf[off:], xs)`, which stops at the end of the buffer, and the cursor of WriteRawPDU: the
-- offset and the buffer.
abbrev pub copy_at : ℕ → List ℕ → List ℕ → List ℕ
copy_at off xs buf = take (length buf) (take off buf ++ (xs ++ drop (off + length xs) buf))

abbrev pub append_to : List ℕ → ℕ × List ℕ → ℕ × List ℕ
append_to xs (off, buf) = (off + length xs, copy_at off xs buf)

abbrev pub append_if : Bool → List ℕ → ℕ × List ℕ → ℕ × List ℕ
append_if true xs c = append_to xs c
append_if false xs c = c

unfoldable pub wire_size : RawPdu → ℕ
wire_size p =
    let ds_len = length p.data_segment in
    bhs_length
    + length p.ahs
    + four_if p.has_h_digest
    + (ds_len + pad_len ds_len)
    + four_if (p.has_d_digest && ltb 0 ds_len)

-- `if dsLen > 0`.
abbrev write_segment : ByteOrder → Bool → ℕ → List ℕ → ℕ × List ℕ → ℕ × List ℕ
write_segment order has_d digest [] c = c
write_segment order has_d digest (x ∷ xs) c =
    let padded = append_to (zeros (pad_len (length (x ∷ xs)))) (append_to (x ∷ xs) c) in
    append_if has_d (put_word order digest) padded

-- `buf` is a pool buffer of `wire_size p` bytes; the result is what is written to the connection.
unfoldable pub write_raw_pdu : ByteOrder → List ℕ → RawPdu → List ℕ
write_raw_pdu order buf p =
    let c1 = append_to p.ahs (append_to p.bhs (0, buf)) in
    let c2 = append_if p.has_h_digest (put_word order p.header_digest) c1 in
    let (off, written) = write_segment order p.has_d_digest p.data_digest p.data_segment c2 in
    take off written

-- `none` is the nil error.
unfoldable pub validate_outgoing_segment_length : ℕ → ℕ → Option Error
validate_outgoing_segment_length ds_len target_mrdsl =
    if ltb 0 target_mrdsl && ltb target_mrdsl ds_len
    then some (mrdsl_exceeded ds_len target_mrdsl)
    else none
