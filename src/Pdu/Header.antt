-- ===== src/Pdu/Header.antt =====
-- internal/pdu: opcode.go, bhs.go, padding.go and the common header of header.go.
-- `OpCode` is a number below 64; the 48-byte BHS is a list of 48 bytes.
use uiscsi.Common.{
  ℕ, ◌-◌, ◌%◌, ◌^◌, ◌<◌, ◌≡◌, List, Bool, bit_and, length, ltb, if◌then◌else◌, Option, none, some,
  refl,
}
use uiscsi.Common.Bits.{with_flag, has_flag}
use uiscsi.Common.Bytes.{
  byte_at, or_flag, put8, put16, put24, put32, get16, get24, get32, zeros, put_array, get_array,
}

-- A ProtocolError by its kind, with `Got` and `Limit` where the code sets them.
pub data Error : Type 0 where
  bad_opcode : ℕ → Error
  oversized_segment : ℕ → ℕ → Error
  mrdsl_exceeded : ℕ → ℕ → Error

-- The value of a call, or its error.
pub data Result {ℓ} (V : Type ℓ) : Type ℓ where
  err : Error → Result V
  ok : V → Result V

-- `if err != nil { return err }` between two calls.
infixl 5 ◌>>=◌
abbrev pub ◌>>=◌ {ℓ κ} : {V : Type ℓ} {W : Type κ} → Result V → (V → Result W) → Result W
err failure >>= next = err failure
ok value >>= next = next value

abbrev pub bhs_length : ℕ
bhs_length = 48

unfoldable pub pad_len : ℕ → ℕ
pad_len n = (4 - n % 4) % 4

abbrev pub encode_data_segment_length : ℕ → List ℕ → Result (List ℕ)
encode_data_segment_length ds_len bhs =
    if ltb 0xffffff ds_len then err (oversized_segment ds_len 0xffffff) else ok (put24 5 ds_len bhs)

abbrev pub decode_data_segment_length : List ℕ → ℕ
decode_data_segment_length bhs = get24 5 bhs

abbrev pub encode_opcode_byte : ℕ → Bool → ℕ
encode_opcode_byte opcode immediate = with_flag immediate 0x40 (bit_and opcode 0x3f)

abbrev pub decode_opcode_byte : ℕ → ℕ × Bool
decode_opcode_byte b = (bit_and b 0x3f, has_flag b 0x40)

pub record Header : Type 0 where
  pub immediate : Bool
  pub op_code : ℕ  -- uint8
  pub final : Bool
  pub total_ahs_length : ℕ  -- uint8
  pub data_segment_len : ℕ  -- uint32
  pub lun : List ℕ  -- [8]byte
  pub initiator_task_tag : ℕ  -- uint32

-- The fields are within the width of their Go types, and the length fits the wire's 24 bits.
pub record IsValidHeader (h : Header) : Type 0 where
  pub ahs_byte : h.total_ahs_length < 256
  pub length_fits : h.data_segment_len < 2 ^ 24
  pub lun_array : length h.lun ≡ 8
  pub tag_word : h.initiator_task_tag < 2 ^ 32

unfoldable pub marshal_header : Header → List ℕ → Result (List ℕ)
marshal_header h bhs = do
  let b0 = put8 0 (encode_opcode_byte h.op_code h.immediate) bhs
  let b1 = or_flag 1 0x80 h.final b0
  let b2 = put8 4 h.total_ahs_length b1
  b3 ← encode_data_segment_length h.data_segment_len b2
  ok (put32 16 h.initiator_task_tag (put_array 8 8 h.lun b3))

unfoldable pub unmarshal_header : List ℕ → Header
unmarshal_header bhs =
    let (op, imm) = decode_opcode_byte (byte_at bhs 0) in
    record {
      immediate = imm;
      op_code = op;
      final = has_flag (byte_at bhs 1) 0x80;
      total_ahs_length = byte_at bhs 4;
      data_segment_len = decode_data_segment_length bhs;
      lun = get_array 8 8 bhs;
      initiator_task_tag = get32 16 bhs;
    }

-- What the framer reads off a BHS.
pub record Frame : Type 0 where
  pub bhs_len : ℕ
  pub ahs_words : ℕ
  pub segment_len : ℕ

unfoldable pub frame_of : List ℕ → Frame
frame_of b = record {
  bhs_len = length b;
  ahs_words = byte_at b 4;
  segment_len = decode_data_segment_length b;
}

-- EncodeSAMLUN; `none` is its panic.
unfoldable pub encode_sam_lun : ℕ → Option (List ℕ)
encode_sam_lun lun = if ltb 0xffff lun then none else some (put16 0 (lun % 2 ^ 16) (zeros 8))

unfoldable pub decode_sam_lun : List ℕ → ℕ
decode_sam_lun b = if ltb (length b) 2 then 0 else get16 0 b

-- The value that the first of two successful calls passed to the second.
pub >>=-eq-ok {ℓ κ} :
    {V : Type ℓ} {W : Type κ} (first : Result V) (next : V → Result W) {w : W}
    → (first >>= next) ≡ ok w
    → (v : V) × (first ≡ ok v) × (next v ≡ ok w)
>>=-eq-ok (err failure) next e = cc
>>=-eq-ok (ok value) next e = (value, refl, e)

pub ok-injective {ℓ} : {A : Type ℓ} {a b : A} → ok a ≡ ok b → a ≡ b
ok-injective h = cc
