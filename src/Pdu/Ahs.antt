-- ===== src/Pdu/Ahs.antt =====
-- internal/pdu/ahs.go: Additional Header Segments. The decoder's `offset` is the part of `data`
-- that is still to be read, so `offset + n > len(data)` is a test of its length.
pub mod RoundTrip
mod Tests
use uiscsi.Common.{
  ℕ, zero, suc, ◌+◌, ◌-◌, ◌/◌, ◌%◌, ◌^◌, List, [], ◌∷◌, ◌++◌, take, drop, length, ltb,
  if◌then◌else◌,
}
use uiscsi.Common.Bytes.{byte_at, get16, put16, zeros}
use uiscsi.Pdu.Header.{pad_len}

pub record Ahs : Type 0 where
  pub type : ℕ  -- uint8
  pub bytes : List ℕ

-- `out_of_fuel` is no Go error: the model's loop took more rounds than it was given.
pub data Error : Type 0 where
  truncated_header invalid_length data_exceeds out_of_fuel : Error
  data_too_long : ℕ → Error

pub data Result : Type 0 where
  ok : List Ahs → Result
  err : Error → Result

abbrev pub ahs_header_len : ℕ
ahs_header_len = 4

abbrev pub max_data_len : ℕ
max_data_len = 16384

unfoldable pub marshal_segment : Ahs → List ℕ
marshal_segment seg =
    let ahs_len = (2 + length seg.bytes) % 2 ^ 16 in
    let hdr = put16 0 ahs_len (0 ∷ 0 ∷ seg.type ∷ 0 ∷ []) in
    let total_len = (ahs_header_len + length seg.bytes) % 2 ^ 32 in
    hdr ++ (seg.bytes ++ zeros (pad_len total_len))

unfoldable pub marshal_ahs : List Ahs → List ℕ
marshal_ahs [] = []
marshal_ahs (seg ∷ segs) = marshal_segment seg ++ marshal_ahs segs

unfoldable pub unmarshal_loop : ℕ → List ℕ → List Ahs → Result
unmarshal_loop fuel [] segments = ok segments
unmarshal_loop zero (b ∷ bs) segments = err out_of_fuel
unmarshal_loop (suc fuel) (b ∷ bs) segments =
    let left = b ∷ bs in
    let ahs_len = get16 0 left in
    let data_len = ahs_len - 2 in
    let total_len = ahs_header_len + data_len in
    let seg : Ahs = record {
      type = byte_at left 2;
      bytes = take data_len (drop ahs_header_len left);
    } in
    let more =
      unmarshal_loop fuel (drop (total_len + pad_len total_len) left) (segments ++ seg ∷ []) in
    if ltb (length left) ahs_header_len
    then err truncated_header
    else if ltb ahs_len 2
    then err invalid_length
    else if ltb max_data_len data_len
    then err (data_too_long data_len)
    else if ltb (length left) (ahs_header_len + data_len)
    then err data_exceeds
    else more

-- Each round takes four bytes at least.
unfoldable pub unmarshal_ahs : List ℕ → Result
unmarshal_ahs bytes = unmarshal_loop (length bytes) bytes []
