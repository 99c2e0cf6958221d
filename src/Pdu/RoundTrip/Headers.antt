-- ===== src/Pdu/RoundTrip/Headers.antt =====
-- internal/pdu: the bytes of the common header, shared by the round trips of all PDU types.
use uiscsi.Common.{
  ℕ, ◌^◌, ◌<◌, ◌≤◌, ◌≡◌, refl, Bool, true, false, bit_and, ltb, ◌==◌, ==_iff, arith,
}
use uiscsi.Common.Bits.{
  with_flag, has_flag, each_below, each_below_lem, all_flags, all_flags_sound, same, same→eq,
}

pub fits24 : (n : ℕ) → n < 2 ^ 24 → ltb 0xffffff n ≡ false
fits24 n h = ground arith

pub exceeds24 : (n : ℕ) → 2 ^ 24 ≤ n → ltb 0xffffff n ≡ true
exceeds24 n h = ground arith

opcode_table :
    each_below 64 (λ op. all_flags (λ c. bit_and (with_flag c 0x40 (bit_and op 0x3f)) 0x3f == op))
    ≡ true
unfolding each_below all_flags
opcode_table = refl

pub opcode_lem :
    (op : ℕ) (c : Bool) → op < 64 → bit_and (with_flag c 0x40 (bit_and op 0x3f)) 0x3f ≡ op
opcode_lem op c h = (==_iff _ _).0 (all_flags_sound _ c (each_below_lem 64 _ op opcode_table h))

immediate_table :
    each_below 64
      (λ op. all_flags (λ c. same (has_flag (with_flag c 0x40 (bit_and op 0x3f)) 0x40) c))
    ≡ true
unfolding each_below all_flags
immediate_table = refl

pub immediate_lem :
    (op : ℕ) (c : Bool) → op < 64 → has_flag (with_flag c 0x40 (bit_and op 0x3f)) 0x40 ≡ c
immediate_lem op c h = same→eq _ _ (all_flags_sound _ c (each_below_lem 64 _ op immediate_table h))

pub final_flag : (c : Bool) → has_flag (with_flag c 0x80 0) 0x80 ≡ c
final_flag true = refl
final_flag false = refl
