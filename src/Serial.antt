-- ===== src/Serial.antt =====
-- internal/serial/serial.go: RFC 1982 serial numbers. A uint32 is a number below 2 ^ 32; `int32(d)`
-- is negative when bit 31 of `d` is set.
pub mod Order
mod Tests
use uiscsi.Common.{ℕ, ◌+◌, ◌-◌, ◌%◌, ◌^◌, ◌<◌, Bool, ◌&&◌, ◌||◌, not, ltb, leb, ◌==◌}

abbrev pub IsWord : ℕ → Type 0
IsWord s = s < 2 ^ 32

-- uint32 subtraction.
abbrev pub sub32 : ℕ → ℕ → ℕ
sub32 a b = (a + 2 ^ 32 - b) % 2 ^ 32

-- `int32(d) < 0` and `int32(d) > 0` for a uint32 `d`.
abbrev pub is_negative : ℕ → Bool
is_negative d = leb (2 ^ 31) d

abbrev pub is_positive : ℕ → Bool
is_positive d = ltb 0 d && ltb d (2 ^ 31)

unfoldable pub less_than : ℕ → ℕ → Bool
less_than s1 s2 = not (s1 == s2) && is_negative (sub32 s1 s2)

unfoldable pub greater_than : ℕ → ℕ → Bool
greater_than s1 s2 = not (s1 == s2) && is_positive (sub32 s1 s2)

unfoldable pub in_window : ℕ → ℕ → ℕ → Bool
unfolding less_than greater_than
in_window sn lo hi = sn == lo || sn == hi || (greater_than sn lo && less_than sn hi)

unfoldable pub incr : ℕ → ℕ
incr s = (s + 1) % 2 ^ 32
