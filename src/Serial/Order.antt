-- ===== src/Serial/Order.antt =====
-- internal/serial/serial.go: the comparisons against distances on the circle of 2 ^ 32 numbers.
use uiscsi.Common.{ℕ, ◌+◌, ◌%◌, ◌^◌, ◌≤◌, ◌<◌, ◌≡◌, ◌≢◌, ◌↔◌, true, not, arith}
use uiscsi.Serial.{IsWord, sub32, less_than, greater_than, in_window, incr}

-- `LessThan s (s + d)` holds exactly for the distances 1 to 2 ^ 31, also across the wrap, and
-- `GreaterThan` the other way round for those up to 2 ^ 31 - 1.
pub less_than-add :
    (s d : ℕ)
    → IsWord s
    → IsWord d
    → ((less_than s ((s + d) % 2 ^ 32) ≡ true) ↔ ((0 < d) × (d ≤ 2 ^ 31)))
      × ((greater_than ((s + d) % 2 ^ 32) s ≡ true) ↔ ((0 < d) × (d < 2 ^ 31)))
unfolding less_than greater_than
less_than-add s d hs hd = ((ground arith, ground arith), (ground arith, ground arith))

-- For two different numbers that are not opposite on the circle, exactly one order holds: they
-- compare in one direction and not in the other.
pub less_than_trichotomy :
    (a b : ℕ)
    → IsWord a
    → IsWord b
    → a ≢ b
    → sub32 a b ≢ 2 ^ 31
    → (less_than a b ≡ not (less_than b a)) × (greater_than a b ≡ less_than b a)
unfolding less_than greater_than
less_than_trichotomy a b ha hb ne opp = (ground arith, ground arith)

-- Opposite numbers are each less than the other: the comparison is no order there.
pub less_than_opposite :
    (a : ℕ)
    → IsWord a
    → (less_than a ((a + 2 ^ 31) % 2 ^ 32) ≡ true) × (less_than ((a + 2 ^ 31) % 2 ^ 32) a ≡ true)
unfolding less_than
less_than_opposite a h = (ground arith, ground arith)

-- For a window of `n` numbers above `lo`, with `n` below 2 ^ 31, InWindow holds exactly of the
-- numbers at a distance of at most `n` from `lo`, also where the window wraps.
pub in_window_iff :
    (lo n k : ℕ)
    → IsWord lo
    → n < 2 ^ 31
    → IsWord k
    → (in_window ((lo + k) % 2 ^ 32) lo ((lo + n) % 2 ^ 32) ≡ true) ↔ (k ≤ n)
unfolding in_window
in_window_iff lo n k hlo hn hk = (ground arith, ground arith)

pub incr-IsWord : (s : ℕ) → IsWord (incr s)
unfolding incr
incr-IsWord s = omega arith
