-- ===== src/Transport/Router/Tags.antt =====
-- internal/transport/router.go: the task tags that the router hands out.
use uiscsi.Common.{false, ℕ, zero, suc, ◌+◌, ◌%◌, ◌<◌, ◌≡◌, ◌≢◌, ap, some, arith}
use uiscsi.Transport.Router.{
  Router, Entry, Channel, insert, lookup, reserved_itt, allocate_itt, register,
}

-- NextITT is a uint32 other than the reserved value, as NewRouter sets it and every call leaves it.
abbrev pub IsRouter : Router → Type 0
IsRouter r = r.next_itt < reserved_itt

-- The tag of the `k`-th allocation from now, counting from 0.
unfoldable pub nth_itt : ℕ → Router → ℕ
nth_itt zero r = (allocate_itt r).0
nth_itt (suc k) r = nth_itt k (allocate_itt r).1

allocate_itt-IsRouter : (r : Router) → IsRouter r → IsRouter (allocate_itt r).1
unfolding allocate_itt
allocate_itt-IsRouter r h = ground arith

next_itt_lem :
    (r : Router) → IsRouter r → (allocate_itt r).1.next_itt ≡ (r.next_itt + 1) % reserved_itt
unfolding allocate_itt
next_itt_lem r h = ground arith

-- The tags go round the numbers below the reserved value.
nth_itt_lem : (k : ℕ) (r : Router) → IsRouter r → nth_itt k r ≡ (r.next_itt + k) % reserved_itt
unfolding nth_itt
nth_itt_lem zero r h = unfold allocate_itt in ground arith
nth_itt_lem (suc k) r h =
    omega (arith, nth_itt_lem k (allocate_itt r).1 (allocate_itt-IsRouter r h), next_itt_lem r h)

-- No allocation hands out the reserved tag, and any 2 ^ 32 - 1 allocations in a row hand out
-- different tags.
pub nth_itt_distinct :
    (r : Router) (i j : ℕ)
    → IsRouter r
    → i < j
    → j < i + reserved_itt
    → (nth_itt i r < reserved_itt) × (nth_itt i r ≢ nth_itt j r)
nth_itt_distinct r i j h lo hi =
    (omega (arith, nth_itt_lem i r h), omega (arith, nth_itt_lem i r h, nth_itt_lem j r h))

-- Register does not look whether the tag is free: when the next tag still waits for a response on
-- some channel, the new registration takes the tag over, and the response is sent elsewhere.
pub register_takes_over :
    (r : Router) (old : Entry)
    → IsRouter r
    → lookup r.next_itt r.pending ≡ some old
    → old.ch.serial < r.made
    → (lookup r.next_itt (register r).1.pending
        ≡ some (record { ch = (register r).0.1; persistent = false }))
      × ((register r).0.1 ≢ old.ch)
unfolding register allocate_itt insert lookup
register_takes_over r old h found e = (ground arith, λ same. ground (arith, ap Channel.serial same))
