-- ===== src/Window/Waiter/Results.antt =====
-- internal/session/cmdwindow.go: what a blocked `acquire` answers, over all interleavings.
use uiscsi.Common.{ℕ, ◌≡◌, ◌≢◌, true, false, arith}
use uiscsi.Window.{Window, window_open, advance, acquire, granted, close}
use uiscsi.Window.Flow.{update_closed}
use uiscsi.Window.Waiter.{
  Outcome, got, shut_down, cancelled, running, finished, selecting, leaving, signalling, draining,
  returned, State, turn, Own, turns, sleeps, locks, receives, leaves, signals, broadcasts, drains,
  Step, own, updates, closes, others, other_broadcasts, expires, Steps, here, next, blocked,
}

-- How the caller, its context, the goroutine and the window agree.
record Inv (s : State) : Type 0 where
  leaving_expired : s.caller ≡ leaving → s.expired ≡ true
  signalling_expired : s.caller ≡ signalling → s.expired ≡ true
  draining_expired : s.caller ≡ draining → s.expired ≡ true
  cancelled_expired : s.caller ≡ returned cancelled → s.expired ≡ true
  signal_sent : s.waiter_done ≡ true → s.caller ≢ selecting
  cancel_seen : s.phase ≡ finished cancelled → s.waiter_done ≡ true
  closed_seen : s.phase ≡ finished shut_down → s.window.closed ≡ true
  number_passed : (sn : ℕ) → s.caller ≡ returned (got sn) → s.phase ≡ finished (got sn)
  closed_passed : s.caller ≡ returned shut_down → s.phase ≡ finished shut_down

turn-Inv : (s : State) → s.phase ≡ running → Inv s → Inv (turn s)
unfolding turn
turn-Inv s e v = ground (arith, v.number_passed)

acquire_closed : (w w' : Window) (sn : ℕ) → acquire w ≡ granted sn w' → w'.closed ≡ w.closed
unfolding acquire
acquire_closed w w' sn e = ground arith

Own-Inv : {s t : State} → Own s t → Inv s → Inv t
Own-Inv {s} (turns e) v = turn-Inv s e v
Own-Inv {s} (sleeps e) v = grind arith
Own-Inv {s} (locks e) v = grind arith
Own-Inv {s} (receives r c e) v = grind arith
Own-Inv {s} (leaves c e) v = grind arith
Own-Inv {s} (signals c) v = grind arith
Own-Inv {s} (broadcasts c) v = grind arith
Own-Inv {s} (drains r c e) v = grind arith

Step-Inv : {s t : State} → Step s t → Inv s → Inv t
Step-Inv {s} (own st) v = Own-Inv st v
Step-Inv {s} (updates x m hx hm e) v = grind (arith, update_closed x m s.window)
Step-Inv {s} (closes e) v = unfold close in grind arith
Step-Inv {s} (others sn w e a) v = grind (arith, acquire_closed s.window w sn a)
Step-Inv {s} other_broadcasts v = grind arith
Step-Inv {s} expires v = grind arith

Steps-Inv : {s t : State} → Steps s t → Inv s → Inv t
Steps-Inv here v = v
Steps-Inv (next r st) v = Step-Inv st (Steps-Inv r v)

blocked-Inv : (w : Window) → Inv (blocked w)
unfolding blocked
blocked-Inv w = grind arith

-- What an answer of `acquire` tells.
abbrev pub Explains : State → Outcome → Type 0
Explains s (got sn) = s.phase ≡ finished (got sn)
Explains s shut_down = s.window.closed ≡ true
Explains s cancelled = s.expired ≡ true

Inv-Explains : (s : State) (r : Outcome) → Inv s → s.caller ≡ returned r → Explains s r
Inv-Explains s (got sn) v e = v.number_passed sn e
Inv-Explains s shut_down v e = v.closed_seen (v.closed_passed e)
Inv-Explains s cancelled v e = v.cancelled_expired e

-- In every run of a blocked `acquire`, whatever the target and other callers do meanwhile, their
-- cancellations included: a number that it returns is the one its goroutine took; it returns
-- errWindowClosed only when the window is closed, and a cancellation only when its own context is
-- done.
pub Steps-Explains :
    (w : Window) (s : State) (r : Outcome)
    → Steps (blocked w) s
    → s.caller ≡ returned r
    → Explains s r
Steps-Explains w s r run e = Inv-Explains s r (Steps-Inv run (blocked-Inv w)) e

-- What holds in the step in which the goroutine takes the number `sn`.
pub record Taken (s t : State) (sn : ℕ) : Type 0 where
  pub was_open : window_open s.window ≡ true
  pub not_closed : s.window.closed ≡ false
  pub not_signalled : s.waiter_done ≡ false
  pub is_next : sn ≡ s.window.cmd_sn
  pub advanced : t.window ≡ advance s.window

turn-Taken : (s : State) (sn : ℕ) → (turn s).phase ≡ finished (got sn) → Taken s (turn s) sn
unfolding turn
turn-Taken s sn e = ground arith

Own-Taken :
    (s t : State) (sn : ℕ)
    → Own s t
    → t.phase ≡ finished (got sn)
    → s.phase ≢ finished (got sn)
    → Taken s t sn
Own-Taken s t sn (turns e) f n = turn-Taken s sn f
Own-Taken s t sn (sleeps e) f n = cc
Own-Taken s t sn (locks e) f n = cc
Own-Taken s t sn (receives r c e) f n = absurd (n f)
Own-Taken s t sn (leaves c e) f n = absurd (n f)
Own-Taken s t sn (signals c) f n = absurd (n f)
Own-Taken s t sn (broadcasts c) f n = absurd (grind arith)
Own-Taken s t sn (drains r c e) f n = absurd (n f)

-- A step after which the goroutine has newly taken a number is one at which the window was open
-- and not closed and the caller had not yet signalled a cancellation on `waiterDone`; the number is
-- the window's CmdSN, which moves on by one.
pub Step-Taken :
    (s t : State) (sn : ℕ)
    → Step s t
    → t.phase ≡ finished (got sn)
    → s.phase ≢ finished (got sn)
    → Taken s t sn
Step-Taken s t sn (own st) f n = Own-Taken s t sn st f n
Step-Taken s t sn (updates x m hx hm e) f n = absurd (grind arith)
Step-Taken s t sn (closes e) f n = absurd (grind arith)
Step-Taken s t sn (others k w e a) f n = absurd (n f)
Step-Taken s t sn other_broadcasts f n = absurd (grind arith)
Step-Taken s t sn expires f n = absurd (n f)
