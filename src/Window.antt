-- ===== src/Window.antt =====
-- internal/session/cmdwindow.go: the CmdSN window. Each function is what the code does while it
-- holds `w.mu`; the goroutine of a blocked `acquire` is in Window/Waiter.antt.
pub mod Flow
pub mod Waiter
mod Tests
use uiscsi.Common.{
  ℕ, zero, suc, ◌+◌, ◌<◌, Bool, true, false, ◌||◌, not, ◌==◌, if◌then◌else◌, List, [], ◌∷◌,
}
use uiscsi.Serial.{IsWord, sub32, less_than, greater_than, in_window, incr}

pub record Window : Type 0 where
  pub cmd_sn : ℕ
  pub exp_cmd_sn : ℕ
  pub max_cmd_sn : ℕ
  pub closed : Bool

pub record IsWindow (w : Window) : Type 0 where
  pub cmd_word : IsWord w.cmd_sn
  pub exp_word : IsWord w.exp_cmd_sn
  pub max_word : IsWord w.max_cmd_sn

unfoldable pub new_cmd_window : ℕ → ℕ → ℕ → Window
new_cmd_window cmd_sn exp_cmd_sn max_cmd_sn = record {
  cmd_sn = cmd_sn;
  exp_cmd_sn = exp_cmd_sn;
  max_cmd_sn = max_cmd_sn;
  closed = false;
}

unfoldable pub window_open : Window → Bool
window_open w =
    if less_than w.max_cmd_sn w.exp_cmd_sn
    then false
    else in_window w.cmd_sn w.exp_cmd_sn w.max_cmd_sn

-- `sn := w.cmdSN; w.cmdSN = serial.Incr(w.cmdSN)`
abbrev pub advance : Window → Window
advance w = record w { cmd_sn = incr w.cmd_sn }

-- The outcome of the fast path of `acquire`.
pub data Attempt : Type 0 where
  granted : ℕ → Window → Attempt
  window_closed : Attempt
  must_wait : Attempt

unfoldable pub acquire : Window → Attempt
acquire w =
    if w.closed
    then window_closed
    else if window_open w
    then granted w.cmd_sn (advance w)
    else must_wait

-- The new window, and whether the waiters are woken.
unfoldable pub update : ℕ → ℕ → Window → Window × Bool
update exp_cmd_sn max_cmd_sn w =
    if less_than max_cmd_sn (sub32 exp_cmd_sn 1)
    then (w, false)
    else (let exp_moves = greater_than exp_cmd_sn w.exp_cmd_sn in
        let max_moves = not (max_cmd_sn == w.max_cmd_sn) in
        let exp' = if exp_moves then exp_cmd_sn else w.exp_cmd_sn in
        let max' = if max_moves then max_cmd_sn else w.max_cmd_sn in
        (record w { exp_cmd_sn = exp'; max_cmd_sn = max' }, exp_moves || max_moves))

unfoldable pub close : Window → Window
close w = record w { closed = true }

unfoldable pub current : Window → ℕ
current w = w.cmd_sn

unfoldable pub max_cmd_sn_value : Window → ℕ
max_cmd_sn_value w = w.max_cmd_sn
