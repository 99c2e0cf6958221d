-- ===== src/Window/Flow.antt =====
-- internal/session/cmdwindow.go: when the window is open, what an update changes, and how many
-- commands a window lets through.
use uiscsi.Common.{
  ℕ, zero, suc, ◌+◌, ◌-◌, ◌^◌, ◌≤◌, ◌<◌, ◌≡◌, ◌↔◌, Bool, true, false, refl, Bool-cases, inl, inr,
  arith,
}
use uiscsi.Common.{ap, List, [], ◌∷◌, min}
use native.Mathlib.Decide.{dec_lt}
use native.Mathlib.Nat.{zero-min, min-zero, suc-min-suc}
use uiscsi.Serial.{IsWord, sub32, less_than, greater_than, in_window, incr}
use uiscsi.Window.{
  Window, IsWindow, window_open, advance, Attempt, granted, window_closed, must_wait, acquire,
  update,
}

-- The window is open exactly when MaxCmdSN is less than half the circle ahead of ExpCmdSN and
-- CmdSN is between the two: the zero window MaxCmdSN = ExpCmdSN - 1 is shut.
pub window_open_iff :
    (w : Window)
    → IsWindow w
    → (window_open w ≡ true) ↔ (
        (sub32 w.max_cmd_sn w.exp_cmd_sn < 2 ^ 31)
        × (sub32 w.cmd_sn w.exp_cmd_sn ≤ sub32 w.max_cmd_sn w.exp_cmd_sn))
unfolding window_open less_than in_window
window_open_iff w v = (ground arith, ground arith)

-- An update whose MaxCmdSN is serially below ExpCmdSN - 1 changes nothing and wakes nobody.
pub update_stale :
    (e m : ℕ) (w : Window) → less_than m (sub32 e 1) ≡ true → update e m w ≡ (w, false)
unfolding update
update_stale e m w h = rw h

pub update_closed : (e m : ℕ) (w : Window) → (update e m w).0.closed ≡ w.closed
unfolding update
update_closed e m w = ground arith

-- What an update that is not stale does to a window.
pub record Updated (e m : ℕ) (w : Window) (r : Window × Bool) : Type 0 where
  pub max_set : r.0.max_cmd_sn ≡ m
  pub exp_forward : sub32 e w.exp_cmd_sn < 2 ^ 31 → r.0.exp_cmd_sn ≡ e
  pub exp_kept : 2 ^ 31 ≤ sub32 e w.exp_cmd_sn → r.0.exp_cmd_sn ≡ w.exp_cmd_sn
  pub cmd_kept : r.0.cmd_sn ≡ w.cmd_sn
  pub closed_kept : r.0.closed ≡ w.closed
  pub silent_unchanged : r.1 ≡ false → r.0 ≡ w
  pub unchanged_silent : r.0 ≡ w → r.1 ≡ false

-- An update that is not stale sets MaxCmdSN, up or down; moves ExpCmdSN to the new value when that
-- is less than half the circle ahead and keeps it otherwise; keeps CmdSN and the closed flag; and
-- wakes the waiters exactly when the window changed.
pub update-Updated :
    (e m : ℕ) (w : Window)
    → IsWindow w
    → IsWord e
    → IsWord m
    → less_than m (sub32 e 1) ≡ false
    → Updated e m w (update e m w)
unfolding update greater_than
update-Updated e m w v he hm fresh =
    rw (fresh, update)
      (record {
        max_set = ground arith;
        exp_forward = ground arith;
        exp_kept = ground arith;
        cmd_kept = refl;
        closed_kept = refl;
        silent_unchanged = ground arith;
        unchanged_silent = λ h. ground (arith, ap Window.exp_cmd_sn h, ap Window.max_cmd_sn h);
      })

-- Calls of `acquire` one after the other, until one would block: the numbers handed out.
abbrev after_attempt : Attempt → (Window → List ℕ) → List ℕ
after_attempt (granted sn w) next = sn ∷ next w
after_attempt window_closed next = []
after_attempt must_wait next = []

unfoldable pub acquires : ℕ → Window → List ℕ
acquires zero w = []
acquires (suc n) w = after_attempt (acquire w) (acquires n)

abbrev pub consecutive : ℕ → ℕ → List ℕ
consecutive zero sn = []
consecutive (suc n) sn = sn ∷ consecutive n (incr sn)

-- The numbers from CmdSN up to MaxCmdSN.
abbrev pub room : Window → ℕ
room w = sub32 w.max_cmd_sn w.exp_cmd_sn + 1 - sub32 w.cmd_sn w.exp_cmd_sn

-- CmdSN is in the window, or just behind it when all is taken.
pub record IsUsable (w : Window) : Type 0 where
  pub words : IsWindow w
  pub not_closed : w.closed ≡ false
  pub width : sub32 w.max_cmd_sn w.exp_cmd_sn < 2 ^ 31
  pub within : sub32 w.cmd_sn w.exp_cmd_sn ≤ sub32 w.max_cmd_sn w.exp_cmd_sn + 1

acquire-room : (w : Window) → IsUsable w → 0 < room w → acquire w ≡ granted w.cmd_sn (advance w)
unfolding acquire
acquire-room w u h = rw ((window_open_iff w u.words).1 (u.width, omega arith), u.not_closed)

acquire_full : (w : Window) → IsUsable w → room w ≡ 0 → acquire w ≡ must_wait
unfolding acquire
acquire_full w u h = rw (window_shut, u.not_closed)
  where
    window_shut : window_open w ≡ false
    window_shut = elim (Bool-cases (window_open w)) [
      | inl e ↦ absurd (omega (arith, (window_open_iff w u.words).0 e))
      | inr e ↦ e
    ]

advance-IsUsable : (w : Window) → IsUsable w → 0 < room w → IsUsable (advance w)
unfolding incr
advance-IsUsable w u h = ground arith

room-advance : (w : Window) → IsUsable w → 0 < room w → room w ≡ suc (room (advance w))
unfolding incr
room-advance w u h = ground arith

room_zero : (w : Window) → room w ≤ 0 → room w ≡ 0
room_zero w h = omega arith

-- From a usable window `n` calls of `acquire` hand out consecutive numbers, beginning at CmdSN and
-- wrapping at 2 ^ 32, and exactly as many as there are up to MaxCmdSN before one has to wait.
pub acquires-consecutive :
    (n : ℕ) (w : Window) → IsUsable w → acquires n w ≡ consecutive (min n (room w)) w.cmd_sn
unfolding acquires
acquires-consecutive zero w u = rw zero-min
acquires-consecutive (suc n) w u = elim (dec_lt 0 (room w)) [
  | yes h ↦
      rw (acquire-room w u h, room-advance w u h, suc-min-suc)
        (ap (◌∷◌ w.cmd_sn) (acquires-consecutive n (advance w) (advance-IsUsable w u h)))
  | no h ↦ rw (acquire_full w u (omega arith), room_zero w (omega arith), min-zero)
]

-- An update that leaves the window as it is wakes nobody.
pub update_quiet :
    (e m : ℕ) (w : Window)
    → IsWindow w
    → IsWord e
    → IsWord m
    → (update e m w).0 ≡ w
    → (update e m w).1 ≡ false
update_quiet e m w v he hm same = elim (Bool-cases (less_than m (sub32 e 1))) [
  | inl stale ↦ rw (update_stale e m w stale)
  | inr fresh ↦ (update-Updated e m w v he hm fresh).unchanged_silent same
]
