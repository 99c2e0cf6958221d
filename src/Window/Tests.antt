-- ===== src/Window/Tests.antt =====
-- internal/session/cmdwindow.go: a window that wraps, and runs of a blocked `acquire`.
use uiscsi.Common.{◌^◌, ◌≤◌, ◌<◌, ◌≡◌, ◌↔◌, refl, true, false, min, arith}
use uiscsi.Serial.{sub32, less_than, in_window, incr}
use uiscsi.Window.{Window, IsWindow, window_open, update}
use uiscsi.Window.Flow.{
  window_open_iff, update_stale, Updated, update-Updated, IsUsable, acquires, consecutive, room,
  acquires-consecutive,
}
use uiscsi.Window.Waiter.{
  cancelled, running, deciding, finished, got, selecting, State, turn, Own, turns, own, Steps,
  blocked,
}
use uiscsi.Window.Waiter.Results.{Explains, Steps-Explains, Taken, Step-Taken}
use uiscsi.Window.Waiter.Races.{number_lost, number_lost_run, IsStranded, OwnSteps, lost_wakeup_run}

-- Three numbers are left: 2 ^ 32 - 1, 0 and 1.
abbrev wrapping : Window
wrapping = record { cmd_sn = 0xffff_ffff; exp_cmd_sn = 0xffff_fff0; max_cmd_sn = 1; closed = false }

wrapping-IsWindow : IsWindow wrapping
wrapping-IsWindow = record {
  cmd_word = omega arith;
  exp_word = omega arith;
  max_word = omega arith;
}

wrapping-IsUsable : IsUsable wrapping
wrapping-IsUsable = record {
  words = wrapping-IsWindow;
  not_closed = refl;
  width = omega arith;
  within = omega arith;
}

window_open_iff_example : (window_open wrapping ≡ true) ↔ (
    (sub32 wrapping.max_cmd_sn wrapping.exp_cmd_sn < 2 ^ 31)
    × (sub32 wrapping.cmd_sn wrapping.exp_cmd_sn ≤ sub32 wrapping.max_cmd_sn wrapping.exp_cmd_sn))
window_open_iff_example = window_open_iff wrapping wrapping-IsWindow

stale_kept : update 9 2 wrapping ≡ (wrapping, false)
stale_kept = update_stale 9 2 wrapping (unfold less_than in refl)

update-Updated_example : Updated 0xffff_fffe 4 wrapping (update 0xffff_fffe 4 wrapping)
update-Updated_example =
    update-Updated 0xffff_fffe 4 wrapping wrapping-IsWindow (omega arith) (omega arith)
      (unfold less_than in refl)

acquires-consecutive_example :
    acquires 5 wrapping ≡ consecutive (min 5 (room wrapping)) wrapping.cmd_sn
acquires-consecutive_example = acquires-consecutive 5 wrapping wrapping-IsUsable

-- A goroutine about to look at the open window.
abbrev looking : State
looking = record {
  window = wrapping;
  phase = running;
  waiter_done = false;
  expired = false;
  caller = selecting;
}

abbrev about_to_sleep : State
about_to_sleep = record looking { phase = deciding }

wrapping_open : window_open wrapping ≡ true
wrapping_open = (window_open_iff wrapping wrapping-IsWindow).1 (omega arith, omega arith)

taken :
    turn looking
    ≡ record looking { window = record wrapping { cmd_sn = 0 }; phase = finished (got 0xffff_ffff) }
taken = unfold turn window_open less_than in_window incr in refl

number_lost_run_example : Steps looking (number_lost looking)
number_lost_run_example = number_lost_run looking refl refl refl refl wrapping_open

Steps-Explains_example : Explains (number_lost looking) cancelled
Steps-Explains_example =
    Steps-Explains wrapping (number_lost looking) cancelled
      (unfold blocked in number_lost_run looking refl refl refl refl wrapping_open) refl

Step-Taken_example : Taken looking (turn looking) 0xffff_ffff
Step-Taken_example =
    Step-Taken looking (turn looking) 0xffff_ffff (own (turns refl)) (rw taken) (λ e. cc)

lost_wakeup_run_example :
    (t : State) × OwnSteps (record about_to_sleep { expired = true }) t
    × IsStranded t
    × (t.window ≡ about_to_sleep.window)
    × ((u : State) → ¬ Own t u)
lost_wakeup_run_example = lost_wakeup_run about_to_sleep refl refl
