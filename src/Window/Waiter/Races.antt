-- ===== src/Window/Waiter/Races.antt =====
-- internal/session/cmdwindow.go: two races of a cancelled `acquire`. The caller's `select` may see
-- the context done after its goroutine took a number; and its signal and `Broadcast`, sent without
-- the lock, may fall between the goroutine's tests and its `cond.Wait`.
use uiscsi.Common.{◌≡◌, refl, true, false, ap, subst}
use uiscsi.Window.{window_open, advance}
use uiscsi.Window.Waiter.{
  got, cancelled, wake, running, deciding, sleeping, finished, selecting, draining, returned, State,
  turn, Own, turns, sleeps, locks, receives, leaves, signals, broadcasts, drains, Step, own,
  expires, Steps, here, next,
}

-- The state after a cancelled `acquire` that has used up a number.
abbrev pub number_lost : State → State
number_lost s = record s {
  window = advance s.window;
  phase = finished (got s.window.cmd_sn);
  waiter_done = true;
  expired = true;
  caller = returned cancelled;
}

turn_open :
    (s : State)
    → s.waiter_done ≡ false
    → s.window.closed ≡ false
    → window_open s.window ≡ true
    → turn s ≡ record s { window = advance s.window; phase = finished (got s.window.cmd_sn) }
unfolding turn
turn_open s d c o = rw (o, d, c)

-- From every state in which the goroutine is about to look at an open window and the caller still
-- waits, there is a run in which the goroutine takes the number, CmdSN moves on, and `acquire` all
-- the same returns the cancellation: nobody sends a command with that number.
pub number_lost_run :
    (s : State)
    → s.phase ≡ running
    → s.caller ≡ selecting
    → s.waiter_done ≡ false
    → s.window.closed ≡ false
    → window_open s.window ≡ true
    → Steps s (number_lost s)
number_lost_run s p k d c o =
    let took : Step s
        (record s { window = advance s.window; phase = finished (got s.window.cmd_sn) }) =
      own (subst (Own s) (turn_open s d c o) (turns p)) in
    next
      (next (next (next (next (next here took) expires) (own (leaves k refl))) (own (signals refl)))
        (own (broadcasts refl)))
      (own (drains (got s.window.cmd_sn) refl refl))

-- A run of this call alone.
pub data OwnSteps (s : State) : State → Type 0 where
  start : OwnSteps s s
  on : {t u : State} → OwnSteps s t → Own t u → OwnSteps s u

-- The goroutine sleeps although its caller has signalled and broadcast, and waits for it.
pub record IsStranded (s : State) : Type 0 where
  pub asleep : s.phase ≡ sleeping
  pub signalled : s.waiter_done ≡ true
  pub caller_waits : s.caller ≡ draining

-- A stranded call cannot go on by itself.
IsStranded-stuck : (s t : State) → IsStranded s → ¬ Own s t
IsStranded-stuck s t h (turns e) = cc (h.asleep, e)
IsStranded-stuck s t h (sleeps e) = cc (h.asleep, e)
IsStranded-stuck s t h (locks e) = cc (h.asleep, e)
IsStranded-stuck s t h (receives r k e) = cc (h.asleep, e)
IsStranded-stuck s t h (leaves k e) = cc (h.caller_waits, k)
IsStranded-stuck s t h (signals k) = cc (h.caller_waits, k)
IsStranded-stuck s t h (broadcasts k) = cc (h.caller_waits, k)
IsStranded-stuck s t h (drains r k e) = cc (h.asleep, e)

-- From every state between the goroutine's tests and its `cond.Wait`, while the caller is still at
-- its `select`: once the context is done there is a run, in which only this call acts, to a state
-- with the same window in which the goroutine sleeps, the caller has signalled, has broadcast and waits
-- for the goroutine, and neither of the two can do anything more by itself.
pub lost_wakeup_run :
    (s : State)
    → s.phase ≡ deciding
    → s.caller ≡ selecting
    → (t : State) × OwnSteps (record s { expired = true }) t
      × IsStranded t
      × (t.window ≡ s.window)
      × ((u : State) → ¬ Own t u)
lost_wakeup_run s p k =
    let end : State = record s {
      phase = sleeping;
      waiter_done = true;
      expired = true;
      caller = draining;
    } in
    let is_stranded : IsStranded end = record {
      asleep = refl;
      signalled = refl;
      caller_waits = refl;
    } in
    (
      end,
      on (on (on (on start (leaves k refl)) (signals refl)) (broadcasts refl)) (sleeps (ap wake p)),
      is_stranded,
      refl,
      λ u. IsStranded-stuck end u is_stranded,
    )
