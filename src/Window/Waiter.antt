-- ===== src/Window/Waiter.antt =====
-- internal/session/cmdwindow.go: a blocked `acquire`, its goroutine and its caller, among the
-- window's other users. The goroutine holds `w.mu` in the phases `running` and `deciding`, so
-- `update`, `close` and other calls of `acquire` cannot step there; a caller's cancellation, its own
-- or another call's, takes no lock, so it can. One `Step` is one action between two points where
-- another may act.
pub mod Results
pub mod Races
use uiscsi.Common.{ℕ, ◌≡◌, ◌≢◌, ◌⊎◌, inl, inr, refl, Bool, true, false, Option, some, none, arith}
use uiscsi.Serial.{IsWord}
use uiscsi.Window.{Window, window_open, advance, acquire, granted, update, close}

pub data Outcome : Type 0 where
  got : ℕ → Outcome
  shut_down cancelled : Outcome

-- `deciding` is after the tests of the loop and before `cond.Wait` has joined the list of waiters;
-- `sleeping` is in that list; `woken` has left it and waits for the lock; `finished` has sent its
-- result on `ch`.
pub data Phase : Type 0 where
  running deciding sleeping woken : Phase
  finished : Outcome → Phase

-- The caller's `select`; then, once it has chosen `ctx.Done()`, before the send to `waiterDone`,
-- before `Broadcast`, and before the receive from `ch`.
pub data Caller : Type 0 where
  selecting leaving signalling draining : Caller
  returned : Outcome → Caller

pub record State : Type 0 where
  pub window : Window
  pub phase : Phase
  pub waiter_done : Bool
  pub expired : Bool  -- `ctx` is done
  pub caller : Caller

abbrev pub holds_lock : Phase → Bool
holds_lock running = true
holds_lock deciding = true
holds_lock _ = false

-- `cond.Broadcast()`.
abbrev pub wake : Phase → Phase
wake sleeping = woken
wake p = p

abbrev pub wake_if : Bool → Phase → Phase
wake_if true p = wake p
wake_if false p = p

-- The goroutine runs from the head of its loop to `cond.Wait` or to its end.
abbrev look : Bool → Bool → Bool → Window → Window × Phase
look true done is_open w = (w, finished shut_down)
look false true is_open w = (w, finished cancelled)
look false false true w = (advance w, finished (got w.cmd_sn))
look false false false w = (w, deciding)

unfoldable pub turn : State → State
turn s =
    let (w, p) = look s.window.closed s.waiter_done (window_open s.window) s.window in
    record s { window = w; phase = p }

-- What this call does: its goroutine, and its caller.
pub data Own (s : State) : State → Type 0 where
  turns : s.phase ≡ running → Own s (turn s)
  sleeps : s.phase ≡ deciding → Own s (record s { phase = sleeping })
  locks : s.phase ≡ woken → Own s (record s { phase = running })
  receives :
      (r : Outcome)
      → s.caller ≡ selecting
      → s.phase ≡ finished r
      → Own s (record s { caller = returned r })
  leaves : s.caller ≡ selecting → s.expired ≡ true → Own s (record s { caller = leaving })
  signals : s.caller ≡ leaving → Own s (record s { caller = signalling; waiter_done = true })
  broadcasts : s.caller ≡ signalling → Own s (record s { caller = draining; phase = wake s.phase })
  drains :
      (r : Outcome)
      → s.caller ≡ draining
      → s.phase ≡ finished r
      → Own s (record s { caller = returned cancelled })

-- What anybody does: this call; the target, by `update`; `close`; another call that takes a number;
-- another call that is cancelled, whose `Broadcast` wakes all waiters; the end of the context.
pub data Step (s : State) : State → Type 0 where
  own : {t : State} → Own s t → Step s t
  updates :
      (e m : ℕ)
      → IsWord e
      → IsWord m
      → holds_lock s.phase ≡ false
      → Step s (record s {
        window = (update e m s.window).0;
        phase = wake_if (update e m s.window).1 s.phase;
      })
  closes :
      holds_lock s.phase ≡ false
      → Step s (record s { window = close s.window; phase = wake s.phase })
  others :
      (sn : ℕ) (w : Window)
      → holds_lock s.phase ≡ false
      → acquire s.window ≡ granted sn w
      → Step s (record s { window = w })
  other_broadcasts : Step s (record s { phase = wake s.phase })
  expires : Step s (record s { expired = true })

pub data Steps (s : State) : State → Type 0 where
  here : Steps s s
  next : {t u : State} → Steps s t → Step t u → Steps s u

-- `acquire` has found the window shut and has started the goroutine, which holds the lock. A context
-- that is done already is done by the next step.
unfoldable pub blocked : Window → State
blocked w = record {
  window = w;
  phase = running;
  waiter_done = false;
  expired = false;
  caller = selecting;
}
