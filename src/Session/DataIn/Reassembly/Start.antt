-- ===== src/Session/DataIn/Reassembly/Start.antt =====
-- internal/session/datain.go: a new task of a read waits for its first PDU.
use uiscsi.Common.{ℕ, zero, suc, ◌<◌, ◌≤◌, ◌≡◌, refl, true, false, [], arith}
use uiscsi.Common.Maps.{find_key}
use uiscsi.Common.Integers.{ℤ, pos, negsuc}
use uiscsi.Pdu.Target.Transfers.{DataIn}
use uiscsi.Session.ChanReader.{new_chan_reader}
use uiscsi.Session.ReadTask.{ReadTask, new_task}
use uiscsi.Session.DataIn.Reassembly.{contents, IsOpen, IsWaiting}
use uiscsi.Session.DataIn.Reassembly.Quiet.{IsQuiet}

module _ (src : ℕ → DataIn) (n : ℕ) where
  -- A new task for a read at this ErrorRecoveryLevel, with this timeout for its SNACKs.
  abbrev pub reading : (itt : ℕ) (depth : ℤ) (erl snack_timeout : ℕ) → ReadTask
  reading itt depth erl snack_timeout = record (new_task itt true false depth) {
    erl = erl;
    snack_timeout = snack_timeout;
  }

  new_sink :
      (itt : ℕ) (depth : ℤ) (erl snack_timeout : ℕ)
      → IsOpen (reading itt depth erl snack_timeout).sink
        × (contents (reading itt depth erl snack_timeout).sink ≡ [])
  unfolding new_task new_chan_reader
  new_sink itt (pos zero) erl snack_timeout = (tt, refl)
  new_sink itt (pos (suc m)) erl snack_timeout = ((refl, refl, record { chunks_carry = tt }), refl)
  new_sink itt (negsuc m) erl snack_timeout = ((refl, refl, record { chunks_carry = tt }), refl)

  pub reading-IsWaiting :
      (itt : ℕ) (depth : ℤ) (erl snack_timeout : ℕ)
      → 0 < n
      → 1 ≤ erl
      → IsWaiting src n [] (reading itt depth erl snack_timeout)
  unfolding new_task find_key
  reading-IsWaiting itt depth erl snack_timeout h recovers =
      let (is_open, empty) = new_sink itt depth erl snack_timeout in
      record {
        part = record {
          in_range = omega arith;
          offset = refl;
          prefix = empty;
          is_open = is_open;
          ours = tt;
          no_result = refl;
          not_done = refl;
          recovers = recovers;
        };
        more = h;
        drained = refl;
      }

  pub reading-IsQuiet :
      (itt : ℕ) (depth : ℤ) (erl snack_timeout : ℕ)
      → IsQuiet itt (reading itt depth erl snack_timeout)
  unfolding new_task
  reading-IsQuiet itt depth erl snack_timeout = record {
    same_itt = refl;
    no_status = tt;
    only_errors = tt;
  }
