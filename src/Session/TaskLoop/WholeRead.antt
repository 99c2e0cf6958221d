-- ===== src/Session/TaskLoop/WholeRead.antt =====
-- internal/session/session.go: the `for` loop of taskLoop on the Data-In PDUs of a read, with the
-- caller's reads in between. The rounds that stand here are those whose `select` takes a PDU: the
-- task is not cancelled and its context is not done meanwhile.
pub mod Waits
pub mod Whole
mod Tests
use uiscsi.Common.{
  ℕ, suc, ◌<◌, ◌≤◌, ◌≡◌, ◌⊎◌, inl, inr, refl, sym, ◌∙◌, subst, true, false, Option, some, none,
  List, [], ◌∷◌, ◌++◌, All, if◌then◌else◌, arith,
}
use uiscsi.Common.Integers.{ℤ}
use native.Mathlib.Decide.{ℕ_discrete}
use uiscsi.Pdu.Header.{ok}
use uiscsi.Pdu.Codec.{data_in, decode_bhs}
use uiscsi.Pdu.Target.Transfers.{DataIn}
use uiscsi.Transport.Framer.{RawPdu}
use uiscsi.Session.ChanReader.{ChanReader, ReadAnswer, bytes, failed, eof, blocks, read}
use uiscsi.Session.ReadTask.{ReadTask, TaskError, Sink, no_sink, buffer, stream}
use uiscsi.Session.DataIn.{handle_data_in}
use uiscsi.Session.DataIn.Reassembly.{IsSplit, IsWaiting, IsComplete, Has, Handled}
use uiscsi.Session.DataIn.Reassembly.Reads.{
  after_read, read_from, read_from-IsWaiting, read_from-IsComplete,
}
use uiscsi.Session.DataIn.Reassembly.Arrival.{handle_data_in-Handled}
use uiscsi.Session.DataIn.Reassembly.Quiet.{IsQuiet, Quietly, handle_data_in-Quietly}
use uiscsi.Session.DataIn.Reassembly.Start.{reading, reading-IsWaiting, reading-IsQuiet}
use uiscsi.Session.State.{Session, SessionTask, update_stat_sn, cleanup_task, enqueue}
use uiscsi.Session.TaskLoop.{
  Round, goes_on, returned, panicked, Peers, around_of, update_window, after_data_in, on_data_in,
  on_pdu, pdu_arrived, stored, task_round,
}
use uiscsi.Session.TaskLoop.Results.{IsUnknown, cleanup_task-IsUnknown}

-- PDU `k` of the read arrives as that raw PDU, or the caller reads from a stream, into a buffer of
-- that many bytes.
pub data Event : Type 0 where
  arrives : Peers → RawPdu → ℕ → Event
  reads : ℕ → Event

-- The caller reads, while the loop runs or after it.
abbrev pub read_task : ℕ → List ℕ → SessionTask → List ℕ × SessionTask
read_task m c tk =
    let (c', t) = read_from m c tk.received tk.received.sink in (c', record tk { received = t })

abbrev pub read_round : ℕ → List ℕ → Round → List ℕ × Round
read_round m c (goes_on tk s) = let (c', tk') = read_task m c tk in (c', stored (goes_on tk' s))
read_round m c (returned tk s) = let (c', tk') = read_task m c tk in (c', returned tk' s)
read_round m c panicked = (c, panicked)

module _ (stamp : RawPdu → RawPdu) (exp_stat_sn : ℕ → ℕ) where
  -- A PDU that arrives when the loop has returned is not handled.
  abbrev pub next_round : Peers → RawPdu → Round → Round
  next_round env raw (goes_on tk s) = task_round stamp env exp_stat_sn (pdu_arrived raw) tk s
  next_round env raw round = round

  -- What the caller has read, and how the loop stands, after the events.
  abbrev pub task_loop : List Event → List ℕ → Round → List ℕ × Round
  task_loop [] c round = (c, round)
  task_loop (reads m ∷ es) c round =
      let (c', round') = read_round m c round in task_loop es c' round'
  task_loop (arrives env raw k ∷ es) c round = task_loop es c (next_round env raw round)

  pub task_loop-append :
      (es fs : List Event) (c : List ℕ) (round : Round)
      → task_loop (es ++ fs) c round
        ≡ task_loop fs (task_loop es c round).0 (task_loop es c round).1
  task_loop-append [] fs c round = refl
  task_loop-append (reads m ∷ es) fs c round =
      let (c', round') = read_round m c round in task_loop-append es fs c' round'
  task_loop-append (arrives env raw k ∷ es) fs c round =
      task_loop-append es fs c (next_round env raw round)

abbrev pub Arrived : ℕ → List Event → Type 0
Arrived k [] = ⊥
Arrived k (arrives env raw j ∷ es) = (j ≡ k) ⊎ Arrived k es
Arrived k (reads m ∷ es) = Arrived k es

-- The raw PDU decodes to that Data-In PDU.
abbrev pub Carries : RawPdu → DataIn → Type 0
Carries raw d =
    (p : DataIn) × (decode_bhs raw.bhs ≡ ok (data_in p))
    × (d ≡ record p { payload = raw.data_segment })

-- The session after the window and ExpStatSN are updated.
abbrev pub updated : DataIn → Session → Session
updated d s =
    let s1 = update_window d.exp_cmd_sn d.max_cmd_sn s in
    if d.has_status then update_stat_sn d.stat_sn s1 else s1

pub task_round-data_in :
    (stamp : RawPdu → RawPdu) (env : Peers) (exp_stat_sn : ℕ → ℕ) (raw : RawPdu) (d : DataIn)
    (tk : SessionTask) (s : Session)
    → Carries raw d
    → task_round stamp env exp_stat_sn (pdu_arrived raw) tk s
      ≡ stored (
          after_data_in d tk
            (handle_data_in (around_of env (updated d s)) d tk.received)
            (updated d s))
unfolding task_round on_pdu on_data_in
task_round-data_in stamp env exp_stat_sn raw d tk s (p, decoded, same) = rw (decoded, same) refl

after_read-IsQuiet :
    (itt : ℕ) (c : List ℕ) (t : ReadTask) (r : ReadAnswer TaskError × ChanReader TaskError)
    → IsQuiet itt t
    → IsQuiet itt (after_read c t r).1
after_read-IsQuiet itt c t (bytes got, cr) q = record {
  same_itt = q.same_itt;
  no_status = q.no_status;
  only_errors = q.only_errors;
}
after_read-IsQuiet itt c t (failed e, cr) q = record {
  same_itt = q.same_itt;
  no_status = q.no_status;
  only_errors = q.only_errors;
}
after_read-IsQuiet itt c t (eof, cr) q = record {
  same_itt = q.same_itt;
  no_status = q.no_status;
  only_errors = q.only_errors;
}
after_read-IsQuiet itt c t (blocks, cr) q = record {
  same_itt = q.same_itt;
  no_status = q.no_status;
  only_errors = q.only_errors;
}

pub read_from-IsQuiet :
    (itt m : ℕ) (c : List ℕ) (t : ReadTask) (s : Sink)
    → IsQuiet itt t
    → IsQuiet itt (read_from m c t s).1
read_from-IsQuiet itt m c t no_sink q = q
read_from-IsQuiet itt m c t (buffer b) q = q
read_from-IsQuiet itt m c t (stream cr) q = after_read-IsQuiet itt c t (read m cr) q
