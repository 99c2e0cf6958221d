-- ===== src/Session/DataIn/Reassembly.antt =====
-- internal/session/datain.go, snack.go: the pieces of a read in any order. `src k` is the Data-In
-- PDU with DataSN `k` of a read that the target answers with `n` PDUs.
pub mod Drain
pub mod Gap
pub mod Quiet
pub mod Reads
pub mod Steps
pub mod Start
pub mod Arrival
use uiscsi.Common.{
  ℕ, zero, suc, ◌+◌, ◌^◌, ◌<◌, ◌≤◌, ◌≡◌, ◌⊎◌, Bool, true, false, Option, some, none, List, [], ◌∷◌,
  ◌++◌, length, All, ◌==◌,
}
use uiscsi.Common.Maps.{find_key}
use uiscsi.Pdu.Target.Transfers.{DataIn}
use uiscsi.Session.ChanReader.{ChanReader}
use uiscsi.Session.ChanReader.Streams.{unread, IsStream}
use uiscsi.Session.ReadTask.{
  ReadTask, TaskResult, SnackError, Sink, no_sink, buffer, stream, Around, error_result, snack_of,
  snack_send_failed,
}

-- What the task holds and nobody has read yet.
abbrev pub contents : Sink → List ℕ
contents no_sink = []
contents (buffer b) = b
contents (stream cr) = unread cr

abbrev pub IsOpen : Sink → Type 0
IsOpen no_sink = ⊥
IsOpen (buffer b) = Unit
IsOpen (stream cr) = (cr.closed ≡ false) × (cr.failure ≡ none) × IsStream cr

abbrev pub pending_of : ReadTask → List (ℕ × DataIn)
pending_of t = (snack_of t).pending_data_in

-- The result repeats the PDU's status and residual.
pub record IsStatusOf (d : DataIn) (r : TaskResult) : Type 0 where
  pub succeeds : r.failure ≡ none
  pub same_status : r.status ≡ d.status
  pub same_overflow : r.overflow ≡ d.residual_overflow
  pub same_underflow : r.underflow ≡ d.residual_underflow
  pub same_count : r.residual_count ≡ d.residual_count

module _ (src : ℕ → DataIn) (n : ℕ) where
  -- The data of the first `k` PDUs.
  abbrev pub bytes : ℕ → List ℕ
  bytes zero = []
  bytes (suc k) = bytes k ++ (src k).payload

  -- The PDUs carry on from each other, and the last one, and no other, has the status.
  pub record IsSplit : Type 0 where
    pub numbered : (k : ℕ) → (src k).data_sn ≡ k
    pub placed : (k : ℕ) → (src k).buffer_offset ≡ length (bytes k)
    pub status_last : (k : ℕ) → (src k).has_status ≡ (suc k == n)
    pub count : n < 2 ^ 32
    pub size : (k : ℕ) → k ≤ n → length (bytes k) < 2 ^ 32

  abbrev pub IsOurs : List (ℕ × DataIn) → Type 0
  IsOurs m = All (λ e. (e.0 < n) × (e.1 ≡ src e.0)) m

  -- The task has read and holds the first PDUs' data, `c` of it read by the caller already.
  pub record IsPartial (c : List ℕ) (t : ReadTask) : Type 0 where
    pub in_range : t.next_data_sn ≤ n
    pub offset : t.next_offset ≡ length (bytes t.next_data_sn)
    pub prefix : c ++ contents t.sink ≡ bytes t.next_data_sn
    pub is_open : IsOpen t.sink
    pub ours : IsOurs (pending_of t)
    pub no_result : t.results ≡ []
    pub not_done : t.done ≡ false
    pub recovers : 1 ≤ t.erl

  -- The task waits for the next PDU, which it does not have.
  pub record IsWaiting (c : List ℕ) (t : ReadTask) : Type 0 where
    pub part : IsPartial c t
    pub more : t.next_data_sn < n
    pub drained : find_key t.next_data_sn (pending_of t) ≡ none

  abbrev pub Gives : List ℕ → Sink → Option (List ℕ) → Type 0
  Gives c no_sink p = ⊥
  Gives c (buffer b) none = ⊥
  Gives c (buffer b) (some all) = c ++ all ≡ bytes n
  Gives c (stream cr) (some all) = ⊥
  Gives c (stream cr) none =
      (c ++ unread cr ≡ bytes n) × (cr.closed ≡ true) × (cr.failure ≡ none) × IsStream cr

  -- One result was sent, with the status of the last PDU, and all data is there.
  pub record IsComplete (c : List ℕ) (t : ReadTask) : Type 0 where
    pub result : TaskResult
    pub only : t.results ≡ result ∷ []
    pub of_last : (k : ℕ) → suc k ≡ n → IsStatusOf (src k) result
    pub all_data : Gives c t.sink result.payload

  -- A SNACK could not be sent: the task gave up with an error, and what it holds is still right.
  pub record IsLost (c : List ℕ) (t : ReadTask) : Type 0 where
    pub gave_up : t.done ≡ true
    pub failed : (e : SnackError) × (t.results ≡ error_result (snack_send_failed e) ∷ [])
    pub held : c ++ contents t.sink ≡ bytes t.next_data_sn

  -- `k` was consumed, or is in the map.
  abbrev pub Has : ℕ → ReadTask → Type 0
  Has k t = (k < t.next_data_sn) ⊎ (find_key k (pending_of t) ≡ some (src k))

  -- What a task that waited has become after PDU `k`.
  abbrev pub Handled : List ℕ → Around → ReadTask → ℕ → Option ReadTask → Type 0
  Handled c env t k none = ⊥
  Handled c env t k (some t') =
      (IsWaiting c t' × ((j : ℕ) → Has j t → Has j t') × Has k t')
      ⊎ (IsComplete c t' ⊎ ((env.write_accepts ≡ false) × IsLost c t'))
