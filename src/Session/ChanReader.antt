-- ===== src/Session/ChanReader.antt =====
-- internal/session/chanreader.go. The Go channel is the list of the chunks in its buffer; a send to
-- a full channel waits until the consumer has read and then appends, and so the list has no bound
-- of its own. The errors of `closeWithError` are those of the type `E`.
pub mod Streams
use uiscsi.Common.{
  ℕ, zero, suc, ◌-◌, ◌≡◌, Bool, true, false, Option, some, none, List, [], ◌∷◌, ◌++◌, length, take,
  drop, ltb, if◌then◌else◌, min,
}
use uiscsi.Common.Integers.{ℤ, pos, negsuc}

abbrev pub default_chan_buf_size : ℕ
default_chan_buf_size = 128

pub record ChanReader (E : Type 0) : Type 0 where
  pub capacity : ℕ
  pub ch : List (List ℕ)
  pub current : List ℕ
  pub failure : Option E
  pub closed : Bool

-- What a Read gives: bytes, an error with no bytes, or nothing yet.
pub data ReadAnswer (E : Type 0) : Type 0 where
  bytes : List ℕ → ReadAnswer E
  failed : E → ReadAnswer E
  eof blocks : ReadAnswer E

abbrev pub capacity_of : ℤ → ℕ
capacity_of (pos zero) = default_chan_buf_size
capacity_of (pos (suc n)) = suc n
capacity_of (negsuc n) = default_chan_buf_size

module _ {E : Type 0} where
  unfoldable pub new_chan_reader : ℤ → ChanReader E
  new_chan_reader depth = record {
    capacity = capacity_of depth;
    ch = [];
    current = [];
    failure = none;
    closed = false;
  }

  -- `<-cr.ch` and what follows it, for a `p` of `n` bytes.
  abbrev pub receive : ℕ → ChanReader E → List (List ℕ) → ReadAnswer E × ChanReader E
  receive n cr [] =
      if cr.closed then (elim (cr.failure) [ some e ↦ failed e | none ↦ eof ], cr) else (blocks, cr)
  receive n cr (chunk ∷ more) =
      let rest = drop n chunk in
      (
        bytes (take n chunk),
        if ltb (min n (length chunk)) (length chunk)
            then record cr { ch = more; current = rest }
            else record cr { ch = more },
      )

  -- Read with a `p` of `n` bytes: a chunk that was read in part comes first.
  unfoldable pub read : ℕ → ChanReader E → ReadAnswer E × ChanReader E
  read n cr =
      if ltb 0 (length cr.current)
      then (bytes (take n cr.current), record cr { current = drop n cr.current })
      else receive n cr cr.ch

  -- The producer's `cr.ch <- chunk`; `none` is the panic of a send on a closed channel.
  unfoldable pub send : List ℕ → ChanReader E → Option (ChanReader E)
  send chunk cr = if cr.closed then none else some (record cr { ch = cr.ch ++ (chunk ∷ []) })

  unfoldable pub close : ChanReader E → ChanReader E
  close cr = if cr.closed then cr else record cr { closed = true }

  unfoldable pub close_with_error : E → ChanReader E → ChanReader E
  close_with_error e cr = if cr.closed then cr else record cr { failure = some e; closed = true }
