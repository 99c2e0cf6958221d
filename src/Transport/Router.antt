-- ===== src/Transport/Router.antt =====
-- internal/transport/router.go. The map `pending` is an association list without repeated keys; a
-- channel is the number of the `make` that created it, with its capacity. `dispatch` tells on which
-- channel the PDU is sent; the send itself is the channel's. Each function runs under `r.mu`.
pub mod Laws
pub mod Tags
use uiscsi.Common.{
  ℕ, suc, ◌+◌, ◌%◌, ◌^◌, ◌<◌, Bool, true, false, Option, some, none, List, [], ◌∷◌, length, leb,
  ◌==◌, if◌then◌else◌, not,
}

abbrev pub reserved_itt : ℕ
reserved_itt = 0xffff_ffff

abbrev pub default_router_buf_depth : ℕ
default_router_buf_depth = 64

pub record Channel : Type 0 where
  pub serial : ℕ
  pub capacity : ℕ

pub record Entry : Type 0 where
  pub ch : Channel
  pub persistent : Bool

-- `delete(m, k)`, `m[k] = v` and `m[k]` on a Go map.
unfoldable pub remove : ℕ → List (ℕ × Entry) → List (ℕ × Entry)
remove k [] = []
remove k ((j, e) ∷ m) = if j == k then remove k m else (j, e) ∷ remove k m

unfoldable pub insert : ℕ → Entry → List (ℕ × Entry) → List (ℕ × Entry)
insert k e m = (k, e) ∷ remove k m

unfoldable pub lookup : ℕ → List (ℕ × Entry) → Option Entry
lookup k [] = none
lookup k ((j, e) ∷ m) = if j == k then some e else lookup k m

pub record Router : Type 0 where
  pub pending : List (ℕ × Entry)
  pub next_itt : ℕ
  pub persistent_depth : ℕ
  pub made : ℕ  -- channels made so far

-- `persistentDepth` is an int; the model takes a depth of at most 0 as 0.
unfoldable pub new_router : ℕ → Router
new_router persistent_depth = record {
  pending = [];
  next_itt = 0;
  persistent_depth = if leb persistent_depth 0 then default_router_buf_depth else persistent_depth;
  made = 0;
}

unfoldable pub allocate_itt : Router → ℕ × Router
allocate_itt r =
    let itt = if r.next_itt == reserved_itt then 0 else r.next_itt in
    let next = (itt + 1) % 2 ^ 32 in
    (itt, record r { next_itt = if next == reserved_itt then 0 else next })

abbrev make_channel : ℕ → Router → Channel × Router
make_channel capacity r =
    (record { serial = r.made; capacity = capacity }, record r { made = suc r.made })

unfoldable pub register : Router → (ℕ × Channel) × Router
register r =
    let (itt, r1) = allocate_itt r in
    let (ch, r2) = make_channel 1 r1 in
    (
      (itt, ch),
      record r2 { pending = insert itt (record { ch = ch; persistent = false }) r2.pending },
    )

unfoldable pub register_persistent : ℕ → Router → Channel × Router
register_persistent itt r =
    let (ch, r1) = make_channel r.persistent_depth r in
    (ch, record r1 { pending = insert itt (record { ch = ch; persistent = true }) r1.pending })

-- After the lookup: the entry's channel, and the router without an entry that is used up.
abbrev deliver : ℕ → Router → Option Entry → Option Channel × Router
deliver itt r none = (none, r)
deliver itt r (some e) =
    (some e.ch, if not e.persistent then record r { pending = remove itt r.pending } else r)

-- `none` is the answer false, `some ch` is true with the PDU sent on `ch`.
unfoldable pub dispatch : ℕ → Router → Option Channel × Router
dispatch itt r = deliver itt r (lookup itt r.pending)

unfoldable pub unregister : ℕ → Router → Router
unregister itt r = record r { pending = remove itt r.pending }

abbrev closes_channel : Option Entry → Option Channel
closes_channel none = none
closes_channel (some e) = if e.persistent then some e.ch else none

-- The channel that is closed, if any.
unfoldable pub unregister_and_close : ℕ → Router → Option Channel × Router
unfolding unregister
unregister_and_close itt r = (closes_channel (lookup itt r.pending), unregister itt r)

unfoldable pub pending_count : Router → ℕ
pending_count r = length r.pending
