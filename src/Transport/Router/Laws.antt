-- ===== src/Transport/Router/Laws.antt =====
-- internal/transport/router.go: registration, delivery and removal.
use uiscsi.Common.{
  ℕ, ◌≡◌, ◌≢◌, refl, true, false, some, none, List, [], ◌∷◌, ◌==◌, if◌then◌else◌, arith, ◌∙◌,
}
use uiscsi.Transport.Router.{
  Channel, Entry, Router, remove, insert, lookup, allocate_itt, register, register_persistent,
  dispatch, unregister, unregister_and_close,
}

lookup-remove :
    (k j : ℕ) (m : List (ℕ × Entry)) → lookup j (remove k m) ≡ (if k == j then none else lookup j m)
unfolding lookup remove
lookup-remove k j [] = ground arith
lookup-remove k j ((i, e) ∷ m) = ground (arith, lookup-remove k j m)

lookup-insert :
    (k j : ℕ) (e : Entry) (m : List (ℕ × Entry))
    → lookup j (insert k e m) ≡ (if k == j then some e else lookup j m)
unfolding lookup insert
lookup-insert k j e m = ground (arith, lookup-remove k j m)

pub lookup-insert_self :
    (k : ℕ) (e : Entry) (m : List (ℕ × Entry)) → lookup k (insert k e m) ≡ some e
lookup-insert_self k e m = ground (arith, lookup-insert k k e m)

pub lookup-insert_ne :
    (k j : ℕ) (e : Entry) (m : List (ℕ × Entry)) → k ≢ j → lookup j (insert k e m) ≡ lookup j m
lookup-insert_ne k j e m h = ground (arith, lookup-insert k j e m)

pub lookup-remove_self : (k : ℕ) (m : List (ℕ × Entry)) → lookup k (remove k m) ≡ none
lookup-remove_self k m = ground (arith, lookup-remove k k m)

pub lookup-remove_ne : (k j : ℕ) (m : List (ℕ × Entry)) → k ≢ j → lookup j (remove k m) ≡ lookup j m
lookup-remove_ne k j m h = ground (arith, lookup-remove k j m)

-- In the router `r` the tag `itt` waits for one PDU on `ch`; the other tags are those of `before`.
pub record WaitsOnce (before : Router) (itt : ℕ) (ch : Channel) (r : Router) : Type 0 where
  pub first_sent : (dispatch itt r).0 ≡ some ch
  pub second_dropped : (dispatch itt (dispatch itt r).1).0 ≡ none
  pub others_kept :
      (j : ℕ) → itt ≢ j → lookup j (dispatch itt r).1.pending ≡ lookup j before.pending

-- In the router `r` every PDU with the tag `itt` is sent on `ch`, until Unregister.
pub record WaitsAlways (before : Router) (itt : ℕ) (ch : Channel) (r : Router) : Type 0 where
  pub sent : (dispatch itt r).0 ≡ some ch
  pub stays : (dispatch itt r).1 ≡ r
  pub unregistered : (dispatch itt (unregister itt r)).0 ≡ none
  pub closed : (unregister_and_close itt r).0 ≡ some ch
  pub others_kept :
      (j : ℕ) → itt ≢ j → lookup j (unregister itt r).pending ≡ lookup j before.pending
  pub closed_removed : (dispatch itt (unregister_and_close itt r).1).0 ≡ none
  pub closed_others_kept :
      (j : ℕ) → itt ≢ j → lookup j (unregister_and_close itt r).1.pending ≡ lookup j before.pending

fresh_entry-WaitsOnce :
    (r r1 : Router) (itt : ℕ) (ch : Channel)
    → r1.pending ≡ insert itt (record { ch = ch; persistent = false }) r.pending
    → WaitsOnce r itt ch r1
unfolding dispatch
fresh_entry-WaitsOnce r r1 itt ch e =
    let entry : Entry = record { ch = ch; persistent = false } in
    let found : lookup itt r1.pending ≡ some entry =
      rw e (lookup-insert_self itt entry r.pending) in
    record {
      first_sent = rw found;
      second_dropped = rw found (rw (lookup-remove_self itt r1.pending));
      others_kept = λ j h.
          rw found
            (lookup-remove_ne itt j r1.pending h ∙ rw e (lookup-insert_ne itt j entry r.pending h));
    }

-- After Register the first Dispatch of a PDU with the returned tag sends it on the returned
-- channel, a second one finds nothing and answers false, and all other tags are found as before.
pub register-WaitsOnce : (r : Router) → WaitsOnce r (register r).0.0 (register r).0.1 (register r).1
unfolding register allocate_itt
register-WaitsOnce r = fresh_entry-WaitsOnce r (register r).1 (register r).0.0 (register r).0.1 refl

-- After RegisterPersistent every Dispatch with the tag sends on the returned channel and changes
-- nothing, until Unregister removes it, or UnregisterAndClose removes it and closes the channel;
-- all other tags are found as before.
pub register_persistent-WaitsAlways :
    (itt : ℕ) (r : Router)
    → WaitsAlways r itt (register_persistent itt r).0 (register_persistent itt r).1
unfolding register_persistent dispatch unregister_and_close
register_persistent-WaitsAlways itt r =
    let e : Entry = record {
      ch = record { serial = r.made; capacity = r.persistent_depth };
      persistent = true;
    } in
    record {
      sent = rw (lookup-insert_self itt e r.pending);
      stays = rw (lookup-insert_self itt e r.pending);
      unregistered = rw (lookup-remove_self itt (insert itt e r.pending));
      closed = rw (lookup-insert_self itt e r.pending);
      others_kept = λ j h.
          lookup-remove_ne itt j (insert itt e r.pending) h ∙ lookup-insert_ne itt j e r.pending h;
      closed_removed = rw (lookup-remove_self itt (insert itt e r.pending));
      closed_others_kept = λ j h.
          lookup-remove_ne itt j (insert itt e r.pending) h ∙ lookup-insert_ne itt j e r.pending h;
    }
