-- ===== src/Login/Operational/Ranges.antt =====
-- internal/login: the ranges of the keys that doOperationalNegotiation settles.
use uiscsi.Common.{
  ℕ, ◌≤◌, ◌≡◌, refl, subst, inl, inr, true, Option, some, none, List, [], ◌∷◌, some-injective,
  Bool-cases, arith,
}
use uiscsi.Login.Params.{NegotiatedParams}
use uiscsi.Login.TextCodec.{KeyValue}
use uiscsi.Login.Negotiation.{KeyDef, Resolved, value, failed, resolve_key}
use uiscsi.Login.Negotiation.Results.{InRange, resolve_key-InRange}
use uiscsi.Login.Registry.{
  Key, header_digest, data_digest, max_connections, initial_r2t, immediate_data,
  max_recv_data_segment_length, max_burst_length, first_burst_length, default_time2_wait,
  default_time2_retain, max_outstanding_r2t, data_pdu_in_order, data_sequence_in_order,
  error_recovery_level, key_def, find_key_def, map_value,
}
use uiscsi.Login.Operational.{
  Settled, settle_more, or_empty, settle_pair, settle_keys, is_declared, declare_first,
  with_declared, parse_uint32, apply_key, apply_keys,
}

abbrev pub Between : ℕ → ℕ → ℕ → Type 0
Between low high n = (low ≤ n) × (n ≤ high)

-- What holds after each key.
abbrev pub InBounds : NegotiatedParams → Type 0
InBounds p =
    Between 1 65535 p.max_connections
    × Between 512 16777215 p.max_burst_length
    × Between 512 16777215 p.first_burst_length
    × Between 0 3600 p.default_time2_wait
    × Between 0 3600 p.default_time2_retain
    × Between 1 65535 p.max_outstanding_r2t
    × Between 0 2 p.error_recovery_level

-- What a resolved value satisfies.
abbrev pub IsSettled : Key → List ℕ → Type 0
IsSettled max_connections v = Between 1 65535 (parse_uint32 v)
IsSettled max_burst_length v = Between 512 16777215 (parse_uint32 v)
IsSettled first_burst_length v = Between 512 16777215 (parse_uint32 v)
IsSettled default_time2_wait v = Between 0 3600 (parse_uint32 v)
IsSettled default_time2_retain v = Between 0 3600 (parse_uint32 v)
IsSettled max_outstanding_r2t v = Between 1 65535 (parse_uint32 v)
IsSettled error_recovery_level v = Between 0 2 (parse_uint32 v)
IsSettled k v = Unit

abbrev pub AllSettled : List Settled → Type 0
AllSettled [] = Unit
AllSettled (s ∷ ss) = IsSettled s.row s.text × AllSettled ss

apply_key-InBounds :
    (p : NegotiatedParams) (k : Key) (v : List ℕ)
    → IsSettled k v
    → InBounds p
    → InBounds (apply_key p k v)
unfolding apply_key
apply_key-InBounds p max_connections v h (a, b, c, d, e, f, g) = (h, b, c, d, e, f, g)
apply_key-InBounds p max_burst_length v h (a, b, c, d, e, f, g) = (a, h, c, d, e, f, g)
apply_key-InBounds p first_burst_length v h (a, b, c, d, e, f, g) = (a, b, h, d, e, f, g)
apply_key-InBounds p default_time2_wait v h (a, b, c, d, e, f, g) = (a, b, c, h, e, f, g)
apply_key-InBounds p default_time2_retain v h (a, b, c, d, e, f, g) = (a, b, c, d, h, f, g)
apply_key-InBounds p max_outstanding_r2t v h (a, b, c, d, e, f, g) = (a, b, c, d, e, h, g)
apply_key-InBounds p error_recovery_level v h (a, b, c, d, e, f, g) = (a, b, c, d, e, f, h)
apply_key-InBounds p header_digest v h fits = fits
apply_key-InBounds p data_digest v h fits = fits
apply_key-InBounds p initial_r2t v h fits = fits
apply_key-InBounds p immediate_data v h fits = fits
apply_key-InBounds p max_recv_data_segment_length v h fits = fits
apply_key-InBounds p data_pdu_in_order v h fits = fits
apply_key-InBounds p data_sequence_in_order v h fits = fits

pub apply_keys-InBounds :
    (ss : List Settled) (p : NegotiatedParams)
    → AllSettled ss
    → InBounds p
    → InBounds (apply_keys ss p)
unfolding apply_keys
apply_keys-InBounds [] p all fits = fits
apply_keys-InBounds (s ∷ ss) p (one, all) fits =
    apply_keys-InBounds ss (apply_key p s.row s.text) all
      (apply_key-InBounds p s.row s.text one fits)

declared-IsSettled : (k : Key) (v : List ℕ) → is_declared k ≡ true → IsSettled k v
declared-IsSettled header_digest v h = tt
declared-IsSettled data_digest v h = tt
declared-IsSettled max_connections v h = absurd cc
declared-IsSettled initial_r2t v h = tt
declared-IsSettled immediate_data v h = tt
declared-IsSettled max_recv_data_segment_length v h = tt
declared-IsSettled max_burst_length v h = absurd cc
declared-IsSettled first_burst_length v h = absurd cc
declared-IsSettled default_time2_wait v h = absurd cc
declared-IsSettled default_time2_retain v h = absurd cc
declared-IsSettled max_outstanding_r2t v h = absurd cc
declared-IsSettled data_pdu_in_order v h = tt
declared-IsSettled data_sequence_in_order v h = tt
declared-IsSettled error_recovery_level v h = absurd cc

declare_first-AllSettled :
    (v : List ℕ) (ss : List Settled) → AllSettled ss → AllSettled (declare_first v ss)
declare_first-AllSettled v [] all = (tt, tt)
declare_first-AllSettled v (s ∷ ss) (one, all) = elim (Bool-cases (is_declared s.row)) [
  | inl is_length ↦ rw is_length (declared-IsSettled s.row v is_length, all)
  | inr other ↦ rw other (one, declare_first-AllSettled v ss all)
]

pub with_declared-AllSettled :
    (o : Option (List ℕ)) (ss : List Settled) → AllSettled ss → AllSettled (with_declared o ss)
with_declared-AllSettled none ss all = all
with_declared-AllSettled (some v) ss all = declare_first-AllSettled v ss all

read-Between :
    (key : KeyDef) (r : List ℕ)
    → InRange key r
    → Between key.min_value key.max_value (parse_uint32 r)
unfolding parse_uint32
read-Between key r h = rw (parse_uint32, h.reads) (h.at_least, h.at_most)

resolve_key-IsSettled :
    (k : Key) (a b r : List ℕ) → resolve_key (key_def k) a b ≡ value r → IsSettled k r
resolve_key-IsSettled header_digest a b r e = tt
resolve_key-IsSettled data_digest a b r e = tt
resolve_key-IsSettled max_connections a b r e = read-Between (key_def max_connections) r (
    resolve_key-InRange (key_def max_connections) a b r (inl refl)
      (record { ordered = omega arith; not_unlimited = omega arith; word = omega arith }) e)
resolve_key-IsSettled initial_r2t a b r e = tt
resolve_key-IsSettled immediate_data a b r e = tt
resolve_key-IsSettled max_recv_data_segment_length a b r e = tt
resolve_key-IsSettled max_burst_length a b r e = read-Between (key_def max_burst_length) r (
    resolve_key-InRange (key_def max_burst_length) a b r (inl refl)
      (record { ordered = omega arith; not_unlimited = omega arith; word = omega arith }) e)
resolve_key-IsSettled first_burst_length a b r e = read-Between (key_def first_burst_length) r (
    resolve_key-InRange (key_def first_burst_length) a b r (inl refl)
      (record { ordered = omega arith; not_unlimited = omega arith; word = omega arith }) e)
resolve_key-IsSettled default_time2_wait a b r e = read-Between (key_def default_time2_wait) r (
    resolve_key-InRange (key_def default_time2_wait) a b r (inl refl)
      (record { ordered = omega arith; not_unlimited = omega arith; word = omega arith }) e)
resolve_key-IsSettled default_time2_retain a b r e = read-Between (key_def default_time2_retain) r (
    resolve_key-InRange (key_def default_time2_retain) a b r (inl refl)
      (record { ordered = omega arith; not_unlimited = omega arith; word = omega arith }) e)
resolve_key-IsSettled max_outstanding_r2t a b r e = read-Between (key_def max_outstanding_r2t) r (
    resolve_key-InRange (key_def max_outstanding_r2t) a b r (inl refl)
      (record { ordered = omega arith; not_unlimited = omega arith; word = omega arith }) e)
resolve_key-IsSettled data_pdu_in_order a b r e = tt
resolve_key-IsSettled data_sequence_in_order a b r e = tt
resolve_key-IsSettled error_recovery_level a b r e = read-Between (key_def error_recovery_level) r (
    resolve_key-InRange (key_def error_recovery_level) a b r (inl refl)
      (record { ordered = omega arith; not_unlimited = omega arith; word = omega arith }) e)

settle_more-AllSettled :
    (k : Key) (res : Resolved) (rest : Option (List Settled)) (ss : List Settled)
    → ((r : List ℕ) → res ≡ value r → IsSettled k r)
    → ((rs : List Settled) → rest ≡ some rs → AllSettled rs)
    → settle_more k res rest ≡ some ss
    → AllSettled ss
settle_more-AllSettled k (failed e) rest ss one more h = absurd cc
settle_more-AllSettled k (value v) none ss one more h = absurd cc
settle_more-AllSettled k (value v) (some rest) ss one more h =
    subst AllSettled (some-injective h) (one v refl, more rest refl)

settle_pair-AllSettled :
    (proposed : List KeyValue) (p : KeyValue) (rest : Option (List Settled)) (o : Option Key)
    (ss : List Settled)
    → ((rs : List Settled) → rest ≡ some rs → AllSettled rs)
    → settle_pair proposed p rest o ≡ some ss
    → AllSettled ss
settle_pair-AllSettled proposed p rest none ss more h = more ss h
settle_pair-AllSettled proposed p rest (some k) ss more h =
    settle_more-AllSettled k (resolve_key (key_def k) (or_empty (map_value p.key proposed)) p.value)
      rest ss (resolve_key-IsSettled k _ p.value) more h

pub settle_keys-AllSettled :
    (proposed pairs : List KeyValue) (ss : List Settled)
    → settle_keys proposed pairs ≡ some ss
    → AllSettled ss
unfolding settle_keys
settle_keys-AllSettled proposed [] ss h = subst AllSettled (some-injective h) tt
settle_keys-AllSettled proposed (p ∷ pairs) ss h =
    settle_pair-AllSettled proposed p (settle_keys proposed pairs) (find_key_def p.key) ss
      (settle_keys-AllSettled proposed pairs) h
