-- ===== src/Login/Operational/Bounds.antt =====
-- internal/login: the ranges of the negotiated parameters.
use uiscsi.Common.{
  ℕ, ◌≤◌, ◌≡◌, refl, subst, inl, inr, Option, some, none, List, some-injective, Bool-cases, ltb,
  arith,
}
use uiscsi.Login.Params.{NegotiatedParams, defaults}
use uiscsi.Login.TextCodec.{KeyValue, decode_text_kv}
use uiscsi.Login.Registry.{max_recv_data_segment_length, key_name, map_value}
use uiscsi.Login.Operational.{
  LoginConfig, build_initiator_keys, Settled, settle_keys, with_declared, apply_keys,
  limit_first_burst, apply_negotiated_keys, applied, negotiated,
}
use uiscsi.Login.Operational.Ranges.{
  InBounds, AllSettled, apply_keys-InBounds, with_declared-AllSettled, settle_keys-AllSettled,
}

-- The ranges of RFC 7143 for the parameters that are numbers, but for MaxRecvDataSegmentLength.
pub record IsNegotiated (p : NegotiatedParams) : Type 0 where
  pub connections_positive : 1 ≤ p.max_connections
  pub connections_word : p.max_connections ≤ 65535
  pub burst_low : 512 ≤ p.max_burst_length
  pub burst_high : p.max_burst_length ≤ 16777215
  pub first_low : 512 ≤ p.first_burst_length
  pub first_in_burst : p.first_burst_length ≤ p.max_burst_length
  pub wait_high : p.default_time2_wait ≤ 3600
  pub retain_high : p.default_time2_retain ≤ 3600
  pub r2t_positive : 1 ≤ p.max_outstanding_r2t
  pub r2t_word : p.max_outstanding_r2t ≤ 65535
  pub level_high : p.error_recovery_level ≤ 2

limit_first_burst-IsNegotiated :
    (p : NegotiatedParams) → InBounds p → IsNegotiated (limit_first_burst p)
unfolding limit_first_burst
limit_first_burst-IsNegotiated p (a, b, c, d, e, f, g) =
    elim (Bool-cases (ltb p.max_burst_length p.first_burst_length)) [
      | inl longer ↦ rw longer (record {
        connections_positive = a.0;
        connections_word = a.1;
        burst_low = b.0;
        burst_high = b.1;
        first_low = b.0;
        first_in_burst = omega arith;
        wait_high = d.1;
        retain_high = e.1;
        r2t_positive = f.0;
        r2t_word = f.1;
        level_high = g.1;
      })
      | inr fits ↦ rw fits (record {
        connections_positive = a.0;
        connections_word = a.1;
        burst_low = b.0;
        burst_high = b.1;
        first_low = c.0;
        first_in_burst = ground arith;
        wait_high = d.1;
        retain_high = e.1;
        r2t_positive = f.0;
        r2t_word = f.1;
        level_high = g.1;
      })
    ]

defaults-InBounds : InBounds defaults
defaults-InBounds = (
  (omega arith, omega arith),
  (omega arith, omega arith),
  (omega arith, omega arith),
  (omega arith, omega arith),
  (omega arith, omega arith),
  (omega arith, omega arith),
  (omega arith, omega arith),
)

applied-IsNegotiated :
    (pairs : List KeyValue) (o : Option (List Settled)) (p : NegotiatedParams)
    → ((ss : List Settled) → o ≡ some ss → AllSettled ss)
    → applied pairs o ≡ some p
    → IsNegotiated p
unfolding apply_negotiated_keys
applied-IsNegotiated pairs none p all h = absurd cc
applied-IsNegotiated pairs (some ss) p all h =
    let ds = with_declared (map_value (key_name max_recv_data_segment_length) pairs) ss in
    subst IsNegotiated (some-injective h) (
      limit_first_burst-IsNegotiated (apply_keys ds defaults) (
        apply_keys-InBounds ds defaults (with_declared-AllSettled _ ss (all ss refl))
          defaults-InBounds))

-- Whatever data the target answers with and whatever the configuration is: when the keys of the
-- operational stage are settled, the parameters are in the ranges of RFC 7143, FirstBurstLength is at
-- most MaxBurstLength, and keys that the target leaves out have their defaults' ranges too.
-- MaxRecvDataSegmentLength is not among them.
pub negotiated-IsNegotiated :
    (cfg : LoginConfig) (answer : List ℕ) (p : NegotiatedParams)
    → negotiated cfg answer ≡ some p
    → IsNegotiated p
unfolding negotiated
negotiated-IsNegotiated cfg answer p h =
    let pairs = decode_text_kv answer in
    applied-IsNegotiated pairs (settle_keys (build_initiator_keys cfg) pairs) p
      (settle_keys-AllSettled (build_initiator_keys cfg) pairs) h
