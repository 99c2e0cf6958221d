-- ===== src/Login/Operational.antt =====
-- internal/login/negotiation.go: applyNegotiatedKeys, parseUint32; login.go: buildInitiatorKeys and
-- the settling of the keys in doOperationalNegotiation.
pub mod Ranges
pub mod Bounds
use uiscsi.Common.{
  ℕ, Bool, true, false, Option, some, none, List, [], ◌∷◌, ◌++◌, map, ltb, if◌then◌else◌,
}
use uiscsi.Common.Text.{codes}
use uiscsi.Login.Params.{NegotiatedParams, defaults}
use uiscsi.Login.TextCodec.{KeyValue, decode_text_kv}
use uiscsi.Login.Decimal.{parse_uint}
use uiscsi.Login.Negotiation.{
  Failure, Resolved, value, failed, same_string, yes_string, resolve_key,
}
use uiscsi.Login.Registry.{
  Key, header_digest, data_digest, max_connections, initial_r2t, immediate_data,
  max_recv_data_segment_length, max_burst_length, first_burst_length, default_time2_wait,
  default_time2_retain, max_outstanding_r2t, data_pdu_in_order, data_sequence_in_order,
  error_recovery_level, key_name, key_def, find_key_def, map_value,
}

-- loginConfig, without the CHAP credentials and the logger. `overrides` is operationalOverrides, nil
-- or not.
pub record LoginConfig : Type 0 where
  pub target_name : List ℕ
  pub session_type : List ℕ
  pub initiator_name : List ℕ
  pub header_digests : List (List ℕ)
  pub data_digests : List (List ℕ)
  pub overrides : List KeyValue

-- strings.Join with a comma.
abbrev pub join_more : List (List ℕ) → List ℕ
join_more [] = []
join_more (s ∷ ss) = 0x2c ∷ (s ++ join_more ss)

abbrev pub join : List (List ℕ) → List ℕ
join [] = []
join (s ∷ ss) = s ++ join_more ss

abbrev pub pair : Key → List ℕ → KeyValue
pair k v = record { key = key_name k; value = v }

abbrev pub overridden : List KeyValue → KeyValue → KeyValue
overridden overrides p = elim (map_value p.key overrides) [
  | none ↦ p
  | some v ↦ record p { value = v }
]

abbrev pub proposed_keys : LoginConfig → List KeyValue
proposed_keys cfg =
    pair header_digest (join cfg.header_digests)
    ∷ pair data_digest (join cfg.data_digests)
    ∷ pair max_connections (codes "1")
    ∷ pair initial_r2t (codes "Yes")
    ∷ pair immediate_data (codes "Yes")
    ∷ pair max_recv_data_segment_length (codes "8192")
    ∷ pair max_burst_length (codes "262144")
    ∷ pair first_burst_length (codes "65536")
    ∷ pair default_time2_wait (codes "2")
    ∷ pair default_time2_retain (codes "20")
    ∷ pair max_outstanding_r2t (codes "1")
    ∷ pair data_pdu_in_order (codes "Yes")
    ∷ pair data_sequence_in_order (codes "Yes")
    ∷ pair error_recovery_level (codes "0")
    ∷ []

unfoldable pub build_initiator_keys : LoginConfig → List KeyValue
build_initiator_keys cfg = map (overridden cfg.overrides) (proposed_keys cfg)

-- An element of `resolved`, with the row of the registry in place of the key's name: only keys with a row
-- are resolved.
pub record Settled : Type 0 where
  pub row : Key
  pub text : List ℕ

-- The loop over the target's keys, one pair and then the rest. A failure names the key.
abbrev pub settle_more : Key → Resolved → Option (List Settled) → Option (List Settled)
settle_more k (failed e) rest = none
settle_more k (value v) none = none
settle_more k (value v) (some rest) = some (record { row = k; text = v } ∷ rest)

abbrev pub or_empty : Option (List ℕ) → List ℕ
or_empty none = []
or_empty (some v) = v

abbrev pub settle_pair :
    List KeyValue → KeyValue → Option (List Settled) → Option Key → Option (List Settled)
settle_pair proposed p rest none = rest
settle_pair proposed p rest (some k) =
    settle_more k (resolve_key (key_def k) (or_empty (map_value p.key proposed)) p.value) rest

unfoldable pub settle_keys : List KeyValue → List KeyValue → Option (List Settled)
settle_keys proposed [] = some []
settle_keys proposed (p ∷ pairs) =
    settle_pair proposed p (settle_keys proposed pairs) (find_key_def p.key)

-- The target's declaration in place of the first resolved MaxRecvDataSegmentLength, or behind the
-- resolved keys.
abbrev pub is_declared : Key → Bool
is_declared max_recv_data_segment_length = true
is_declared k = false

abbrev pub declare_first : List ℕ → List Settled → List Settled
declare_first v [] = record { row = max_recv_data_segment_length; text = v } ∷ []
declare_first v (s ∷ ss) =
    let later = declare_first v ss in
    if is_declared s.row then record s { text = v } ∷ ss else s ∷ later

abbrev pub with_declared : Option (List ℕ) → List Settled → List Settled
with_declared none ss = ss
with_declared (some v) ss = declare_first v ss

unfoldable pub parse_uint32 : List ℕ → ℕ
parse_uint32 s = elim (parse_uint s) [ none ↦ 0 | some v ↦ v ]

-- The `switch` on the key.
unfoldable pub apply_key : NegotiatedParams → Key → List ℕ → NegotiatedParams
apply_key p header_digest v = record p { header_digest = same_string v (codes "CRC32C") }
apply_key p data_digest v = record p { data_digest = same_string v (codes "CRC32C") }
apply_key p max_connections v = record p { max_connections = parse_uint32 v }
apply_key p initial_r2t v = record p { initial_r2t = same_string v yes_string }
apply_key p immediate_data v = record p { immediate_data = same_string v yes_string }
apply_key p max_recv_data_segment_length v = record p {
  max_recv_data_segment_length = parse_uint32 v;
}
apply_key p max_burst_length v = record p { max_burst_length = parse_uint32 v }
apply_key p first_burst_length v = record p { first_burst_length = parse_uint32 v }
apply_key p default_time2_wait v = record p { default_time2_wait = parse_uint32 v }
apply_key p default_time2_retain v = record p { default_time2_retain = parse_uint32 v }
apply_key p max_outstanding_r2t v = record p { max_outstanding_r2t = parse_uint32 v }
apply_key p data_pdu_in_order v = record p { data_pdu_in_order = same_string v yes_string }
apply_key p data_sequence_in_order v = record p {
  data_sequence_in_order = same_string v yes_string;
}
apply_key p error_recovery_level v = record p { error_recovery_level = parse_uint32 v }

unfoldable pub apply_keys : List Settled → NegotiatedParams → NegotiatedParams
apply_keys [] p = p
apply_keys (s ∷ ss) p = apply_keys ss (apply_key p s.row s.text)

-- The check behind the loop.
unfoldable pub limit_first_burst : NegotiatedParams → NegotiatedParams
limit_first_burst p =
    if ltb p.max_burst_length p.first_burst_length
    then record p { first_burst_length = p.max_burst_length }
    else p

unfoldable pub apply_negotiated_keys : NegotiatedParams → List Settled → NegotiatedParams
apply_negotiated_keys p ss = limit_first_burst (apply_keys ss p)

-- What doOperationalNegotiation makes of the data of the target's answer; `none` is a key that
-- cannot be settled.
abbrev pub applied : List KeyValue → Option (List Settled) → Option NegotiatedParams
applied pairs none = none
applied pairs (some ss) = some (
    apply_negotiated_keys defaults
      (with_declared (map_value (key_name max_recv_data_segment_length) pairs) ss))

unfoldable pub negotiated : LoginConfig → List ℕ → Option NegotiatedParams
negotiated cfg answer =
    let pairs = decode_text_kv answer in
    applied pairs (settle_keys (build_initiator_keys cfg) pairs)
