-- ===== src/Login/Registry.antt =====
-- internal/login/negotiation.go: keyRegistry; login.go: findKeyDef, kvToMap.
use uiscsi.Common.{ℕ, Option, some, none, List, [], ◌∷◌, if◌then◌else◌}
use uiscsi.Common.Text.{codes}
use uiscsi.Login.TextCodec.{KeyValue}
use uiscsi.Login.Negotiation.{
  NegotiationType, list_select, boolean_and, boolean_or, numerical_min, declarative, KeyDef,
  same_string,
}

-- The rows of keyRegistry.
pub data Key : Type 0 where
  header_digest data_digest max_connections initial_r2t immediate_data : Key
  max_recv_data_segment_length max_burst_length first_burst_length : Key
  default_time2_wait default_time2_retain max_outstanding_r2t : Key
  data_pdu_in_order data_sequence_in_order error_recovery_level : Key

-- Name
unfoldable pub key_name : Key → List ℕ
key_name header_digest = codes "HeaderDigest"
key_name data_digest = codes "DataDigest"
key_name max_connections = codes "MaxConnections"
key_name initial_r2t = codes "InitialR2T"
key_name immediate_data = codes "ImmediateData"
key_name max_recv_data_segment_length = codes "MaxRecvDataSegmentLength"
key_name max_burst_length = codes "MaxBurstLength"
key_name first_burst_length = codes "FirstBurstLength"
key_name default_time2_wait = codes "DefaultTime2Wait"
key_name default_time2_retain = codes "DefaultTime2Retain"
key_name max_outstanding_r2t = codes "MaxOutstandingR2T"
key_name data_pdu_in_order = codes "DataPDUInOrder"
key_name data_sequence_in_order = codes "DataSequenceInOrder"
key_name error_recovery_level = codes "ErrorRecoveryLevel"

abbrev def_of : NegotiationType → (min_value max_value : ℕ) → KeyDef
def_of kind min_value max_value = record {
  kind = kind;
  min_value = min_value;
  max_value = max_value;
}

-- Type, Min and Max
abbrev pub key_def : Key → KeyDef
key_def header_digest = def_of list_select 0 0
key_def data_digest = def_of list_select 0 0
key_def max_connections = def_of numerical_min 1 65535
key_def initial_r2t = def_of boolean_or 0 0
key_def immediate_data = def_of boolean_and 0 0
key_def max_recv_data_segment_length = def_of declarative 512 16777215
key_def max_burst_length = def_of numerical_min 512 16777215
key_def first_burst_length = def_of numerical_min 512 16777215
key_def default_time2_wait = def_of numerical_min 0 3600
key_def default_time2_retain = def_of numerical_min 0 3600
key_def max_outstanding_r2t = def_of numerical_min 1 65535
key_def data_pdu_in_order = def_of boolean_or 0 0
key_def data_sequence_in_order = def_of boolean_or 0 0
key_def error_recovery_level = def_of numerical_min 0 2

-- The order of the rows.
abbrev pub registry : List Key
registry =
    header_digest ∷ data_digest ∷ max_connections ∷ initial_r2t ∷ immediate_data
    ∷ max_recv_data_segment_length ∷ max_burst_length ∷ first_burst_length ∷ default_time2_wait
    ∷ default_time2_retain ∷ max_outstanding_r2t ∷ data_pdu_in_order ∷ data_sequence_in_order
    ∷ error_recovery_level ∷ []

abbrev pub row_named : List ℕ → List Key → Option Key
row_named name [] = none
row_named name (k ∷ ks) =
    let later = row_named name ks in if same_string (key_name k) name then some k else later

unfoldable pub find_key_def : List ℕ → Option Key
find_key_def name = row_named name registry

-- m[key] of the map that kvToMap makes, the last pair of this key; a missing key reads as "".
unfoldable pub map_value : List ℕ → List KeyValue → Option (List ℕ)
map_value k [] = none
map_value k (p ∷ pairs) = elim (map_value k pairs) [
  | some v ↦ some v
  | none ↦ if same_string p.key k then some p.value else none
]
