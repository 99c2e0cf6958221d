-- ===== src/Login/Params.antt =====
-- internal/login/params.go. A string is the list of its bytes.
use uiscsi.Common.{ℕ, Bool, true, false, List, []}
use uiscsi.Common.Bytes.{zeros}

pub record NegotiatedParams : Type 0 where
  pub header_digest : Bool
  pub data_digest : Bool
  pub max_connections : ℕ
  pub initial_r2t : Bool
  pub immediate_data : Bool
  pub max_recv_data_segment_length : ℕ
  pub max_burst_length : ℕ
  pub first_burst_length : ℕ
  pub default_time2_wait : ℕ
  pub default_time2_retain : ℕ
  pub max_outstanding_r2t : ℕ
  pub data_pdu_in_order : Bool
  pub data_sequence_in_order : Bool
  pub error_recovery_level : ℕ
  pub target_name : List ℕ
  pub tsih : ℕ
  pub isid : List ℕ
  pub cmd_sn : ℕ
  pub exp_stat_sn : ℕ

abbrev pub defaults : NegotiatedParams
defaults = record {
  header_digest = false;
  data_digest = false;
  max_connections = 1;
  initial_r2t = true;
  immediate_data = true;
  max_recv_data_segment_length = 8192;
  max_burst_length = 262144;
  first_burst_length = 65536;
  default_time2_wait = 2;
  default_time2_retain = 20;
  max_outstanding_r2t = 1;
  data_pdu_in_order = true;
  data_sequence_in_order = true;
  error_recovery_level = 0;
  target_name = [];
  tsih = 0;
  isid = zeros 6;
  cmd_sn = 1;
  exp_stat_sn = 0;
}
