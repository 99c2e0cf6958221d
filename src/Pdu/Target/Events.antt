-- ===== src/Pdu/Target/Events.antt =====
-- internal/pdu/target.go: AsyncMsg, Reject.
-- A BHS is written field by field in the order of MarshalBHS.
use uiscsi.Common.{ℕ, ◌^◌, ◌<◌, List, []}
use uiscsi.Common.Bytes.{byte_at, put8, put16, put32, get16, get32, zeros}
use uiscsi.Pdu.Header.{
  Header, IsValidHeader, Result, ok, ◌>>=◌, marshal_header, unmarshal_header, bhs_length,
}
use uiscsi.Pdu.Opcode.{op_async_msg, op_reject}

-- AsyncMsg
pub record AsyncMsg : Type 0 where
  pub header : Header
  pub stat_sn : ℕ
  pub exp_cmd_sn : ℕ
  pub max_cmd_sn : ℕ
  pub async_event : ℕ
  pub async_v_code : ℕ
  pub parameter1 : ℕ
  pub parameter2 : ℕ
  pub parameter3 : ℕ
  pub payload : List ℕ

-- Every field of AsyncMsg is within the width of its Go type and of its bits on the wire.
pub record IsValidAsyncMsg (p : AsyncMsg) : Type 0 where
  pub of_header : IsValidHeader p.header
  pub of_stat_sn : p.stat_sn < 2 ^ 32
  pub of_exp_cmd_sn : p.exp_cmd_sn < 2 ^ 32
  pub of_max_cmd_sn : p.max_cmd_sn < 2 ^ 32
  pub of_async_event : p.async_event < 2 ^ 8
  pub of_async_v_code : p.async_v_code < 2 ^ 8
  pub of_parameter1 : p.parameter1 < 2 ^ 16
  pub of_parameter2 : p.parameter2 < 2 ^ 16
  pub of_parameter3 : p.parameter3 < 2 ^ 16

unfoldable pub marshal_async_msg : AsyncMsg → Result (List ℕ)
unfolding marshal_header
marshal_async_msg p = do
  b0 ← marshal_header (record (p.header) { op_code = op_async_msg }) (zeros bhs_length)
  let b1 = put32 24 p.stat_sn b0
  let b2 = put32 28 p.exp_cmd_sn b1
  let b3 = put32 32 p.max_cmd_sn b2
  let b4 = put8 36 p.async_event b3
  let b5 = put8 37 p.async_v_code b4
  let b6 = put16 38 p.parameter1 b5
  let b7 = put16 40 p.parameter2 b6
  let b8 = put16 42 p.parameter3 b7
  ok b8

unfoldable pub unmarshal_async_msg : List ℕ → AsyncMsg
unfolding unmarshal_header
unmarshal_async_msg b = record {
  header = unmarshal_header b;
  stat_sn = get32 24 b;
  exp_cmd_sn = get32 28 b;
  max_cmd_sn = get32 32 b;
  async_event = byte_at b 36;
  async_v_code = byte_at b 37;
  parameter1 = get16 38 b;
  parameter2 = get16 40 b;
  parameter3 = get16 42 b;
  payload = [];
}

-- What the wire keeps of a AsyncMsg.
abbrev pub sent_async_msg : AsyncMsg → AsyncMsg
sent_async_msg p = record p { header = record (p.header) { op_code = op_async_msg }; payload = [] }

-- Reject
pub record Reject : Type 0 where
  pub header : Header
  pub reason : ℕ
  pub stat_sn : ℕ
  pub exp_cmd_sn : ℕ
  pub max_cmd_sn : ℕ
  pub data_sn : ℕ
  pub payload : List ℕ

-- Every field of Reject is within the width of its Go type and of its bits on the wire.
pub record IsValidReject (p : Reject) : Type 0 where
  pub of_header : IsValidHeader p.header
  pub of_reason : p.reason < 2 ^ 8
  pub of_stat_sn : p.stat_sn < 2 ^ 32
  pub of_exp_cmd_sn : p.exp_cmd_sn < 2 ^ 32
  pub of_max_cmd_sn : p.max_cmd_sn < 2 ^ 32
  pub of_data_sn : p.data_sn < 2 ^ 32

unfoldable pub marshal_reject : Reject → Result (List ℕ)
unfolding marshal_header
marshal_reject p = do
  b0 ← marshal_header (record (p.header) { op_code = op_reject }) (zeros bhs_length)
  let b1 = put8 2 p.reason b0
  let b2 = put32 24 p.stat_sn b1
  let b3 = put32 28 p.exp_cmd_sn b2
  let b4 = put32 32 p.max_cmd_sn b3
  let b5 = put32 36 p.data_sn b4
  ok b5

unfoldable pub unmarshal_reject : List ℕ → Reject
unfolding unmarshal_header
unmarshal_reject b = record {
  header = unmarshal_header b;
  reason = byte_at b 2;
  stat_sn = get32 24 b;
  exp_cmd_sn = get32 28 b;
  max_cmd_sn = get32 32 b;
  data_sn = get32 36 b;
  payload = [];
}

-- What the wire keeps of a Reject.
abbrev pub sent_reject : Reject → Reject
sent_reject p = record p { header = record (p.header) { op_code = op_reject }; payload = [] }
