-- ===== src/Pdu/RoundTrip/All.antt =====
-- internal/pdu: DecodeBHS inverts MarshalBHS, and what it answers on any BHS.
use uiscsi.Common.{◌≡◌}
use uiscsi.Pdu.Header.{ok, ◌>>=◌}
use uiscsi.Pdu.RoundTrip.InitiatorCommands.{
  nop_out_round_trip, scsi_command_round_trip, task_mgmt_req_round_trip,
}
use uiscsi.Pdu.RoundTrip.InitiatorSessions.{
  login_req_round_trip, text_req_round_trip, logout_req_round_trip,
}
use uiscsi.Pdu.RoundTrip.InitiatorTransfers.{data_out_round_trip, snack_req_round_trip}
use uiscsi.Pdu.RoundTrip.TargetCommands.{
  nop_in_round_trip, scsi_response_round_trip, task_mgmt_resp_round_trip,
}
use uiscsi.Pdu.RoundTrip.TargetSessions.{
  login_resp_round_trip, text_resp_round_trip, logout_resp_round_trip,
}
use uiscsi.Pdu.RoundTrip.TargetTransfers.{data_in_round_trip, r2t_round_trip}
use uiscsi.Pdu.RoundTrip.TargetEvents.{async_msg_round_trip, reject_round_trip}
use uiscsi.Pdu.Codec.{
  nop_out, scsi_command, task_mgmt_req, login_req, text_req, data_out, logout_req, snack_req,
  nop_in, scsi_response, task_mgmt_resp, login_resp, text_resp, data_in, logout_resp, r2t,
  async_msg, reject, Pdu, IsValidPdu, marshal_bhs, decode_bhs, sent,
}

-- For a PDU of any of the eighteen types whose fields are within their widths, MarshalBHS
-- succeeds and DecodeBHS of its 48 bytes gives back the same type with the same header fields.
pub decode_bhs-marshal_bhs : (p : Pdu) → IsValidPdu p → (marshal_bhs p >>= decode_bhs) ≡ ok (sent p)
unfolding marshal_bhs sent
decode_bhs-marshal_bhs (nop_out p) v = nop_out_round_trip p v
decode_bhs-marshal_bhs (scsi_command p) v = scsi_command_round_trip p v
decode_bhs-marshal_bhs (task_mgmt_req p) v = task_mgmt_req_round_trip p v
decode_bhs-marshal_bhs (login_req p) v = login_req_round_trip p v
decode_bhs-marshal_bhs (text_req p) v = text_req_round_trip p v
decode_bhs-marshal_bhs (data_out p) v = data_out_round_trip p v
decode_bhs-marshal_bhs (logout_req p) v = logout_req_round_trip p v
decode_bhs-marshal_bhs (snack_req p) v = snack_req_round_trip p v
decode_bhs-marshal_bhs (nop_in p) v = nop_in_round_trip p v
decode_bhs-marshal_bhs (scsi_response p) v = scsi_response_round_trip p v
decode_bhs-marshal_bhs (task_mgmt_resp p) v = task_mgmt_resp_round_trip p v
decode_bhs-marshal_bhs (login_resp p) v = login_resp_round_trip p v
decode_bhs-marshal_bhs (text_resp p) v = text_resp_round_trip p v
decode_bhs-marshal_bhs (data_in p) v = data_in_round_trip p v
decode_bhs-marshal_bhs (logout_resp p) v = logout_resp_round_trip p v
decode_bhs-marshal_bhs (r2t p) v = r2t_round_trip p v
decode_bhs-marshal_bhs (async_msg p) v = async_msg_round_trip p v
decode_bhs-marshal_bhs (reject p) v = reject_round_trip p v
