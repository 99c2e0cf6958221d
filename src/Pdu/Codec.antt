-- ===== src/Pdu/Codec.antt =====
-- internal/pdu: the PDU interface, DecodeBHS (header.go) and EncodePDU (pdu.go).
use uiscsi.Common.{ℕ, ◌%◌, ◌^◌, List, [], ◌++◌, ◌==◌, if◌then◌else◌, length}
use uiscsi.Common.Bytes.{byte_at, zeros}
use uiscsi.Pdu.Header.{Header, Result, ok, err, ◌>>=◌, bad_opcode, decode_opcode_byte, pad_len}
use uiscsi.Pdu.Opcode.{
  op_nop_out, op_scsi_command, op_task_mgmt_req, op_login_req, op_text_req, op_data_out,
  op_logout_req, op_snack_req, op_nop_in, op_scsi_response, op_task_mgmt_resp, op_login_resp,
  op_text_resp, op_data_in, op_logout_resp, op_r2t, op_async_msg, op_reject,
}
use uiscsi.Pdu.Initiator.Commands.{
  NopOut, IsValidNopOut, marshal_nop_out, unmarshal_nop_out, sent_nop_out, ScsiCommand,
  IsValidScsiCommand, marshal_scsi_command, unmarshal_scsi_command, sent_scsi_command, TaskMgmtReq,
  IsValidTaskMgmtReq, marshal_task_mgmt_req, unmarshal_task_mgmt_req, sent_task_mgmt_req,
}
use uiscsi.Pdu.Initiator.Sessions.{
  LoginReq, IsValidLoginReq, marshal_login_req, unmarshal_login_req, sent_login_req, TextReq,
  IsValidTextReq, marshal_text_req, unmarshal_text_req, sent_text_req, LogoutReq, IsValidLogoutReq,
  marshal_logout_req, unmarshal_logout_req, sent_logout_req,
}
use uiscsi.Pdu.Initiator.Transfers.{
  DataOut, IsValidDataOut, marshal_data_out, unmarshal_data_out, sent_data_out, SnackReq,
  IsValidSnackReq, marshal_snack_req, unmarshal_snack_req, sent_snack_req,
}
use uiscsi.Pdu.Target.Commands.{
  NopIn, IsValidNopIn, marshal_nop_in, unmarshal_nop_in, sent_nop_in, ScsiResponse,
  IsValidScsiResponse, marshal_scsi_response, unmarshal_scsi_response, sent_scsi_response,
  TaskMgmtResp, IsValidTaskMgmtResp, marshal_task_mgmt_resp, unmarshal_task_mgmt_resp,
  sent_task_mgmt_resp,
}
use uiscsi.Pdu.Target.Sessions.{
  LoginResp, IsValidLoginResp, marshal_login_resp, unmarshal_login_resp, sent_login_resp, TextResp,
  IsValidTextResp, marshal_text_resp, unmarshal_text_resp, sent_text_resp, LogoutResp,
  IsValidLogoutResp, marshal_logout_resp, unmarshal_logout_resp, sent_logout_resp,
}
use uiscsi.Pdu.Target.Transfers.{
  DataIn, IsValidDataIn, marshal_data_in, unmarshal_data_in, sent_data_in, R2t, IsValidR2t,
  marshal_r2t, unmarshal_r2t, sent_r2t,
}
use uiscsi.Pdu.Target.Events.{
  AsyncMsg, IsValidAsyncMsg, marshal_async_msg, unmarshal_async_msg, sent_async_msg, Reject,
  IsValidReject, marshal_reject, unmarshal_reject, sent_reject,
}

pub data Pdu : Type 0 where
  nop_out : NopOut → Pdu
  scsi_command : ScsiCommand → Pdu
  task_mgmt_req : TaskMgmtReq → Pdu
  login_req : LoginReq → Pdu
  text_req : TextReq → Pdu
  data_out : DataOut → Pdu
  logout_req : LogoutReq → Pdu
  snack_req : SnackReq → Pdu
  nop_in : NopIn → Pdu
  scsi_response : ScsiResponse → Pdu
  task_mgmt_resp : TaskMgmtResp → Pdu
  login_resp : LoginResp → Pdu
  text_resp : TextResp → Pdu
  data_in : DataIn → Pdu
  logout_resp : LogoutResp → Pdu
  r2t : R2t → Pdu
  async_msg : AsyncMsg → Pdu
  reject : Reject → Pdu

unfoldable pub opcode : Pdu → ℕ
opcode (nop_out p) = op_nop_out
opcode (scsi_command p) = op_scsi_command
opcode (task_mgmt_req p) = op_task_mgmt_req
opcode (login_req p) = op_login_req
opcode (text_req p) = op_text_req
opcode (data_out p) = op_data_out
opcode (logout_req p) = op_logout_req
opcode (snack_req p) = op_snack_req
opcode (nop_in p) = op_nop_in
opcode (scsi_response p) = op_scsi_response
opcode (task_mgmt_resp p) = op_task_mgmt_resp
opcode (login_resp p) = op_login_resp
opcode (text_resp p) = op_text_resp
opcode (data_in p) = op_data_in
opcode (logout_resp p) = op_logout_resp
opcode (r2t p) = op_r2t
opcode (async_msg p) = op_async_msg
opcode (reject p) = op_reject

unfoldable pub header : Pdu → Header
header (nop_out p) = p.header
header (scsi_command p) = p.header
header (task_mgmt_req p) = p.header
header (login_req p) = p.header
header (text_req p) = p.header
header (data_out p) = p.header
header (logout_req p) = p.header
header (snack_req p) = p.header
header (nop_in p) = p.header
header (scsi_response p) = p.header
header (task_mgmt_resp p) = p.header
header (login_resp p) = p.header
header (text_resp p) = p.header
header (data_in p) = p.header
header (logout_resp p) = p.header
header (r2t p) = p.header
header (async_msg p) = p.header
header (reject p) = p.header

unfoldable pub marshal_bhs : Pdu → Result (List ℕ)
marshal_bhs (nop_out p) = marshal_nop_out p
marshal_bhs (scsi_command p) = marshal_scsi_command p
marshal_bhs (task_mgmt_req p) = marshal_task_mgmt_req p
marshal_bhs (login_req p) = marshal_login_req p
marshal_bhs (text_req p) = marshal_text_req p
marshal_bhs (data_out p) = marshal_data_out p
marshal_bhs (logout_req p) = marshal_logout_req p
marshal_bhs (snack_req p) = marshal_snack_req p
marshal_bhs (nop_in p) = marshal_nop_in p
marshal_bhs (scsi_response p) = marshal_scsi_response p
marshal_bhs (task_mgmt_resp p) = marshal_task_mgmt_resp p
marshal_bhs (login_resp p) = marshal_login_resp p
marshal_bhs (text_resp p) = marshal_text_resp p
marshal_bhs (data_in p) = marshal_data_in p
marshal_bhs (logout_resp p) = marshal_logout_resp p
marshal_bhs (r2t p) = marshal_r2t p
marshal_bhs (async_msg p) = marshal_async_msg p
marshal_bhs (reject p) = marshal_reject p

unfoldable pub data_segment : Pdu → List ℕ
data_segment (nop_out p) = p.payload
data_segment (scsi_command p) = p.immediate_data
data_segment (task_mgmt_req p) = []
data_segment (login_req p) = p.payload
data_segment (text_req p) = p.payload
data_segment (data_out p) = p.payload
data_segment (logout_req p) = []
data_segment (snack_req p) = []
data_segment (nop_in p) = p.payload
data_segment (scsi_response p) = p.payload
data_segment (task_mgmt_resp p) = []
data_segment (login_resp p) = p.payload
data_segment (text_resp p) = p.payload
data_segment (data_in p) = p.payload
data_segment (logout_resp p) = []
data_segment (r2t p) = []
data_segment (async_msg p) = p.payload
data_segment (reject p) = p.payload

-- The `switch` of DecodeBHS.
unfoldable pub decode_opcode : ℕ → List ℕ → Result Pdu
decode_opcode opcode bhs =
    if opcode == op_nop_out
    then ok (nop_out (unmarshal_nop_out bhs))
    else if opcode == op_scsi_command
    then ok (scsi_command (unmarshal_scsi_command bhs))
    else if opcode == op_task_mgmt_req
    then ok (task_mgmt_req (unmarshal_task_mgmt_req bhs))
    else if opcode == op_login_req
    then ok (login_req (unmarshal_login_req bhs))
    else if opcode == op_text_req
    then ok (text_req (unmarshal_text_req bhs))
    else if opcode == op_data_out
    then ok (data_out (unmarshal_data_out bhs))
    else if opcode == op_logout_req
    then ok (logout_req (unmarshal_logout_req bhs))
    else if opcode == op_snack_req
    then ok (snack_req (unmarshal_snack_req bhs))
    else if opcode == op_nop_in
    then ok (nop_in (unmarshal_nop_in bhs))
    else if opcode == op_scsi_response
    then ok (scsi_response (unmarshal_scsi_response bhs))
    else if opcode == op_task_mgmt_resp
    then ok (task_mgmt_resp (unmarshal_task_mgmt_resp bhs))
    else if opcode == op_login_resp
    then ok (login_resp (unmarshal_login_resp bhs))
    else if opcode == op_text_resp
    then ok (text_resp (unmarshal_text_resp bhs))
    else if opcode == op_data_in
    then ok (data_in (unmarshal_data_in bhs))
    else if opcode == op_logout_resp
    then ok (logout_resp (unmarshal_logout_resp bhs))
    else if opcode == op_r2t
    then ok (r2t (unmarshal_r2t bhs))
    else if opcode == op_async_msg
    then ok (async_msg (unmarshal_async_msg bhs))
    else if opcode == op_reject
    then ok (reject (unmarshal_reject bhs))
    else err (bad_opcode opcode)

unfoldable pub decode_bhs : List ℕ → Result Pdu
unfolding decode_opcode
decode_bhs bhs = decode_opcode (decode_opcode_byte (byte_at bhs 0)).0 bhs

-- BHS, data segment and zero padding; digests belong to the transport.
unfoldable pub encode_pdu : Pdu → Result (List ℕ)
encode_pdu p = do
  bhs ← marshal_bhs p
  let segment = data_segment p
  ok (bhs ++ (segment ++ zeros (pad_len (length segment % 2 ^ 32))))

-- What DecodeBHS is meant to give back of a PDU: its header fields, without the data segment.
unfoldable pub sent : Pdu → Pdu
sent (nop_out p) = nop_out (sent_nop_out p)
sent (scsi_command p) = scsi_command (sent_scsi_command p)
sent (task_mgmt_req p) = task_mgmt_req (sent_task_mgmt_req p)
sent (login_req p) = login_req (sent_login_req p)
sent (text_req p) = text_req (sent_text_req p)
sent (data_out p) = data_out (sent_data_out p)
sent (logout_req p) = logout_req (sent_logout_req p)
sent (snack_req p) = snack_req (sent_snack_req p)
sent (nop_in p) = nop_in (sent_nop_in p)
sent (scsi_response p) = scsi_response (sent_scsi_response p)
sent (task_mgmt_resp p) = task_mgmt_resp (sent_task_mgmt_resp p)
sent (login_resp p) = login_resp (sent_login_resp p)
sent (text_resp p) = text_resp (sent_text_resp p)
sent (data_in p) = data_in (sent_data_in p)
sent (logout_resp p) = logout_resp (sent_logout_resp p)
sent (r2t p) = r2t (sent_r2t p)
sent (async_msg p) = async_msg (sent_async_msg p)
sent (reject p) = reject (sent_reject p)

abbrev pub IsValidPdu : Pdu → Type 0
IsValidPdu (nop_out p) = IsValidNopOut p
IsValidPdu (scsi_command p) = IsValidScsiCommand p
IsValidPdu (task_mgmt_req p) = IsValidTaskMgmtReq p
IsValidPdu (login_req p) = IsValidLoginReq p
IsValidPdu (text_req p) = IsValidTextReq p
IsValidPdu (data_out p) = IsValidDataOut p
IsValidPdu (logout_req p) = IsValidLogoutReq p
IsValidPdu (snack_req p) = IsValidSnackReq p
IsValidPdu (nop_in p) = IsValidNopIn p
IsValidPdu (scsi_response p) = IsValidScsiResponse p
IsValidPdu (task_mgmt_resp p) = IsValidTaskMgmtResp p
IsValidPdu (login_resp p) = IsValidLoginResp p
IsValidPdu (text_resp p) = IsValidTextResp p
IsValidPdu (data_in p) = IsValidDataIn p
IsValidPdu (logout_resp p) = IsValidLogoutResp p
IsValidPdu (r2t p) = IsValidR2t p
IsValidPdu (async_msg p) = IsValidAsyncMsg p
IsValidPdu (reject p) = IsValidReject p
