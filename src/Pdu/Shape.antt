-- ===== src/Pdu/Shape.antt =====
-- internal/pdu: where MarshalBHS puts the lengths that the framer reads back, for every PDU type.
use uiscsi.Common.{◌^◌, ◌<◌, ◌≤◌, ◌≡◌}
use uiscsi.Common.Bytes.{join24-put}
use uiscsi.Pdu.Header.{ok, err, ◌>>=◌, oversized_segment, frame_of}
use uiscsi.Pdu.RoundTrip.Headers.{fits24, exceeds24}
use uiscsi.Pdu.Initiator.Commands.{marshal_nop_out, marshal_scsi_command, marshal_task_mgmt_req}
use uiscsi.Pdu.Initiator.Sessions.{marshal_login_req, marshal_text_req, marshal_logout_req}
use uiscsi.Pdu.Initiator.Transfers.{marshal_data_out, marshal_snack_req}
use uiscsi.Pdu.Target.Commands.{marshal_nop_in, marshal_scsi_response, marshal_task_mgmt_resp}
use uiscsi.Pdu.Target.Sessions.{marshal_login_resp, marshal_text_resp, marshal_logout_resp}
use uiscsi.Pdu.Target.Transfers.{marshal_data_in, marshal_r2t}
use uiscsi.Pdu.Target.Events.{marshal_async_msg, marshal_reject}
use uiscsi.Pdu.Codec.{
  nop_out, scsi_command, task_mgmt_req, login_req, text_req, data_out, logout_req, snack_req,
  nop_in, scsi_response, task_mgmt_resp, login_resp, text_resp, data_in, logout_resp, r2t,
  async_msg, reject, Pdu, header, marshal_bhs,
}

-- The frame that the BHS of every PDU announces: 48 bytes, with the two lengths of the header.
pub marshal_bhs-frame :
    (p : Pdu)
    → (header p).data_segment_len < 2 ^ 24
    → (marshal_bhs p >>= λ b. ok (frame_of b))
      ≡ ok (record {
        bhs_len = 48;
        ahs_words = (header p).total_ahs_length;
        segment_len = (header p).data_segment_len;
      })
unfolding marshal_bhs header marshal_nop_out marshal_scsi_command marshal_task_mgmt_req
    marshal_login_req marshal_text_req marshal_data_out marshal_logout_req marshal_snack_req
    marshal_nop_in marshal_scsi_response marshal_task_mgmt_resp marshal_login_resp marshal_text_resp
    marshal_data_in marshal_logout_resp marshal_r2t marshal_async_msg marshal_reject frame_of
marshal_bhs-frame (nop_out p) h = rw (fits24 _ h, join24-put _ h)
marshal_bhs-frame (scsi_command p) h = rw (fits24 _ h, join24-put _ h)
marshal_bhs-frame (task_mgmt_req p) h = rw (fits24 _ h, join24-put _ h)
marshal_bhs-frame (login_req p) h = rw (fits24 _ h, join24-put _ h)
marshal_bhs-frame (text_req p) h = rw (fits24 _ h, join24-put _ h)
marshal_bhs-frame (data_out p) h = rw (fits24 _ h, join24-put _ h)
marshal_bhs-frame (logout_req p) h = rw (fits24 _ h, join24-put _ h)
marshal_bhs-frame (snack_req p) h = rw (fits24 _ h, join24-put _ h)
marshal_bhs-frame (nop_in p) h = rw (fits24 _ h, join24-put _ h)
marshal_bhs-frame (scsi_response p) h = rw (fits24 _ h, join24-put _ h)
marshal_bhs-frame (task_mgmt_resp p) h = rw (fits24 _ h, join24-put _ h)
marshal_bhs-frame (login_resp p) h = rw (fits24 _ h, join24-put _ h)
marshal_bhs-frame (text_resp p) h = rw (fits24 _ h, join24-put _ h)
marshal_bhs-frame (data_in p) h = rw (fits24 _ h, join24-put _ h)
marshal_bhs-frame (logout_resp p) h = rw (fits24 _ h, join24-put _ h)
marshal_bhs-frame (r2t p) h = rw (fits24 _ h, join24-put _ h)
marshal_bhs-frame (async_msg p) h = rw (fits24 _ h, join24-put _ h)
marshal_bhs-frame (reject p) h = rw (fits24 _ h, join24-put _ h)

-- A data segment length of more than 24 bits is refused, whatever the PDU type.
pub marshal_bhs_oversized :
    (p : Pdu)
    → 2 ^ 24 ≤ (header p).data_segment_len
    → marshal_bhs p ≡ err (oversized_segment (header p).data_segment_len 0xffffff)
unfolding marshal_bhs header marshal_nop_out marshal_scsi_command marshal_task_mgmt_req
    marshal_login_req marshal_text_req marshal_data_out marshal_logout_req marshal_snack_req
    marshal_nop_in marshal_scsi_response marshal_task_mgmt_resp marshal_login_resp marshal_text_resp
    marshal_data_in marshal_logout_resp marshal_r2t marshal_async_msg marshal_reject
marshal_bhs_oversized (nop_out p) h = rw (exceeds24 _ h)
marshal_bhs_oversized (scsi_command p) h = rw (exceeds24 _ h)
marshal_bhs_oversized (task_mgmt_req p) h = rw (exceeds24 _ h)
marshal_bhs_oversized (login_req p) h = rw (exceeds24 _ h)
marshal_bhs_oversized (text_req p) h = rw (exceeds24 _ h)
marshal_bhs_oversized (data_out p) h = rw (exceeds24 _ h)
marshal_bhs_oversized (logout_req p) h = rw (exceeds24 _ h)
marshal_bhs_oversized (snack_req p) h = rw (exceeds24 _ h)
marshal_bhs_oversized (nop_in p) h = rw (exceeds24 _ h)
marshal_bhs_oversized (scsi_response p) h = rw (exceeds24 _ h)
marshal_bhs_oversized (task_mgmt_resp p) h = rw (exceeds24 _ h)
marshal_bhs_oversized (login_resp p) h = rw (exceeds24 _ h)
marshal_bhs_oversized (text_resp p) h = rw (exceeds24 _ h)
marshal_bhs_oversized (data_in p) h = rw (exceeds24 _ h)
marshal_bhs_oversized (logout_resp p) h = rw (exceeds24 _ h)
marshal_bhs_oversized (r2t p) h = rw (exceeds24 _ h)
marshal_bhs_oversized (async_msg p) h = rw (exceeds24 _ h)
marshal_bhs_oversized (reject p) h = rw (exceeds24 _ h)
