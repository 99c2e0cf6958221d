-- ===== src/Pdu/Decoding.antt =====
-- internal/pdu/header.go: what DecodeBHS answers on an arbitrary BHS.
use uiscsi.Common.{
  ℕ, ◌≡◌, ◌≢◌, ◌==◌, ==_iff, inl, inr, if◌then◌else◌, List, [], ◌∷◌, All, bit_and, refl, Bool-cases,
  sym, arith,
}
use uiscsi.Common.Bytes.{byte_at}
use uiscsi.Pdu.Header.{Result, ok, err, bad_opcode, unmarshal_header}
use uiscsi.Pdu.Opcode.{
  op_nop_out, op_scsi_command, op_task_mgmt_req, op_login_req, op_text_req, op_data_out,
  op_logout_req, op_snack_req, op_nop_in, op_scsi_response, op_task_mgmt_resp, op_login_resp,
  op_text_resp, op_data_in, op_logout_resp, op_r2t, op_async_msg, op_reject,
}
use uiscsi.Pdu.Initiator.Commands.{
  unmarshal_nop_out, unmarshal_scsi_command, unmarshal_task_mgmt_req,
}
use uiscsi.Pdu.Initiator.Sessions.{unmarshal_login_req, unmarshal_text_req, unmarshal_logout_req}
use uiscsi.Pdu.Initiator.Transfers.{unmarshal_data_out, unmarshal_snack_req}
use uiscsi.Pdu.Target.Commands.{unmarshal_nop_in, unmarshal_scsi_response, unmarshal_task_mgmt_resp}
use uiscsi.Pdu.Target.Sessions.{unmarshal_login_resp, unmarshal_text_resp, unmarshal_logout_resp}
use uiscsi.Pdu.Target.Transfers.{unmarshal_data_in, unmarshal_r2t}
use uiscsi.Pdu.Target.Events.{unmarshal_async_msg, unmarshal_reject}
use uiscsi.Pdu.Codec.{
  nop_out, scsi_command, task_mgmt_req, login_req, text_req, data_out, logout_req, snack_req,
  nop_in, scsi_response, task_mgmt_resp, login_resp, text_resp, data_in, logout_resp, r2t,
  async_msg, reject, Pdu, opcode, header, decode_opcode, decode_bhs,
}

-- The opcodes of RFC 7143 Sections 11.2 to 11.17 that have a PDU type.
abbrev pub assigned : List ℕ
assigned =
    0x00 ∷ 0x01 ∷ 0x02 ∷ 0x03 ∷ 0x04 ∷ 0x05 ∷ 0x06 ∷ 0x10 ∷ 0x20 ∷ 0x21 ∷ 0x22 ∷ 0x23 ∷ 0x24 ∷ 0x25
    ∷ 0x26 ∷ 0x31 ∷ 0x32 ∷ 0x3f ∷ []

-- The answer to opcode `op` is a PDU of that type with that header, or, for an opcode that is not
-- assigned, the error that names it.
abbrev pub Answers : ℕ → List ℕ → Result Pdu → Type 0
Answers op bhs (ok p) = (opcode p ≡ op) × (header p ≡ unmarshal_header bhs)
Answers op bhs (err e) = (e ≡ bad_opcode op) × All (λ k. op ≢ k) assigned

case_of :
    (op k : ℕ) (bhs : List ℕ) (p : Pdu) (rest : Result Pdu)
    → (op ≡ k → Answers op bhs (ok p))
    → (op ≢ k → Answers op bhs rest)
    → Answers op bhs (if op == k then ok p else rest)
case_of op k bhs p rest hit miss = elim (Bool-cases (op == k)) [
  | inl e ↦ rw e (hit ((==_iff op k).0 e))
  | inr e ↦ rw e (miss (ground arith))
]

nop_out_case :
    (op : ℕ) (bhs : List ℕ)
    → op ≡ op_nop_out
    → Answers op bhs (ok (nop_out (unmarshal_nop_out bhs)))
unfolding opcode header unmarshal_nop_out
nop_out_case op bhs e = (sym e, refl)

scsi_command_case :
    (op : ℕ) (bhs : List ℕ)
    → op ≡ op_scsi_command
    → Answers op bhs (ok (scsi_command (unmarshal_scsi_command bhs)))
unfolding opcode header unmarshal_scsi_command
scsi_command_case op bhs e = (sym e, refl)

task_mgmt_req_case :
    (op : ℕ) (bhs : List ℕ)
    → op ≡ op_task_mgmt_req
    → Answers op bhs (ok (task_mgmt_req (unmarshal_task_mgmt_req bhs)))
unfolding opcode header unmarshal_task_mgmt_req
task_mgmt_req_case op bhs e = (sym e, refl)

login_req_case :
    (op : ℕ) (bhs : List ℕ)
    → op ≡ op_login_req
    → Answers op bhs (ok (login_req (unmarshal_login_req bhs)))
unfolding opcode header unmarshal_login_req
login_req_case op bhs e = (sym e, refl)

text_req_case :
    (op : ℕ) (bhs : List ℕ)
    → op ≡ op_text_req
    → Answers op bhs (ok (text_req (unmarshal_text_req bhs)))
unfolding opcode header unmarshal_text_req
text_req_case op bhs e = (sym e, refl)

data_out_case :
    (op : ℕ) (bhs : List ℕ)
    → op ≡ op_data_out
    → Answers op bhs (ok (data_out (unmarshal_data_out bhs)))
unfolding opcode header unmarshal_data_out
data_out_case op bhs e = (sym e, refl)

logout_req_case :
    (op : ℕ) (bhs : List ℕ)
    → op ≡ op_logout_req
    → Answers op bhs (ok (logout_req (unmarshal_logout_req bhs)))
unfolding opcode header unmarshal_logout_req
logout_req_case op bhs e = (sym e, refl)

snack_req_case :
    (op : ℕ) (bhs : List ℕ)
    → op ≡ op_snack_req
    → Answers op bhs (ok (snack_req (unmarshal_snack_req bhs)))
unfolding opcode header unmarshal_snack_req
snack_req_case op bhs e = (sym e, refl)

nop_in_case :
    (op : ℕ) (bhs : List ℕ) → op ≡ op_nop_in → Answers op bhs (ok (nop_in (unmarshal_nop_in bhs)))
unfolding opcode header unmarshal_nop_in
nop_in_case op bhs e = (sym e, refl)

scsi_response_case :
    (op : ℕ) (bhs : List ℕ)
    → op ≡ op_scsi_response
    → Answers op bhs (ok (scsi_response (unmarshal_scsi_response bhs)))
unfolding opcode header unmarshal_scsi_response
scsi_response_case op bhs e = (sym e, refl)

task_mgmt_resp_case :
    (op : ℕ) (bhs : List ℕ)
    → op ≡ op_task_mgmt_resp
    → Answers op bhs (ok (task_mgmt_resp (unmarshal_task_mgmt_resp bhs)))
unfolding opcode header unmarshal_task_mgmt_resp
task_mgmt_resp_case op bhs e = (sym e, refl)

login_resp_case :
    (op : ℕ) (bhs : List ℕ)
    → op ≡ op_login_resp
    → Answers op bhs (ok (login_resp (unmarshal_login_resp bhs)))
unfolding opcode header unmarshal_login_resp
login_resp_case op bhs e = (sym e, refl)

text_resp_case :
    (op : ℕ) (bhs : List ℕ)
    → op ≡ op_text_resp
    → Answers op bhs (ok (text_resp (unmarshal_text_resp bhs)))
unfolding opcode header unmarshal_text_resp
text_resp_case op bhs e = (sym e, refl)

data_in_case :
    (op : ℕ) (bhs : List ℕ)
    → op ≡ op_data_in
    → Answers op bhs (ok (data_in (unmarshal_data_in bhs)))
unfolding opcode header unmarshal_data_in
data_in_case op bhs e = (sym e, refl)

logout_resp_case :
    (op : ℕ) (bhs : List ℕ)
    → op ≡ op_logout_resp
    → Answers op bhs (ok (logout_resp (unmarshal_logout_resp bhs)))
unfolding opcode header unmarshal_logout_resp
logout_resp_case op bhs e = (sym e, refl)

r2t_case : (op : ℕ) (bhs : List ℕ) → op ≡ op_r2t → Answers op bhs (ok (r2t (unmarshal_r2t bhs)))
unfolding opcode header unmarshal_r2t
r2t_case op bhs e = (sym e, refl)

async_msg_case :
    (op : ℕ) (bhs : List ℕ)
    → op ≡ op_async_msg
    → Answers op bhs (ok (async_msg (unmarshal_async_msg bhs)))
unfolding opcode header unmarshal_async_msg
async_msg_case op bhs e = (sym e, refl)

reject_case :
    (op : ℕ) (bhs : List ℕ) → op ≡ op_reject → Answers op bhs (ok (reject (unmarshal_reject bhs)))
unfolding opcode header unmarshal_reject
reject_case op bhs e = (sym e, refl)

decode_opcode-Answers : (op : ℕ) (bhs : List ℕ) → Answers op bhs (decode_opcode op bhs)
unfolding decode_opcode
decode_opcode-Answers op bhs = case_of op _ bhs _ _ (nop_out_case op bhs) (λ n0.
    case_of op _ bhs _ _ (scsi_command_case op bhs) (λ n1.
      case_of op _ bhs _ _ (task_mgmt_req_case op bhs) (λ n2.
        case_of op _ bhs _ _ (login_req_case op bhs) (λ n3.
          case_of op _ bhs _ _ (text_req_case op bhs) (λ n4.
            case_of op _ bhs _ _ (data_out_case op bhs) (λ n5.
              case_of op _ bhs _ _ (logout_req_case op bhs) (λ n6.
                case_of op _ bhs _ _ (snack_req_case op bhs) (λ n7.
                  case_of op _ bhs _ _ (nop_in_case op bhs) (λ n8.
                    case_of op _ bhs _ _ (scsi_response_case op bhs) (λ n9.
                      case_of op _ bhs _ _ (task_mgmt_resp_case op bhs) (λ n10.
                        case_of op _ bhs _ _ (login_resp_case op bhs) (λ n11.
                          case_of op _ bhs _ _ (text_resp_case op bhs) (λ n12.
                            case_of op _ bhs _ _ (data_in_case op bhs) (λ n13.
                              case_of op _ bhs _ _ (logout_resp_case op bhs) (λ n14.
                                case_of op _ bhs _ _ (r2t_case op bhs) (λ n15.
                                  case_of op _ bhs _ _ (async_msg_case op bhs) (λ n16.
                                    case_of op _ bhs _ _ (reject_case op bhs) (λ n17. (
                                      refl,
                                      (
                                        n0,
                                        (
                                          n1,
                                          (
                                            n2,
                                            (
                                              n3,
                                              (
                                                n4,
                                                (
                                                  n5,
                                                  (
                                                    n6,
                                                    (
                                                      n7,
                                                      (
                                                        n8,
                                                        (
                                                          n9,
                                                          (
                                                            n10,
                                                            (
                                                            n11,
                                                            (
                                                            n12,
                                                            (n13, (n14, (n15, (n16, (n17, tt))))),
                                                            ),
                                                            ),
                                                          ),
                                                        ),
                                                      ),
                                                    ),
                                                  ),
                                                ),
                                              ),
                                            ),
                                          ),
                                        ),
                                      ),
                                    )))))))))))))))))))

-- DecodeBHS of any BHS gives a PDU whose type is the one that the low six bits of byte 0 name and
-- whose common header is that of the BHS; it is an error, the one with that opcode, only when the
-- opcode is none of the eighteen that RFC 7143 assigns.
pub decode_bhs-Answers :
    (bhs : List ℕ) → Answers (bit_and (byte_at bhs 0) 0x3f) bhs (decode_bhs bhs)
unfolding decode_bhs
decode_bhs-Answers bhs = decode_opcode-Answers (bit_and (byte_at bhs 0) 0x3f) bhs
