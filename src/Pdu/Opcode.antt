-- ===== src/Pdu/Opcode.antt =====
-- internal/pdu/opcode.go: an OpCode is a number; the eighteen opcodes and their two sides.
use uiscsi.Common.{ℕ, Bool, bit_and, ◌==◌, not}

abbrev pub op_nop_out : ℕ
op_nop_out = 0x00

abbrev pub op_scsi_command : ℕ
op_scsi_command = 0x01

abbrev pub op_task_mgmt_req : ℕ
op_task_mgmt_req = 0x02

abbrev pub op_login_req : ℕ
op_login_req = 0x03

abbrev pub op_text_req : ℕ
op_text_req = 0x04

abbrev pub op_data_out : ℕ
op_data_out = 0x05

abbrev pub op_logout_req : ℕ
op_logout_req = 0x06

abbrev pub op_snack_req : ℕ
op_snack_req = 0x10

abbrev pub op_nop_in : ℕ
op_nop_in = 0x20

abbrev pub op_scsi_response : ℕ
op_scsi_response = 0x21

abbrev pub op_task_mgmt_resp : ℕ
op_task_mgmt_resp = 0x22

abbrev pub op_login_resp : ℕ
op_login_resp = 0x23

abbrev pub op_text_resp : ℕ
op_text_resp = 0x24

abbrev pub op_data_in : ℕ
op_data_in = 0x25

abbrev pub op_logout_resp : ℕ
op_logout_resp = 0x26

abbrev pub op_r2t : ℕ
op_r2t = 0x31

abbrev pub op_async_msg : ℕ
op_async_msg = 0x32

abbrev pub op_reject : ℕ
op_reject = 0x3f

unfoldable pub is_initiator : ℕ → Bool
is_initiator o = bit_and o 0x20 == 0

unfoldable pub is_target : ℕ → Bool
is_target o = not (bit_and o 0x20 == 0)
