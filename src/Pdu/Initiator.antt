-- ===== src/Pdu/Initiator.antt =====
-- internal/pdu/initiator.go: one record for each PDU type.
pub mod Commands
pub mod Sessions
pub mod Transfers
