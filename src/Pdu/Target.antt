-- ===== src/Pdu/Target.antt =====
-- internal/pdu/target.go: one record for each PDU type.
pub mod Commands
pub mod Sessions
pub mod Transfers
pub mod Events
