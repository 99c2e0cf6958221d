-- ===== src/Pdu/RoundTrip.antt =====
-- Decoding what was encoded.
pub mod Headers
pub mod InitiatorCommands
mod InitiatorSessions
pub mod InitiatorTransfers
mod TargetCommands
mod TargetEvents
mod TargetSessions
mod TargetTransfers
pub mod All
