-- ===== src/Pdu.antt =====
-- internal/pdu: the PDU codec.
pub mod Opcode
pub mod Header
pub mod Initiator
pub mod Target
pub mod Codec
pub mod RoundTrip
pub mod Shape
pub mod Decoding
pub mod Ahs
pub mod Encoding
mod Tests
