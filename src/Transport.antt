-- ===== src/Transport.antt =====
-- internal/transport: dispatch of responses by task tag, and framing of PDUs on the byte stream.
pub mod Router
pub mod Framer
mod Tests
