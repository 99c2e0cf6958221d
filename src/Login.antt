-- ===== src/Login.antt =====
-- internal/login: the text keys of the login phase and how they are settled.
pub mod TextCodec
pub mod Decimal
pub mod Negotiation
pub mod Registry
pub mod Operational
pub mod Chap
pub mod Stages
pub mod Params
mod Tests
