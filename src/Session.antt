-- ===== src/Session.antt =====
-- internal/session: the transfer of a task's data.
pub mod ChanReader
pub mod DataIn
pub mod ReadTask
pub mod Snack
pub mod Command
pub mod DataOut
pub mod Drain
pub mod Stamping
pub mod State
pub mod Submit
pub mod TaskLoop
pub mod Unsolicited
mod Tests
