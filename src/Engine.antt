-- ===== src/Engine.antt =====
-- engine/internal/engine: the event-driven state machine over the rows of the database.
pub mod Store
pub mod Latest
pub mod Runs
pub mod Context
pub mod Advance
pub mod Execute
pub mod Resume
pub mod Redact
pub mod Interpolate
pub mod Work
pub mod TaskLog
pub mod Reaper
pub mod Scheduler
pub mod Ledger
pub mod System
