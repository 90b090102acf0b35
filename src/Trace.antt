-- ===== src/Trace.antt =====
-- pkg/trace: execution traces, an append-only file of records that a hash chain links.
pub mod Schema
pub mod Chain
pub mod Tamper
pub mod Writer
pub mod Reader
mod Lines
pub mod Holds
pub mod Append
pub mod Session
pub mod Blank
pub mod Replay
pub mod Tests
