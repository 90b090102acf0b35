-- ===== src/Root.antt =====
-- The package internal/root: the commands of the program.
pub mod Process
pub mod Vm
pub mod Workflow
pub mod Guarded
pub mod Endpoint
pub mod Redact
pub mod Flags
pub mod Replay
pub mod Kickstart
pub mod Tests
