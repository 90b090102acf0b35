-- ===== src/Trace/Tests.antt =====
-- Runs of the trace component on small inputs, and its theorems at inputs that meet their hypotheses.
pub mod Codec
pub mod Chain
pub mod Files
mod Replay
