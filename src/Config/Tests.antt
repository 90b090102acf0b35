-- ===== src/Config/Tests.antt =====
-- Small manifests, and the theorems of Config for them.
pub mod Rules
mod Loading
mod Walk
