-- ===== src/Config.antt =====
-- pkg/config: the env manifest, its references, its profile, and the rules that it must meet.
pub mod Model
pub mod Validators
pub mod Validate
pub mod Loader
pub mod Placeholders
pub mod Walk
pub mod Tests
