-- ===== src/Kickstart.antt =====
-- The package pkg/kickstart.
pub mod Cidr
pub mod Cmdline
pub mod Disk
pub mod Iso
pub mod Extract
pub mod Ubuntu
pub mod Renderer
pub mod Tests
