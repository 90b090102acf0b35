-- ===== src/Proxmox.antt =====
-- pkg/proxmox: the client of the Proxmox API.
pub mod Client
pub mod Listing
pub mod Specs
pub mod Vm
pub mod Storage
pub mod Snapshot
pub mod Boot
pub mod Accepted
