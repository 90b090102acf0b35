-- ===== src/Workflow/Tests.antt =====
-- A workflow on a small manifest, and the theorems of Workflow and Proxmox for it.
mod Runs
mod Calls
mod Nodes
pub mod Hosts
