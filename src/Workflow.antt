-- ===== src/Workflow.antt =====
-- pkg/workflow: the provisioning of the virtual machines of an env.
pub mod Options
pub mod Plan
pub mod Finalize
pub mod Apply
pub mod Multi
pub mod Tests
