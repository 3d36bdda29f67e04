-- ===== src/Workflow.antt =====
-- The workflow lifecycle: `AddActivityToWorkflow` of src/BNAdapter.cpp and the registration command
-- of src/Plugin.cpp.
pub mod Host
pub mod Dispatch
pub mod Activity
pub mod Register
pub mod ActivityLaws
pub mod RegisterLaws
pub mod Ownership
pub mod Compatibility
