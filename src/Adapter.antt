-- ===== src/Adapter.antt =====
-- src/BNAdapter.cpp and include/smba/PluginAPI.h: the rewriting of MLIL and the activity.
pub mod Mlil
pub mod Types
pub mod Roots
pub mod Outcome
pub mod BuildMlil
pub mod BuildMeaning
pub mod Select
pub mod Selected
pub mod Copy
pub mod CopyRuns
pub mod Transform
pub mod Preserves
pub mod Commit
pub mod Recovery
pub mod Index
pub mod Candidates
pub mod Collect
pub mod Collected
pub mod CollectLoop
pub mod Authorized
pub mod Replaced
pub mod Entry
pub mod Fresh
pub mod Preview
pub mod CopyInvariant
pub mod Whole
pub mod AppliedRoots
pub mod AppliedCount
pub mod Marked
pub mod Covering
pub mod Chosen
