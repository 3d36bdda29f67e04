-- ===== src/Engine.antt =====
-- include/smba/Engine.h and src/Engine.cpp: the boundary between the plugin, CoBRA and Z3.
pub mod Types
pub mod Z3
pub mod Validate
pub mod Shape
pub mod Build
pub mod Meaning
pub mod Prove
pub mod ProveSound
pub mod ProveResult
pub mod Simplify
pub mod SimplifySound
pub mod SimplifyPolicy
