-- ===== src/Tests.antt =====
-- Concrete values for the parameters, runs of the model and the theorems at concrete inputs.
pub mod ToyZ3
pub mod EngineTests
pub mod JsonTests
pub mod ToyCobra
pub mod CobraTests
pub mod ToyMlil
pub mod AdapterTests
pub mod WorkflowTests
pub mod RecoveryTests
pub mod CollectTests
pub mod MeaningTests
