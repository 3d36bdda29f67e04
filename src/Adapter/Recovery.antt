-- ===== src/Adapter/Recovery.antt =====
-- src/BNAdapter.cpp: the class `ExpressionRecovery`, from its state to what its runs guarantee.
pub mod State
pub mod Leaves
pub mod Visit
pub mod Frame
pub mod Names
pub mod Budget
pub mod Fuel
pub mod Spending
