-- ===== src/Recovery.antt =====
-- Recovery after a failed action, agent_kernel/kernel/recovery.
pub mod Planner
pub mod Compensation
pub mod Modes
pub mod Circuit
pub mod Reflection
pub mod Gate
