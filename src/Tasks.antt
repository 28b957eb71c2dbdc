-- ===== src/Tasks.antt =====
-- The task registry and its watchdog (agent_kernel/kernel/task_manager): a task keeps its identity over
-- the runs that attempt it.
pub mod Data
pub mod Registry
pub mod Queries
pub mod Watchdog
pub mod Liveness
pub mod Completion
pub mod Capacity
pub mod Keys
pub mod EventLog
