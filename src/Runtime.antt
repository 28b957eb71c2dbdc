-- ===== src/Runtime.antt =====
-- The in-memory runtime of agent_kernel/kernel/minimal_runtime.py.
pub mod EventLog
pub mod Transition
pub mod Projection
pub mod Replay
pub mod Current
pub mod Histories
pub mod Refinement
pub mod Lifecycle
pub mod Admission
pub mod Activity
pub mod Stores
