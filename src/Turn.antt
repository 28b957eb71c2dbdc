-- ===== src/Turn.antt =====
-- The turn engine, agent_kernel/kernel/turn_engine.py.
pub mod State
pub mod Identity
pub mod Envelope
pub mod Results
pub mod Prepare
pub mod Dispatch
pub mod Engine
pub mod Session
pub mod Once
pub mod Authority
pub mod Outcome
