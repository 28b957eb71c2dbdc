-- ===== src/Actor.antt =====
-- RunActorWorkflow of agent_kernel/substrate/temporal/run_actor_workflow.py: the actor of one run, over the event
-- log and the projection service of the in-memory runtime.
pub mod Events
pub mod Payloads
pub mod State
pub mod Appends
pub mod Turns
pub mod Signals
pub mod Steps
pub mod Kept
pub mod Rounds
pub mod Once
pub mod Failures
pub mod Wiring
pub mod Executions
