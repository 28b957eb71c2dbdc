-- ===== src/Turn/Once.antt =====
-- At most one execution for each dispatch key, over any turns of the engine
-- (agent_kernel/kernel/turn_engine.py) and any dedupe store that keeps its promises.
pub mod Ledger
pub mod Prepare
pub mod Claim
pub mod Execute
pub mod Loop
pub mod InMemory
