-- ===== src/Policy.antt =====
-- What decides how and where an action may be dispatched, without any state.
pub mod Remote
pub mod Host
pub mod Evidence
