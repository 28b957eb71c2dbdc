-- ===== src/Tasks/EventLog.antt =====
-- InMemoryTaskEventLog of agent_kernel/kernel/task_manager/event_log.py. An event stands for its type and its
-- payload: what the payload leaves out is what a replay restores by a default. `clock` gives the readings
-- of the clock, in milliseconds and as text, at each event of a replay.
pub mod Views
pub mod Effects
pub mod Replay
pub mod Restore
pub mod Roundtrip
use agent_kernel.Prelude.{
  ℕ, zero, suc, ◌/◌, max, String, List, [], ◌∷◌, ◌++◌, Bool, true, false, none, ◌&&◌, ◌||◌, ◌==◌,
  if◌then◌else◌, ltb, leb, length,
}
use agent_kernel.Tasks.Data.{
  TaskRestartPolicy, TaskDescriptor, TaskAttempt, TaskEvent, registered, attempt_started,
  attempt_ended, state_updated, TaskRegistry,
}
use agent_kernel.Tasks.Registry.{register, start_attempt, complete_attempt, update_state}
use agent_kernel.Tasks.Queries.{get_attempts}

pub record InMemoryTaskEventLog : Type 0 where
  pub events : List TaskEvent
  pub max_events : ℕ

-- `events[n:]`
abbrev pub drop : ℕ → List TaskEvent → List TaskEvent
drop zero events = events
drop (suc n) [] = []
drop (suc n) (e ∷ events) = drop n events

unfoldable pub append_task_event : TaskEvent → InMemoryTaskEventLog → InMemoryTaskEventLog
append_task_event e l = record l {
  events =
      (if ltb (length l.events) l.max_events
        then l.events
        else drop (max 1 (l.max_events / 4)) l.events)
      ++ e ∷ [];
}

-- `TaskRestartPolicy(**policy_data)`: the payload has no `max_backoff_ms`.
abbrev pub restored_policy : TaskRestartPolicy → TaskRestartPolicy
restored_policy p = record p { max_backoff_ms = 30000 }

-- `TaskDescriptor(**payload, ...)`
abbrev pub restored_descriptor : TaskDescriptor → TaskDescriptor
restored_descriptor d = record d { restart_policy = restored_policy d.restart_policy }

-- `TaskAttempt(**payload)`: the payload has the five fields without a default.
abbrev pub restored_attempt : TaskAttempt → TaskAttempt
restored_attempt a = record a {
  completed_at = none;
  outcome = none;
  failure = none;
  reflection_output = none;
}

-- Whether an attempt is among a task's attempts, by its id or by its run and number.
unfoldable pub is_there : TaskAttempt → List TaskAttempt → Bool
is_there a [] = false
is_there a (b ∷ attempts) =
    b.attempt_id == a.attempt_id
    || b.run_id == a.run_id && (leb b.attempt_seq a.attempt_seq && leb a.attempt_seq b.attempt_seq)
    || is_there a attempts

-- One event; what `register` and `start_attempt` raise is suppressed.
unfoldable pub replay_event : ℕ × String → TaskEvent → TaskRegistry → TaskRegistry
unfolding is_there
replay_event clock (registered d) r = (register (restored_descriptor d) r).1
replay_event clock (attempt_started a) r =
    if is_there a (get_attempts a.task_id r)
    then r
    else (start_attempt (restored_attempt a) clock.0 r).1
replay_event clock (attempt_ended task_id run_id outcome) r =
    complete_attempt task_id run_id outcome none clock.1 r
replay_event clock (state_updated task_id state) r = update_state task_id state r

unfoldable pub replay_all : (ℕ → ℕ × String) → ℕ → List TaskEvent → TaskRegistry → TaskRegistry
unfolding replay_event
replay_all clock n [] r = r
replay_all clock n (e ∷ events) r = replay_all clock (suc n) events (replay_event (clock n) e r)

-- The number of events replayed, and the registry after it.
unfoldable pub replay_into_registry :
    (ℕ → ℕ × String) → InMemoryTaskEventLog → TaskRegistry → ℕ × TaskRegistry
unfolding replay_all
replay_into_registry clock l r = (length l.events, replay_all clock 0 l.events r)
