-- ===== src/Examples/TaskLogs.antt =====
-- A registry's events replayed.
use agent_kernel.Prelude.{◌≡◌, refl, arith, ℕ, ◌≤◌, String, List, [], ◌∷◌, true, none, length}
use agent_kernel.Prelude.Dict.{lookup, insert, remove}
use agent_kernel.Tasks.Data.{TaskLifecycleState, AttemptOutcome}
use agent_kernel.Tasks.Registry.{
  register, start_attempt, complete_attempt, update_state, heartbeat, any_open, end_open,
  evict_if_needed,
}
use agent_kernel.Tasks.Queries.{get_attempts}
use agent_kernel.Tasks.Keys.Histories.{
  Op, register_op, start_attempt_op, complete_attempt_op, update_state_op, heartbeat_op, run,
}
use agent_kernel.Tasks.EventLog.{replay_into_registry, is_there}
use agent_kernel.Tasks.EventLog.Views.{views}
use agent_kernel.Tasks.EventLog.Restore.{fresh_registry}
use agent_kernel.Tasks.EventLog.Roundtrip.{all_told, log_of, empty_log, restore-run}
use agent_kernel.Examples.Tasks.{task, attempt}

abbrev life : List Op
life =
    register_op (task "t1")
    ∷ start_attempt_op attempt 10
    ∷ heartbeat_op "t1" 20
    ∷ complete_attempt_op "t1" "run-1" AttemptOutcome.failed none "now"
    ∷ update_state_op "t1" TaskLifecycleState.restarting
    ∷ register_op (task "t2")
    ∷ []

abbrev reading : ℕ → ℕ × String
reading n = (n, "then")

life_told : all_told life (fresh_registry 5) ≡ true
unfolding register start_attempt complete_attempt update_state any_open end_open get_attempts
    is_there lookup insert remove evict_if_needed
life_told = refl

life_emits : length (run life (fresh_registry 5)).events ≡ 5
unfolding register start_attempt complete_attempt update_state heartbeat any_open end_open lookup
    insert remove evict_if_needed
life_emits = refl

life_fits : length (run life (fresh_registry 5)).events ≤ 8
life_fits = omega (arith, life_emits)

restore-run_example :
    views
      (replay_into_registry reading
        (log_of (run life (fresh_registry 5)).events (empty_log 8))
        (fresh_registry (run life (fresh_registry 5)).max_tasks)).1.tasks
    ≡ views (run life (fresh_registry 5)).tasks
restore-run_example = restore-run reading life 5 8 life_told life_fits
