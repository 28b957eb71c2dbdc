-- ===== src/Tasks/Watchdog.antt =====
-- TaskWatchdog of agent_kernel/kernel/task_manager/watchdog.py. The hooks' arguments that the code does
-- not read are left out.
use agent_kernel.Prelude.{
  ℕ, Option, none, some, Bool, true, false, String, List, [], ◌∷◌, ◌==◌, if◌then◌else◌,
}
use agent_kernel.Prelude.Errors.{Exec, ok, raised}
use agent_kernel.Contracts.{RunLifecycleState}
use agent_kernel.Tasks.Data.{AttemptOutcome, TaskHealthStatus, TaskRegistry}
use agent_kernel.Tasks.Registry.{heartbeat_for_run, complete_attempt}
use agent_kernel.Tasks.Queries.{get_stalled_tasks, get_task_id_for_run}

-- `on_stall`, which gets the task and the run and may change the registry.
abbrev pub StallHandler : Type 0
StallHandler = String → String → Exec TaskRegistry (Unit {0})

-- The handler on one stalled task: whether the task counts as processed, and the registry after it.
abbrev handled : Option StallHandler → String → String → TaskRegistry → Bool × TaskRegistry
handled none task_id run_id r = (true, r)
handled (some on_stall) task_id run_id r =
    let (outcome, r') = on_stall task_id run_id r in
    (elim outcome [ ok u ↦ true | raised e ↦ false ], r')

unfoldable pub process :
    Option StallHandler → List TaskHealthStatus → TaskRegistry → List String × TaskRegistry
process on_stall [] r = ([], r)
process on_stall (health ∷ stalled) r = elim health.current_run_id [
  | none ↦ process on_stall stalled r
  | some run_id ↦
      let (counts, r') = handled on_stall health.task_id run_id r in
      let (processed, r'') = process on_stall stalled r' in
      (if counts then health.task_id ∷ processed else processed, r'')
]

unfoldable pub watchdog_once : Option StallHandler → ℕ → TaskRegistry → List String × TaskRegistry
unfolding process
watchdog_once on_stall now r =
    let (stalled, r') = get_stalled_tasks now r in process on_stall stalled r'

-- The background loop of `start`: a sweep at each of the times up to the cancellation.
unfoldable pub watchdog_loop : Option StallHandler → List ℕ → TaskRegistry → TaskRegistry
watchdog_loop on_stall [] r = r
watchdog_loop on_stall (now ∷ times) r =
    watchdog_loop on_stall times (watchdog_once on_stall now r).1

abbrev pub on_turn_state_transition : String → ℕ → TaskRegistry → TaskRegistry
on_turn_state_transition run_id now r = heartbeat_for_run run_id now r

abbrev pub on_action_dispatch : String → ℕ → TaskRegistry → TaskRegistry
on_action_dispatch run_id now r = heartbeat_for_run run_id now r

abbrev pub on_llm_call : String → ℕ → TaskRegistry → TaskRegistry
on_llm_call run_id now r = heartbeat_for_run run_id now r

abbrev pub on_parallel_branch_result : String → ℕ → TaskRegistry → TaskRegistry
on_parallel_branch_result run_id now r = heartbeat_for_run run_id now r

-- How a run's last state counts for its attempt.
abbrev pub attempt_outcome : RunLifecycleState → Option AttemptOutcome
attempt_outcome RunLifecycleState.completed = some AttemptOutcome.completed
attempt_outcome RunLifecycleState.aborted = some AttemptOutcome.failed
attempt_outcome _ = none

unfoldable pub on_run_lifecycle_transition :
    String → RunLifecycleState → ℕ → String → TaskRegistry → TaskRegistry
on_run_lifecycle_transition run_id to_state now now_iso r =
    let r' = heartbeat_for_run run_id now r in
    elim (attempt_outcome to_state) [
      | none ↦ r'
      | some outcome ↦ elim (get_task_id_for_run run_id r') [
        | none ↦ r'
        | some task_id ↦
            if task_id == "" then r' else complete_attempt task_id run_id outcome none now_iso r'
      ]
    ]
