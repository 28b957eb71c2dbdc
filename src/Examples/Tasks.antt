-- ===== src/Examples/Tasks.antt =====
-- A registry with room for two tasks, at concrete times.
use agent_kernel.Prelude.{
  ◌≡◌, refl, ◌≤◌, ◌⊎◌, none, some, true, false, String, List, [], ◌∷◌, arith, length,
}
use agent_kernel.Prelude.Json.{end}
use agent_kernel.Prelude.Dict.{lookup, insert, remove}
use agent_kernel.Tasks.Data.{
  TaskLifecycleState, ExhaustedPolicy, TaskKind, AttemptOutcome, TaskDescriptor, TaskAttempt,
  TaskEntry, TaskRegistry, new_entry,
}
use agent_kernel.Tasks.Registry.{
  register, terminal_ids, heartbeat, heartbeat_for_run, complete_attempt, later, evict_if_needed,
}
use agent_kernel.Tasks.Queries.{get_health, get_stalled_tasks}
use agent_kernel.Tasks.Liveness.{
  get_health-get_stalled_tasks, counted, says_stalled, last_beat, is_after, heartbeat_holds,
}
use agent_kernel.Tasks.Capacity.{register_capacity}
use agent_kernel.Tasks.Keys.{register_keeps_active}
use agent_kernel.Tasks.Keys.Steps.{IsWellFormed}
use agent_kernel.Tasks.Keys.Histories.{
  Op, register_op, start_attempt_op, get_stalled_tasks_op, complete_attempt_op, run,
  run-IsWellFormed,
}

abbrev pub task : String → TaskDescriptor
task task_id = record {
  task_id = task_id;
  session_id = "s1";
  task_kind = TaskKind.root;
  goal_description = "goal";
  parent_task_id = none;
  dependency_task_ids = [];
  restart_policy = record {
    max_attempts = 3;
    backoff_base_ms = 2000;
    max_backoff_ms = 30000;
    on_exhausted = ExhaustedPolicy.reflect;
    heartbeat_timeout_ms = 100;
  };
  metadata = end;
}

abbrev pub attempt : TaskAttempt
attempt = record {
  attempt_id = "at1";
  task_id = "t1";
  run_id = "run-1";
  attempt_seq = 1;
  started_at = "2026-01-01T00:00:00Z";
  completed_at = none;
  outcome = none;
  failure = none;
  reflection_output = none;
}

abbrev running_entry : TaskEntry
running_entry = record (new_entry (task "t1")) {
  lifecycle_state = TaskLifecycleState.running;
  attempts = attempt ∷ [];
  last_heartbeat_ms = some 10;
}

abbrev done_entry : TaskEntry
done_entry = record (new_entry (task "t2")) { lifecycle_state = TaskLifecycleState.completed }

-- One task that runs, one that is completed; the registry is full.
abbrev full_registry : TaskRegistry
full_registry = record {
  tasks = ("t1", running_entry) ∷ ("t2", done_entry) ∷ [];
  session_index = ("s1", "t1" ∷ "t2" ∷ []) ∷ [];
  run_index = ("run-1", "t1") ∷ [];
  max_tasks = 2;
  events = [];
}

abbrev empty_registry : TaskRegistry
empty_registry = record full_registry { tasks = []; session_index = []; run_index = [] }

eviction_runs : (register (task "t3") full_registry).1.session_index ≡ ("s1", "t1" ∷ "t3" ∷ []) ∷ []
unfolding register agent_kernel.Tasks.Registry.evict_if_needed agent_kernel.Tasks.Registry.evict_all
    agent_kernel.Tasks.Registry.evict agent_kernel.Tasks.Registry.without terminal_ids lookup insert
    remove
eviction_runs = refl

register_capacity_example :
    let n = length (register (task "t3") full_registry).1.tasks in
    (n ≤ 2) ⊎ ((n ≤ 2) ⊎ ((terminal_ids full_registry.tasks ≡ []) × (n ≤ 3)))
register_capacity_example = register_capacity (task "t3") full_registry

running_there : lookup "t1" full_registry.tasks ≡ some running_entry
unfolding lookup
running_there = refl

register_keeps_active_example :
    lookup "t1" (register (task "t3") full_registry).1.tasks ≡ some running_entry
unfolding lookup
register_keeps_active_example =
    register_keeps_active (task "t3") full_registry "t1" running_entry (refl, (refl, tt))
      running_there refl

get_health-get_stalled_tasks_example :
    get_health "t1" 200 (get_stalled_tasks 200 full_registry).1
    ≡ counted (get_health "t1" 200 full_registry)
get_health-get_stalled_tasks_example = get_health-get_stalled_tasks "t1" 200 full_registry

stall_runs : says_stalled (get_health "t1" 200 full_registry) ≡ true
unfolding get_health lookup
stall_runs = refl

heartbeat_holds_example :
    (says_stalled (get_health "t1" 250 (heartbeat "t1" 150 full_registry)) ≡ false)
    × (last_beat (get_health "t1" 250 (heartbeat "t1" 150 full_registry)) ≡ some 150)
    × (150 ≤ later (some 10) 150)
    × (is_after (some 10) (later (some 10) 150) ≡ true)
heartbeat_holds_example =
    heartbeat_holds "t1" 150 250 full_registry running_entry running_there (omega arith)

abbrev history : List Op
history =
    register_op (task "t1")
    ∷ start_attempt_op attempt 10
    ∷ get_stalled_tasks_op 200
    ∷ complete_attempt_op "t1" "run-1" AttemptOutcome.completed none "now"
    ∷ register_op (task "t1")
    ∷ []

empty_registry-IsWellFormed : IsWellFormed empty_registry.tasks
unfolding lookup
empty_registry-IsWellFormed = record { distinct = tt; owned = λ key e there. cc }

run-IsWellFormed_example : IsWellFormed (run history empty_registry).tasks
run-IsWellFormed_example = run-IsWellFormed history empty_registry empty_registry-IsWellFormed
