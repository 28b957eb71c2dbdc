-- ===== src/Tasks/Queries.antt =====
-- What TaskRegistry in agent_kernel/kernel/task_manager/registry.py tells of its tasks, and the sweep
-- for stalled ones.
use agent_kernel.Prelude.{
  ℕ, suc, ◌+◌, Option, none, some, Bool, true, false, ◌&&◌, String, List, [], ◌∷◌, if◌then◌else◌,
  ltb, length, get_last?,
}
use agent_kernel.Prelude.Dict.{Dict, lookup}
use agent_kernel.Tasks.Data.{
  TaskDescriptor, TaskAttempt, TaskEntry, TaskHealthStatus, TaskRegistry, is_active,
}

unfoldable pub get_task : String → TaskRegistry → Option TaskDescriptor
get_task task_id r = elim (lookup task_id r.tasks) [ none ↦ none | some e ↦ some e.descriptor ]

unfoldable pub get_attempts : String → TaskRegistry → List TaskAttempt
get_attempts task_id r = elim (lookup task_id r.tasks) [ none ↦ [] | some e ↦ e.attempts ]

unfoldable pub get_task_id_for_run : String → TaskRegistry → Option String
get_task_id_for_run run_id r = lookup run_id r.run_index

unfoldable pub descriptors_of : List String → Dict TaskEntry → List TaskDescriptor
descriptors_of [] tasks = []
descriptors_of (task_id ∷ ids) tasks =
    let rest = descriptors_of ids tasks in
    elim (lookup task_id tasks) [ none ↦ rest | some e ↦ e.descriptor ∷ rest ]

unfoldable pub list_session_tasks : String → TaskRegistry → List TaskDescriptor
unfolding descriptors_of
list_session_tasks session_id r = elim (lookup session_id r.session_index) [
  | none ↦ []
  | some ids ↦ descriptors_of ids r.tasks
]

-- `now - last > timeout`; a heartbeat may lie ahead of the clock.
abbrev pub is_late : TaskEntry → ℕ → Bool
is_late e now = elim e.last_heartbeat_ms [
  | none ↦ false
  | some last ↦ ltb (last + e.descriptor.restart_policy.heartbeat_timeout_ms) now
]

abbrev current_run : Option TaskAttempt → Option String
current_run none = none
current_run (some a) = elim a.outcome [ none ↦ some a.run_id | some o ↦ none ]

abbrev pub health_of : String → TaskEntry → Bool → TaskHealthStatus
health_of task_id e is_stalled = record {
  task_id = task_id;
  lifecycle_state = e.lifecycle_state;
  current_run_id = current_run (get_last? e.attempts);
  attempt_seq = length e.attempts;
  max_attempts = e.descriptor.restart_policy.max_attempts;
  last_heartbeat_ms = e.last_heartbeat_ms;
  consecutive_missed_beats = e.consecutive_missed_beats;
  is_stalled = is_stalled;
}

unfoldable pub get_health : String → ℕ → TaskRegistry → Option TaskHealthStatus
get_health task_id now r = elim (lookup task_id r.tasks) [
  | none ↦ none
  | some e ↦ some (health_of task_id e (is_active e.lifecycle_state && is_late e now))
]

-- One entry of the loop of `get_stalled_tasks`: passed over, or counted and reported.
unfoldable pub missed : ℕ → TaskEntry → Option TaskEntry
missed now e =
    if is_active e.lifecycle_state
    then (if is_late e now
        then some (record e { consecutive_missed_beats = suc e.consecutive_missed_beats })
        else none)
    else none

abbrev or_same : TaskEntry → Option TaskEntry → TaskEntry
or_same e none = e
or_same e (some e') = e'

unfoldable pub sweep : ℕ → Dict TaskEntry → List TaskHealthStatus × Dict TaskEntry
unfolding missed
sweep now [] = ([], [])
sweep now ((task_id, e) ∷ items) =
    let (stalled, rest) = sweep now items in
    let e' = missed now e in
    (
      elim e' [ none ↦ stalled | some m ↦ health_of task_id m true ∷ stalled ],
      (task_id, or_same e e') ∷ rest,
    )

unfoldable pub get_stalled_tasks : ℕ → TaskRegistry → List TaskHealthStatus × TaskRegistry
unfolding sweep
get_stalled_tasks now r =
    let (stalled, tasks) = sweep now r.tasks in (stalled, record r { tasks = tasks })
