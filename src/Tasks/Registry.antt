-- ===== src/Tasks/Registry.antt =====
-- The methods of TaskRegistry in agent_kernel/kernel/task_manager/registry.py that change it; each holds
-- the lock throughout. The clock's reading is an argument.
use agent_kernel.Prelude.{
  ℕ, ◌+◌, ◌/◌, Option, none, some, Bool, true, false, ◌&&◌, String, List, [], ◌∷◌, ◌++◌, ◌==◌,
  if◌then◌else◌, ltb, leb, length, take,
}
use agent_kernel.Prelude.Errors.{Exec, ok, raised, value_error, key_error}
use agent_kernel.Prelude.Dict.{Dict, lookup, insert, remove}
use agent_kernel.Contracts.{FailureEnvelope}
use agent_kernel.Tasks.Data.{
  TaskLifecycleState, AttemptOutcome, TaskDescriptor, TaskAttempt, TaskEntry, new_entry, TaskEvent,
  registered, attempt_started, attempt_ended, state_updated, TaskRegistry, is_terminal,
  is_completed,
}

abbrev pub emit : TaskEvent → TaskRegistry → TaskRegistry
emit e r = record r { events = r.events ++ e ∷ [] }

-- The entry of a task that is there, replaced.
abbrev pub store : String → TaskEntry → TaskRegistry → TaskRegistry
store task_id e r = record r { tasks = insert task_id e r.tasks }

-- The ids of the tasks in a terminal state, oldest first.
unfoldable pub terminal_ids : Dict TaskEntry → List String
terminal_ids [] = []
terminal_ids ((task_id, e) ∷ items) =
    let rest = terminal_ids items in if is_terminal e.lifecycle_state then task_id ∷ rest else rest

unfoldable pub without : String → List String → List String
without task_id [] = []
without task_id (t ∷ ids) =
    let rest = without task_id ids in if t == task_id then rest else t ∷ rest

abbrev unlisted : String → String → Dict (List String) → Dict (List String)
unlisted session_id task_id index = elim (lookup session_id index) [
  | none ↦ index
  | some ids ↦ insert session_id (without task_id ids) index
]

-- One turn of the loop of `_evict_if_needed`.
unfoldable pub evict : String → TaskRegistry → TaskRegistry
unfolding without
evict task_id r = elim (lookup task_id r.tasks) [
  | none ↦ r
  | some e ↦ record r {
    tasks = remove task_id r.tasks;
    session_index = unlisted e.descriptor.session_id task_id r.session_index;
  }
]

unfoldable pub evict_all : List String → TaskRegistry → TaskRegistry
unfolding evict
evict_all [] r = r
evict_all (task_id ∷ ids) r = evict_all ids (evict task_id r)

-- `max(1, n // 2)`
abbrev pub half : ℕ → ℕ
half n = if leb 1 (n / 2) then n / 2 else 1

unfoldable pub evict_if_needed : TaskRegistry → TaskRegistry
unfolding terminal_ids evict_all
evict_if_needed r =
    if ltb (length r.tasks) r.max_tasks
    then r
    else let terminal = terminal_ids r.tasks in evict_all (take (half (length terminal)) terminal) r

abbrev listed : Option (List String) → List String
listed none = []
listed (some ids) = ids

-- The new task, once there is room.
abbrev pub admit : TaskDescriptor → TaskRegistry → TaskRegistry
admit d r = emit (registered d) (record r {
  tasks = insert d.task_id (new_entry d) r.tasks;
  session_index =
      insert d.session_id (listed (lookup d.session_id r.session_index) ++ d.task_id ∷ [])
        r.session_index;
})

unfoldable pub register : TaskDescriptor → Exec TaskRegistry (Unit {0})
unfolding evict_if_needed
register d r = elim (lookup d.task_id r.tasks) [
  | some e ↦ (raised value_error, r)
  | none ↦ (ok tt, admit d (evict_if_needed r))
]

unfoldable pub start_attempt : TaskAttempt → ℕ → Exec TaskRegistry (Unit {0})
start_attempt a now r = elim (lookup a.task_id r.tasks) [
  | none ↦ (raised key_error, r)
  | some e ↦ (
    ok tt,
    emit (attempt_started a)
        (record (store a.task_id
          (record e {
            attempts = e.attempts ++ a ∷ [];
            lifecycle_state = TaskLifecycleState.running;
            last_heartbeat_ms = some now;
          })
          r) { run_index = insert a.run_id a.task_id r.run_index }),
  )
]

-- An attempt of the run that has no outcome yet.
abbrev pub is_open : String → TaskAttempt → Bool
is_open run_id a = a.run_id == run_id && (elim a.outcome [ none ↦ true | some o ↦ false ])

unfoldable pub any_open : String → List TaskAttempt → Bool
any_open run_id [] = false
any_open run_id (a ∷ attempts) =
    let rest = any_open run_id attempts in if is_open run_id a then true else rest

-- `replace(a, outcome=outcome, completed_at=now_iso, failure=...)`
abbrev pub ended : AttemptOutcome → Option FailureEnvelope → String → TaskAttempt → TaskAttempt
ended outcome failure now_iso a = record a {
  outcome = some outcome;
  completed_at = some now_iso;
  failure = if is_completed outcome then none else failure;
}

unfoldable pub end_open :
    String → AttemptOutcome → Option FailureEnvelope → String → List TaskAttempt → List TaskAttempt
end_open run_id outcome failure now_iso [] = []
end_open run_id outcome failure now_iso (a ∷ attempts) =
    (if is_open run_id a then ended outcome failure now_iso a else a)
    ∷ end_open run_id outcome failure now_iso attempts

-- The entry of a task whose attempt ended.
abbrev pub ended_entry :
    String → AttemptOutcome → Option FailureEnvelope → String → TaskEntry → TaskEntry
ended_entry run_id outcome failure now_iso e = record e {
  attempts = end_open run_id outcome failure now_iso e.attempts;
  lifecycle_state =
      if is_completed outcome then TaskLifecycleState.completed else TaskLifecycleState.failed;
}

unfoldable pub complete_attempt :
    String → String → AttemptOutcome → Option FailureEnvelope → String → TaskRegistry → TaskRegistry
unfolding any_open end_open
complete_attempt task_id run_id outcome failure now_iso r = elim (lookup task_id r.tasks) [
  | none ↦ r
  | some e ↦
      if any_open run_id e.attempts
      then emit (attempt_ended task_id run_id outcome)
          (record (store task_id (ended_entry run_id outcome failure now_iso e) r) {
            run_index = remove run_id r.run_index;
          })
      else r
]

-- The states of `state_event_map`.
abbrev pub is_announced : TaskLifecycleState → Bool
is_announced TaskLifecycleState.restarting = true
is_announced TaskLifecycleState.reflecting = true
is_announced TaskLifecycleState.completed = true
is_announced TaskLifecycleState.escalated = true
is_announced TaskLifecycleState.aborted = true
is_announced _ = false

unfoldable pub update_state : String → TaskLifecycleState → TaskRegistry → TaskRegistry
update_state task_id state r = elim (lookup task_id r.tasks) [
  | none ↦ r
  | some e ↦
      let r' = store task_id (record e { lifecycle_state = state }) r in
      if is_announced state then emit (state_updated task_id state) r' else r'
]

-- The time of a heartbeat: later than the one before.
abbrev pub later : Option ℕ → ℕ → ℕ
later none now = now
later (some last) now = if leb now last then last + 1 else now

abbrev pub beaten : ℕ → TaskEntry → TaskEntry
beaten now e = record e {
  last_heartbeat_ms = some (later e.last_heartbeat_ms now);
  consecutive_missed_beats = 0;
}

unfoldable pub heartbeat : String → ℕ → TaskRegistry → TaskRegistry
heartbeat task_id now r = elim (lookup task_id r.tasks) [
  | none ↦ r
  | some e ↦ store task_id (beaten now e) r
]

unfoldable pub heartbeat_for_run : String → ℕ → TaskRegistry → TaskRegistry
heartbeat_for_run run_id now r = elim (lookup run_id r.run_index) [
  | none ↦ r
  | some task_id ↦ elim (lookup task_id r.tasks) [
    | none ↦ r
    | some e ↦ store task_id (beaten now e) r
  ]
]
