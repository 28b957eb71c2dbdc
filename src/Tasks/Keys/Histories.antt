-- ===== src/Tasks/Keys/Histories.antt =====
-- Any calls of the registry's methods, in any order, keep it well formed
-- (agent_kernel/kernel/task_manager/registry.py and watchdog.py).
use agent_kernel.Prelude.{
  ℕ, ◌≡◌, refl, sym, ◌∙◌, subst, ◌&&◌, Option, none, some, String, List, [], ◌∷◌, arith, ◌==◌,
  Option-cases, Bool-cases, inl, inr,
}
use agent_kernel.Prelude.Dict.{Dict, lookup}
use agent_kernel.Contracts.{FailureEnvelope, RunLifecycleState}
use agent_kernel.Tasks.Data.{
  TaskLifecycleState, AttemptOutcome, TaskDescriptor, TaskAttempt, TaskEntry, TaskRegistry,
  is_active,
}
use agent_kernel.Tasks.Registry.{
  register, start_attempt, complete_attempt, update_state, heartbeat, heartbeat_for_run,
}
use agent_kernel.Tasks.Queries.{is_late, get_stalled_tasks, get_task_id_for_run, sweep}
use agent_kernel.Tasks.Watchdog.{
  on_run_lifecycle_transition, attempt_outcome, on_turn_state_transition, on_action_dispatch,
  on_llm_call, on_parallel_branch_result,
}
use agent_kernel.Tasks.Liveness.{
  swept, swept_slot, lookup-sweep, beat_of, heartbeat_for_run-heartbeat,
}
use agent_kernel.Tasks.Keys.{Distinct}
use agent_kernel.Tasks.Keys.Steps.{
  Owned, IsWellFormed, register-IsWellFormed, start_attempt-IsWellFormed,
  complete_attempt-IsWellFormed, update_state-IsWellFormed, heartbeat-IsWellFormed,
}

sweep-Distinct : (now : ℕ) (tasks : Dict TaskEntry) → Distinct tasks → Distinct (sweep now tasks).1
unfolding sweep
sweep-Distinct now [] h = tt
sweep-Distinct now ((name, e) ∷ tasks) h =
    (ground (arith, h.0, lookup-sweep now name tasks), sweep-Distinct now tasks h.1)

swept-Owned : (key : String) (now : ℕ) (e : TaskEntry) → Owned key e → Owned key (swept now e)
swept-Owned key now e h = elim (Bool-cases (is_active e.lifecycle_state && is_late e now)) [
  | inl stalled ↦ rw stalled h
  | inr fine ↦ rw fine h
]

swept_slot-Owned :
    (key : String) (now : ℕ) (o : Option TaskEntry) (e' : TaskEntry)
    → ((e : TaskEntry) → o ≡ some e → Owned key e)
    → swept_slot now o ≡ some e'
    → Owned key e'
swept_slot-Owned key now none e' h there = cc
swept_slot-Owned key now (some e) e' h there =
    let same : swept now e ≡ e' = cc in subst (Owned key) same (swept-Owned key now e (h e refl))

sweep-IsWellFormed :
    (now : ℕ) (tasks : Dict TaskEntry) → IsWellFormed tasks → IsWellFormed (sweep now tasks).1
sweep-IsWellFormed now tasks h = record {
  distinct = sweep-Distinct now tasks h.distinct;
  owned = λ key e there.
      swept_slot-Owned key now (lookup key tasks) e (h.owned key)
        (sym (lookup-sweep now key tasks) ∙ there);
}

beat-IsWellFormed :
    (o : Option String) (now : ℕ) (r : TaskRegistry)
    → IsWellFormed r.tasks
    → IsWellFormed (beat_of o now r).tasks
beat-IsWellFormed none now r h = h
beat-IsWellFormed (some task_id) now r h = heartbeat-IsWellFormed task_id now r h

heartbeat_for_run-IsWellFormed :
    (run_id : String) (now : ℕ) (r : TaskRegistry)
    → IsWellFormed r.tasks
    → IsWellFormed (heartbeat_for_run run_id now r).tasks
heartbeat_for_run-IsWellFormed run_id now r h =
    rw (heartbeat_for_run-heartbeat run_id now r)
      (beat-IsWellFormed (get_task_id_for_run run_id r) now r h)

-- One call of a method or of a hook of the watchdog that may change the registry.
pub data Op : Type 0 where
  register_op : TaskDescriptor → Op
  start_attempt_op : TaskAttempt → ℕ → Op
  complete_attempt_op : String → String → AttemptOutcome → Option FailureEnvelope → String → Op
  update_state_op : String → TaskLifecycleState → Op
  heartbeat_op : String → ℕ → Op
  heartbeat_for_run_op : String → ℕ → Op
  get_stalled_tasks_op : ℕ → Op
  transition_op : String → RunLifecycleState → ℕ → String → Op
  turn_op dispatch_op llm_call_op branch_result_op : String → ℕ → Op

-- The registry after a call, whether it returned or raised.
abbrev pub after : Op → TaskRegistry → TaskRegistry
after (register_op d) r = (register d r).1
after (start_attempt_op a now) r = (start_attempt a now r).1
after (complete_attempt_op t j o f n) r = complete_attempt t j o f n r
after (update_state_op t s) r = update_state t s r
after (heartbeat_op t now) r = heartbeat t now r
after (heartbeat_for_run_op j now) r = heartbeat_for_run j now r
after (get_stalled_tasks_op now) r = (get_stalled_tasks now r).1
after (transition_op j s now n) r = on_run_lifecycle_transition j s now n r
after (turn_op j now) r = on_turn_state_transition j now r
after (dispatch_op j now) r = on_action_dispatch j now r
after (llm_call_op j now) r = on_llm_call j now r
after (branch_result_op j now) r = on_parallel_branch_result j now r

abbrev pub run : List Op → TaskRegistry → TaskRegistry
run [] r = r
run (op ∷ ops) r = run ops (after op r)

transition-IsWellFormed :
    (run_id : String) (s : RunLifecycleState) (now : ℕ) (n : String) (r : TaskRegistry)
    → IsWellFormed r.tasks
    → IsWellFormed (on_run_lifecycle_transition run_id s now n r).tasks
unfolding on_run_lifecycle_transition
transition-IsWellFormed run_id s now n r h =
    let r' = heartbeat_for_run run_id now r in
    let h' = heartbeat_for_run-IsWellFormed run_id now r h in
    elim (Option-cases (attempt_outcome s)) [
      | inl going ↦ rw (going, on_run_lifecycle_transition) h'
      | inr (o, over) ↦ elim (Option-cases (get_task_id_for_run run_id r')) [
        | inl unknown_run ↦ rw (over, unknown_run, on_run_lifecycle_transition) h'
        | inr (task_id, found) ↦ elim (Bool-cases (task_id == "")) [
          | inl blank ↦ rw (over, found, blank, on_run_lifecycle_transition) h'
          | inr named ↦
              rw (over, found, named, on_run_lifecycle_transition)
                (complete_attempt-IsWellFormed task_id run_id o none n r' h')
        ]
      ]
    ]

after-IsWellFormed :
    (op : Op) (r : TaskRegistry) → IsWellFormed r.tasks → IsWellFormed (after op r).tasks
unfolding get_stalled_tasks
after-IsWellFormed (register_op d) r h = register-IsWellFormed d r h
after-IsWellFormed (start_attempt_op a now) r h = start_attempt-IsWellFormed a now r h
after-IsWellFormed (complete_attempt_op t j o f n) r h = complete_attempt-IsWellFormed t j o f n r h
after-IsWellFormed (update_state_op t s) r h = update_state-IsWellFormed t s r h
after-IsWellFormed (heartbeat_op t now) r h = heartbeat-IsWellFormed t now r h
after-IsWellFormed (heartbeat_for_run_op j now) r h = heartbeat_for_run-IsWellFormed j now r h
after-IsWellFormed (get_stalled_tasks_op now) r h = sweep-IsWellFormed now r.tasks h
after-IsWellFormed (transition_op j s now n) r h = transition-IsWellFormed j s now n r h
after-IsWellFormed (turn_op j now) r h = heartbeat_for_run-IsWellFormed j now r h
after-IsWellFormed (dispatch_op j now) r h = heartbeat_for_run-IsWellFormed j now r h
after-IsWellFormed (llm_call_op j now) r h = heartbeat_for_run-IsWellFormed j now r h
after-IsWellFormed (branch_result_op j now) r h = heartbeat_for_run-IsWellFormed j now r h

-- Over any history of calls from a well-formed registry: no task stands twice, every task stands under
-- its own id, and every attempt stands with the task that it is an attempt of.
pub run-IsWellFormed :
    (ops : List Op) (r : TaskRegistry) → IsWellFormed r.tasks → IsWellFormed (run ops r).tasks
run-IsWellFormed [] r h = h
run-IsWellFormed (op ∷ ops) r h = run-IsWellFormed ops (after op r) (after-IsWellFormed op r h)
