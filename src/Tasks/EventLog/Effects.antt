-- ===== src/Tasks/EventLog/Effects.antt =====
-- What each method of the registry of agent_kernel/kernel/task_manager/registry.py does to the views of its
-- tasks: a function of the views alone.
use agent_kernel.Prelude.{
  ◌≡◌, refl, ap, arith, ℕ, String, List, [], ◌∷◌, ◌++◌, Option, none, some, if◌then◌else◌, ltb,
  length, take, map, Option-cases, Bool-cases, inl, inr,
}
use agent_kernel.Prelude.Dict.{Dict, lookup, insert}
use agent_kernel.Contracts.{FailureEnvelope}
use agent_kernel.Tasks.Data.{
  TaskLifecycleState, AttemptOutcome, TaskDescriptor, TaskAttempt, TaskEntry, new_entry,
  TaskRegistry,
}
use agent_kernel.Tasks.Registry.{
  register, start_attempt, complete_attempt, update_state, evict_if_needed, terminal_ids, half,
  any_open, end_open, ended_entry, is_open,
}
use agent_kernel.Tasks.EventLog.Views.{
  bare_attempt, view, views, lookup-views, views-insert, length-views, terminal_ids-views,
  remove_all, evict_all-tasks, views-remove_all,
}

abbrev room : ℕ → Dict TaskEntry → Dict TaskEntry
room max_tasks t =
    if ltb (length t) max_tasks
    then t
    else remove_all (take (half (length (terminal_ids t))) (terminal_ids t)) t

views-room : (m : ℕ) (t : Dict TaskEntry) → views (room m t) ≡ room m (views t)
views-room m t = ground (
  arith,
  length-views t,
  terminal_ids-views t,
  views-remove_all (take (half (length (terminal_ids t))) (terminal_ids t)) t,
)

evict_if_needed-tasks : (r : TaskRegistry) → (evict_if_needed r).tasks ≡ room r.max_tasks r.tasks
unfolding evict_if_needed
evict_if_needed-tasks r =
    ground (
      arith,
      evict_all-tasks (take (half (length (terminal_ids r.tasks))) (terminal_ids r.tasks)) r,
    )

abbrev pub registered_view : ℕ → TaskDescriptor → Dict TaskEntry → Dict TaskEntry
registered_view m d v = elim (lookup d.task_id v) [
  | some e ↦ v
  | none ↦ insert d.task_id (view (new_entry d)) (room m v)
]

pub register-views :
    (d : TaskDescriptor) (r : TaskRegistry)
    → views (register d r).1.tasks ≡ registered_view r.max_tasks d (views r.tasks)
unfolding register
register-views d r = ground (
  arith,
  lookup-views d.task_id r.tasks,
  evict_if_needed-tasks r,
  views-room r.max_tasks r.tasks,
  views-insert d.task_id (new_entry d) (room r.max_tasks r.tasks),
)

map-append :
    (xs ys : List TaskAttempt)
    → map bare_attempt (xs ++ ys) ≡ map bare_attempt xs ++ map bare_attempt ys
map-append [] ys = refl
map-append (x ∷ xs) ys = ap (λ r. bare_attempt x ∷ r) (map-append xs ys)

abbrev pub started_view : TaskAttempt → Dict TaskEntry → Dict TaskEntry
started_view a v = elim (lookup a.task_id v) [
  | none ↦ v
  | some e ↦
      insert a.task_id
        (record e {
          attempts = e.attempts ++ bare_attempt a ∷ [];
          lifecycle_state = TaskLifecycleState.running;
        })
        v
]

pub start_attempt-views :
    (a : TaskAttempt) (now : ℕ) (r : TaskRegistry)
    → views (start_attempt a now r).1.tasks ≡ started_view a (views r.tasks)
unfolding start_attempt
start_attempt-views a now r = elim (Option-cases (lookup a.task_id r.tasks)) [
  | inl e ↦ ground (arith, e, lookup-views a.task_id r.tasks)
  | inr (f, e) ↦ ground (
    arith,
    e,
    lookup-views a.task_id r.tasks,
    map-append f.attempts (a ∷ []),
    views-insert a.task_id
        (record f {
          attempts = f.attempts ++ a ∷ [];
          lifecycle_state = TaskLifecycleState.running;
          last_heartbeat_ms = some now;
        })
        r.tasks,
  )
]

any_open-bare :
    (j : String) (xs : List TaskAttempt) → any_open j (map bare_attempt xs) ≡ any_open j xs
unfolding any_open
any_open-bare j [] = refl
any_open-bare j (x ∷ xs) = ground (arith, any_open-bare j xs)

end_open-bare :
    (j : String) (o : AttemptOutcome) (f : Option FailureEnvelope) (n : String)
    (xs : List TaskAttempt)
    → map bare_attempt (end_open j o f n xs)
      ≡ map bare_attempt (end_open j o none "" (map bare_attempt xs))
unfolding end_open
end_open-bare j o f n [] = refl
end_open-bare j o f n (x ∷ xs) = elim (Bool-cases (is_open j x)) [
  | inl b ↦ ground (arith, b, end_open-bare j o f n xs)
  | inr b ↦ ground (arith, b, end_open-bare j o f n xs)
]

abbrev pub completed_view : String → String → AttemptOutcome → Dict TaskEntry → Dict TaskEntry
completed_view task_id run_id outcome v = elim (lookup task_id v) [
  | none ↦ v
  | some e ↦
      if any_open run_id e.attempts
      then insert task_id (view (ended_entry run_id outcome none "" e)) v
      else v
]

pub complete_attempt-views :
    (t j : String) (o : AttemptOutcome) (f : Option FailureEnvelope) (n : String) (r : TaskRegistry)
    → views (complete_attempt t j o f n r).tasks ≡ completed_view t j o (views r.tasks)
unfolding complete_attempt
complete_attempt-views t j o f n r = elim (Option-cases (lookup t r.tasks)) [
  | inl e ↦ ground (arith, e, lookup-views t r.tasks)
  | inr (x, e) ↦ ground (
    arith,
    e,
    lookup-views t r.tasks,
    any_open-bare j x.attempts,
    end_open-bare j o f n x.attempts,
    views-insert t (ended_entry j o f n x) r.tasks,
  )
]

abbrev pub updated_view : String → TaskLifecycleState → Dict TaskEntry → Dict TaskEntry
updated_view t s v = elim (lookup t v) [
  | none ↦ v
  | some e ↦ insert t (record e { lifecycle_state = s }) v
]

pub update_state-views :
    (t : String) (s : TaskLifecycleState) (r : TaskRegistry)
    → views (update_state t s r).tasks ≡ updated_view t s (views r.tasks)
unfolding update_state
update_state-views t s r = elim (Option-cases (lookup t r.tasks)) [
  | inl e ↦ ground (arith, e, lookup-views t r.tasks)
  | inr (x, e) ↦
      ground (
        arith,
        e,
        lookup-views t r.tasks,
        views-insert t (record x { lifecycle_state = s }) r.tasks,
      )
]
