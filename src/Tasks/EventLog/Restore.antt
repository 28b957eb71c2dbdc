-- ===== src/Tasks/EventLog/Restore.antt =====
-- Replaying the events of a registry (agent_kernel/kernel/task_manager/event_log.py, replay_into_registry)
-- restores its tasks.
use agent_kernel.Prelude.{
  ◌≡◌, refl, sym, ◌∙◌, ap, subst, arith, ℕ, ◌+◌, String, [], ◌∷◌, ◌++◌, true, false, Option, none,
  some, length, Option-cases, Bool-cases, inl, inr,
}
use agent_kernel.Prelude.Dict.{Dict, lookup, insert}
use agent_kernel.Contracts.{FailureEnvelope}
use agent_kernel.Tasks.Data.{
  TaskLifecycleState, AttemptOutcome, TaskDescriptor, TaskAttempt, TaskEntry, TaskEvent, registered,
  attempt_started, attempt_ended, state_updated, TaskRegistry,
}
use agent_kernel.Tasks.Registry.{
  register, start_attempt, complete_attempt, update_state, heartbeat, beaten, is_announced,
  any_open,
}
use agent_kernel.Tasks.Queries.{get_attempts}
use agent_kernel.Tasks.EventLog.{is_there, replay_event, replay_all}
use agent_kernel.Tasks.EventLog.Views.{view, views, lookup-views, views-insert}
use agent_kernel.Tasks.EventLog.Effects.{
  register-views, start_attempt-views, complete_attempt-views, update_state-views,
}
use agent_kernel.Tasks.EventLog.Replay.{
  told, is_new, replay_event-views, evict-keeps, replay_event-max, replay_all-append,
  attempts_at-views, is_there-bare,
}

insert-same :
    (k : String) (e : TaskEntry) (v : Dict TaskEntry) → lookup k v ≡ some e → insert k e v ≡ v
unfolding lookup insert
insert-same k e [] h = ground (arith, h)
insert-same k e ((j, f) ∷ v) h = ground (arith, insert-same k e v, h)

-- A new registry.
abbrev pub fresh_registry : ℕ → TaskRegistry
fresh_registry m = record {
  tasks = [];
  session_index = [];
  run_index = [];
  max_tasks = m;
  events = [];
}

register-present :
    (d : TaskDescriptor) (r : TaskRegistry) (e : TaskEntry)
    → lookup d.task_id r.tasks ≡ some e
    → (register d r).1 ≡ r
unfolding register
register-present d r e h = ground (arith, h)

register-absent :
    (d : TaskDescriptor) (r : TaskRegistry)
    → lookup d.task_id r.tasks ≡ none
    → ((register d r).1.events ≡ r.events ++ registered d ∷ [])
      × ((register d r).1.max_tasks ≡ r.max_tasks)
unfolding register
register-absent d r h = ground (arith, h, evict-keeps r)

module _ (clock : ℕ → ℕ × String) where
  -- The registry that the events of another restore.
  abbrev pub restored : TaskRegistry → TaskRegistry
  restored r = replay_all clock 0 r.events (fresh_registry r.max_tasks)

  -- A replay of the registry's events gives its tasks, as far as the events carry them.
  abbrev pub IsRestorable : TaskRegistry → Type 0
  IsRestorable r =
      (views (restored r).tasks ≡ views r.tasks) × ((restored r).max_tasks ≡ r.max_tasks)

  pub quiet-IsRestorable :
      (r s : TaskRegistry)
      → s.events ≡ r.events
      → s.max_tasks ≡ r.max_tasks
      → views s.tasks ≡ views r.tasks
      → IsRestorable r
      → IsRestorable s
  quiet-IsRestorable r s e m v h = ground (arith, e, m, v, h)

  told-IsRestorable :
      (x : TaskEvent) (r s : TaskRegistry)
      → s.events ≡ r.events ++ x ∷ []
      → s.max_tasks ≡ r.max_tasks
      → views s.tasks ≡ told r.max_tasks x (views r.tasks)
      → is_new x (views r.tasks) ≡ true
      → IsRestorable r
      → IsRestorable s
  told-IsRestorable x r s e m v new (h, k) =
      let z = fresh_registry r.max_tasks in
      let before = replay_all clock 0 r.events z in
      let c = clock (0 + length r.events) in
      let same : restored s ≡ replay_event c x before =
        ap (λ es. replay_all clock 0 es (fresh_registry s.max_tasks)) e
        ∙ ap (λ y. replay_all clock 0 (r.events ++ x ∷ []) (fresh_registry y)) m
        ∙ replay_all-append clock 0 r.events x z in
      let fresh : is_new x (views before.tasks) ≡ true = ap (is_new x) h ∙ new in
      (
        ap (λ y. views y.tasks) same
            ∙ replay_event-views c x before fresh
            ∙ ap (λ y. told y x (views before.tasks)) k
            ∙ ap (told r.max_tasks x) h
            ∙ sym v,
        ap (λ y. y.max_tasks) same ∙ replay_event-max c x before ∙ k ∙ sym m,
      )

  pub register-IsRestorable :
      (d : TaskDescriptor) (r : TaskRegistry) → IsRestorable r → IsRestorable (register d r).1
  register-IsRestorable d r h = elim (Option-cases (lookup d.task_id r.tasks)) [
    | inr (e, there) ↦ subst IsRestorable (sym (register-present d r e there)) h
    | inl absent ↦
        let (es, m) = register-absent d r absent in
        told-IsRestorable (registered d) r (register d r).1 es m (register-views d r) refl h
  ]

  pub start_attempt-IsRestorable :
      (a : TaskAttempt) (now : ℕ) (r : TaskRegistry)
      → a.outcome ≡ none
      → is_there a (get_attempts a.task_id r) ≡ false
      → IsRestorable r
      → IsRestorable (start_attempt a now r).1
  unfolding start_attempt
  start_attempt-IsRestorable a now r unended new h =
      elim (Option-cases (lookup a.task_id r.tasks)) [
        | inl absent ↦
            quiet-IsRestorable r (start_attempt a now r).1 (ground (arith, absent))
              (ground (arith, absent)) (ground (arith, absent)) h
        | inr (e, there) ↦
            told-IsRestorable (attempt_started a) r (start_attempt a now r).1
              (ground (arith, there)) (ground (arith, there))
              (start_attempt-views a now r ∙ ground (arith, unended))
              (ground (
                arith,
                new,
                attempts_at-views a.task_id r,
                is_there-bare a (get_attempts a.task_id r),
              ))
              h
      ]

  pub complete_attempt-IsRestorable :
      (t j : String) (o : AttemptOutcome) (f : Option FailureEnvelope) (n : String)
      (r : TaskRegistry)
      → IsRestorable r
      → IsRestorable (complete_attempt t j o f n r)
  unfolding complete_attempt
  complete_attempt-IsRestorable t j o f n r h = elim (Option-cases (lookup t r.tasks)) [
    | inl absent ↦
        quiet-IsRestorable r (complete_attempt t j o f n r) (ground (arith, absent))
          (ground (arith, absent)) (ground (arith, absent)) h
    | inr (e, there) ↦ elim (Bool-cases (any_open j e.attempts)) [
      | inl b ↦
          told-IsRestorable (attempt_ended t j o) r (complete_attempt t j o f n r)
            (ground (arith, there, b)) (ground (arith, there, b))
            (complete_attempt-views t j o f n r) refl h
      | inr b ↦
          quiet-IsRestorable r (complete_attempt t j o f n r) (ground (arith, there, b))
            (ground (arith, there, b)) (ground (arith, there, b)) h
    ]
  ]

  pub update_state-IsRestorable :
      (t : String) (s : TaskLifecycleState) (r : TaskRegistry)
      → is_announced s ≡ true
      → IsRestorable r
      → IsRestorable (update_state t s r)
  unfolding update_state
  update_state-IsRestorable t s r a h = elim (Option-cases (lookup t r.tasks)) [
    | inl absent ↦
        quiet-IsRestorable r (update_state t s r) (ground (arith, absent)) (ground (arith, absent))
          (ground (arith, absent)) h
    | inr (e, there) ↦
        told-IsRestorable (state_updated t s) r (update_state t s r) (ground (arith, there, a))
          (ground (arith, there, a)) (update_state-views t s r) refl h
  ]

  pub heartbeat-IsRestorable :
      (t : String) (now : ℕ) (r : TaskRegistry) → IsRestorable r → IsRestorable (heartbeat t now r)
  unfolding heartbeat
  heartbeat-IsRestorable t now r h = elim (Option-cases (lookup t r.tasks)) [
    | inl absent ↦
        quiet-IsRestorable r (heartbeat t now r) (ground (arith, absent)) (ground (arith, absent))
          (ground (arith, absent)) h
    | inr (e, there) ↦
        quiet-IsRestorable r (heartbeat t now r) (ground (arith, there)) (ground (arith, there))
          (ground (
            arith,
            there,
            lookup-views t r.tasks,
            views-insert t (beaten now e) r.tasks,
            insert-same t (view e) (views r.tasks),
          ))
          h
  ]
