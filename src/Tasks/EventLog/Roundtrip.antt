-- ===== src/Tasks/EventLog/Roundtrip.antt =====
-- From a registry to its event log and back (agent_kernel/kernel/task_manager: registry.py, watchdog.py and
-- event_log.py).
use agent_kernel.Prelude.{
  ◌≡◌, refl, sym, ◌∙◌, ap, subst, arith, ℕ, ◌+◌, ◌≤◌, String, List, [], ◌∷◌, ◌++◌, Bool, true,
  Option, none, some, ◌&&◌, ◌==◌, not, is_some, length, Option-cases, Bool-cases, inl, inr,
  append-nil, append_assoc, length-append,
}
use agent_kernel.Prelude.Dict.{Dict}
use agent_kernel.Contracts.{RunLifecycleState}
use agent_kernel.Tasks.Data.{TaskEntry, TaskEvent, TaskRegistry}
use agent_kernel.Tasks.Registry.{complete_attempt, heartbeat_for_run, is_announced}
use agent_kernel.Tasks.Queries.{get_attempts, get_stalled_tasks, get_task_id_for_run, sweep, missed}
use agent_kernel.Tasks.Watchdog.{on_run_lifecycle_transition, attempt_outcome}
use agent_kernel.Tasks.Liveness.{beat_of, heartbeat_for_run-heartbeat}
use agent_kernel.Tasks.Keys.Histories.{
  Op, register_op, start_attempt_op, complete_attempt_op, update_state_op, heartbeat_op,
  heartbeat_for_run_op, get_stalled_tasks_op, transition_op, turn_op, dispatch_op, llm_call_op,
  branch_result_op, after, run,
}
use agent_kernel.Tasks.EventLog.{
  is_there, InMemoryTaskEventLog, append_task_event, replay_into_registry, replay_all,
}
use agent_kernel.Tasks.EventLog.Views.{views}
use agent_kernel.Tasks.EventLog.Restore.{
  fresh_registry, IsRestorable, quiet-IsRestorable, register-IsRestorable,
  start_attempt-IsRestorable, complete_attempt-IsRestorable, update_state-IsRestorable,
  heartbeat-IsRestorable,
}

-- Whether the events tell all of a call: an attempt starts new and without an outcome, and a state that is
-- set by hand has an event.
abbrev pub is_told : Op → TaskRegistry → Bool
is_told (start_attempt_op a now) r =
    not (is_some a.outcome) && not (is_there a (get_attempts a.task_id r))
is_told (update_state_op t s) r = is_announced s
is_told _ r = true

abbrev pub all_told : List Op → TaskRegistry → Bool
all_told [] r = true
all_told (op ∷ ops) r = is_told op r && all_told ops (after op r)

-- The log after the registry's appender got the events.
abbrev pub log_of : List TaskEvent → InMemoryTaskEventLog → InMemoryTaskEventLog
log_of [] l = l
log_of (e ∷ events) l = log_of events (append_task_event e l)

abbrev pub empty_log : ℕ → InMemoryTaskEventLog
empty_log max_events = record { events = []; max_events = max_events }

log_of-events :
    (events : List TaskEvent) (l : InMemoryTaskEventLog)
    → length l.events + length events ≤ l.max_events
    → (log_of events l).events ≡ l.events ++ events
unfolding append_task_event
log_of-events [] l h = sym (append-nil l.events)
log_of-events (e ∷ events) l h =
    let kept : (append_task_event e l).events ≡ l.events ++ e ∷ [] = ground (arith, h) in
    let bound : (append_task_event e l).max_events ≡ l.max_events = refl in
    log_of-events events (append_task_event e l)
      (ground (arith, h, kept, length-append l.events (e ∷ [])))
    ∙ ap (λ es. es ++ events) kept
    ∙ append_assoc l.events (e ∷ []) events

sweep-views : (now : ℕ) (t : Dict TaskEntry) → views (sweep now t).1 ≡ views t
unfolding sweep missed
sweep-views now [] = refl
sweep-views now ((k, e) ∷ t) = ground (arith, sweep-views now t)

module _ (clock : ℕ → ℕ × String) where
  beat-IsRestorable :
      (o : Option String) (now : ℕ) (r : TaskRegistry)
      → IsRestorable clock r
      → IsRestorable clock (beat_of o now r)
  beat-IsRestorable none now r h = h
  beat-IsRestorable (some t) now r h = heartbeat-IsRestorable clock t now r h

  heartbeat_for_run-IsRestorable :
      (j : String) (now : ℕ) (r : TaskRegistry)
      → IsRestorable clock r
      → IsRestorable clock (heartbeat_for_run j now r)
  heartbeat_for_run-IsRestorable j now r h =
      subst (IsRestorable clock) (sym (heartbeat_for_run-heartbeat j now r))
        (beat-IsRestorable (get_task_id_for_run j r) now r h)

  transition-IsRestorable :
      (j : String) (s : RunLifecycleState) (now : ℕ) (n : String) (r : TaskRegistry)
      → IsRestorable clock r
      → IsRestorable clock (on_run_lifecycle_transition j s now n r)
  unfolding on_run_lifecycle_transition
  transition-IsRestorable j s now n r h =
      let r' = heartbeat_for_run j now r in
      let h' = heartbeat_for_run-IsRestorable j now r h in
      let done = on_run_lifecycle_transition j s now n r in
      let ends : (z : TaskRegistry) → done ≡ z → done ≡ z = λ z p. p in
      elim (Option-cases (attempt_outcome s)) [
        | inl going ↦ subst (IsRestorable clock) (sym (ends r' (ground (arith, going)))) h'
        | inr (o, over) ↦ elim (Option-cases (get_task_id_for_run j r')) [
          | inl absent ↦
              subst (IsRestorable clock) (sym (ends r' (ground (arith, over, absent)))) h'
          | inr (t, found) ↦ elim (Bool-cases (t == "")) [
            | inl blank ↦
                subst (IsRestorable clock) (sym (ends r' (ground (arith, over, found, blank)))) h'
            | inr named ↦
                subst (IsRestorable clock)
                  (sym
                    (ends (complete_attempt t j o none n r') (ground (arith, over, found, named))))
                  (complete_attempt-IsRestorable clock t j o none n r' h')
          ]
        ]
      ]

  after-IsRestorable :
      (op : Op) (r : TaskRegistry)
      → is_told op r ≡ true
      → IsRestorable clock r
      → IsRestorable clock (after op r)
  unfolding get_stalled_tasks
  after-IsRestorable (register_op d) r t h = register-IsRestorable clock d r h
  after-IsRestorable (start_attempt_op a now) r t h =
      start_attempt-IsRestorable clock a now r (ground arith) (ground arith) h
  after-IsRestorable (complete_attempt_op k j o f n) r t h =
      complete_attempt-IsRestorable clock k j o f n r h
  after-IsRestorable (update_state_op k s) r t h = update_state-IsRestorable clock k s r t h
  after-IsRestorable (heartbeat_op k now) r t h = heartbeat-IsRestorable clock k now r h
  after-IsRestorable (heartbeat_for_run_op j now) r t h = heartbeat_for_run-IsRestorable j now r h
  after-IsRestorable (turn_op j now) r t h = heartbeat_for_run-IsRestorable j now r h
  after-IsRestorable (dispatch_op j now) r t h = heartbeat_for_run-IsRestorable j now r h
  after-IsRestorable (llm_call_op j now) r t h = heartbeat_for_run-IsRestorable j now r h
  after-IsRestorable (branch_result_op j now) r t h = heartbeat_for_run-IsRestorable j now r h
  after-IsRestorable (get_stalled_tasks_op now) r t h =
      quiet-IsRestorable clock r (get_stalled_tasks now r).1 refl refl (sweep-views now r.tasks) h
  after-IsRestorable (transition_op j s now n) r t h = transition-IsRestorable j s now n r h

  run-IsRestorable :
      (ops : List Op) (r : TaskRegistry)
      → all_told ops r ≡ true
      → IsRestorable clock r
      → IsRestorable clock (run ops r)
  run-IsRestorable [] r t h = h
  run-IsRestorable (op ∷ ops) r t h =
      run-IsRestorable ops (after op r) (ground arith) (after-IsRestorable op r (ground arith) h)

  -- The registry after any calls of its methods, of the watchdog's sweep and of its hook is restored from
  -- its events, replayed into a new registry of the same capacity: every task is there, in its place,
  -- with its descriptor (but for max_backoff_ms, which no event holds), its state and its attempts (but
  -- for the time, failure and reflection of their end), if the log had room for all events, attempts
  -- started new and without an outcome, and states set by update_state were ones that have an event.
  pub restore-run :
      (ops : List Op) (m max_events : ℕ)
      → all_told ops (fresh_registry m) ≡ true
      → length (run ops (fresh_registry m)).events ≤ max_events
      → views
          (replay_into_registry clock
            (log_of (run ops (fresh_registry m)).events (empty_log max_events))
            (fresh_registry (run ops (fresh_registry m)).max_tasks)).1.tasks
        ≡ views (run ops (fresh_registry m)).tasks
  unfolding replay_into_registry replay_all
  restore-run ops m max_events t fits =
      let r = run ops (fresh_registry m) in
      ap (λ es. views (replay_all clock 0 es (fresh_registry r.max_tasks)).tasks)
        (log_of-events r.events (empty_log max_events) (omega arith))
      ∙ (run-IsRestorable ops (fresh_registry m) t (refl, refl)).0
