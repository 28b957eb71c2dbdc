-- ===== src/Tasks/EventLog/Replay.antt =====
-- The events of a registry replayed (agent_kernel/kernel/task_manager/event_log.py, replay_into_registry)
-- one by one.
use agent_kernel.Prelude.{
  ◌≡◌, refl, ◌∙◌, ap, arith, ℕ, suc, ◌+◌, String, List, [], ◌∷◌, ◌++◌, Bool, true, none, some, not,
  length, take, map,
}
use agent_kernel.Prelude.Dict.{Dict, lookup}
use agent_kernel.Tasks.Data.{
  TaskAttempt, TaskEntry, TaskEvent, registered, attempt_started, attempt_ended, state_updated,
  TaskRegistry,
}
use agent_kernel.Tasks.Registry.{
  register, start_attempt, complete_attempt, update_state, evict_if_needed, evict_all, evict,
  terminal_ids, half,
}
use agent_kernel.Tasks.Queries.{get_attempts}
use agent_kernel.Tasks.EventLog.{
  restored_descriptor, restored_attempt, is_there, replay_event, replay_all,
}
use agent_kernel.Tasks.EventLog.Views.{bare_attempt, views, lookup-views}
use agent_kernel.Tasks.EventLog.Effects.{
  registered_view, register-views, started_view, start_attempt-views, completed_view,
  complete_attempt-views, updated_view, update_state-views,
}

-- What an event stands for.
abbrev pub told : ℕ → TaskEvent → Dict TaskEntry → Dict TaskEntry
told m (registered d) v = registered_view m d v
told m (attempt_started a) v = started_view (restored_attempt a) v
told m (attempt_ended t j o) v = completed_view t j o v
told m (state_updated t s) v = updated_view t s v

abbrev pub attempts_at : String → Dict TaskEntry → List TaskAttempt
attempts_at t v = elim (lookup t v) [ none ↦ [] | some e ↦ e.attempts ]

-- Whether the attempt that an event starts is new.
abbrev pub is_new : TaskEvent → Dict TaskEntry → Bool
is_new (attempt_started a) v = not (is_there a (attempts_at a.task_id v))
is_new _ v = true

pub is_there-bare :
    (a : TaskAttempt) (xs : List TaskAttempt) → is_there a (map bare_attempt xs) ≡ is_there a xs
unfolding is_there
is_there-bare a [] = refl
is_there-bare a (x ∷ xs) = ground (arith, is_there-bare a xs)

pub attempts_at-views :
    (t : String) (r : TaskRegistry)
    → attempts_at t (views r.tasks) ≡ map bare_attempt (get_attempts t r)
unfolding get_attempts
attempts_at-views t r = ground (arith, lookup-views t r.tasks)

pub replay_event-views :
    (clock : ℕ × String) (e : TaskEvent) (r : TaskRegistry)
    → is_new e (views r.tasks) ≡ true
    → views (replay_event clock e r).tasks ≡ told r.max_tasks e (views r.tasks)
unfolding replay_event
replay_event-views clock (registered d) r h = register-views (restored_descriptor d) r
replay_event-views clock (attempt_started a) r h = ground (
  arith,
  h,
  attempts_at-views a.task_id r,
  is_there-bare a (get_attempts a.task_id r),
  start_attempt-views (restored_attempt a) clock.0 r,
)
replay_event-views clock (attempt_ended t j o) r h = complete_attempt-views t j o none clock.1 r
replay_event-views clock (state_updated t s) r h = update_state-views t s r

evict_all-max : (ids : List String) (r : TaskRegistry) → (evict_all ids r).max_tasks ≡ r.max_tasks
unfolding evict_all evict
evict_all-max [] r = refl
evict_all-max (k ∷ ids) r = ground (arith, evict_all-max ids (evict k r))

evict_all-events : (ids : List String) (r : TaskRegistry) → (evict_all ids r).events ≡ r.events
unfolding evict_all evict
evict_all-events [] r = refl
evict_all-events (k ∷ ids) r = ground (arith, evict_all-events ids (evict k r))

pub evict-keeps :
    (r : TaskRegistry)
    → ((evict_if_needed r).max_tasks ≡ r.max_tasks) × ((evict_if_needed r).events ≡ r.events)
unfolding evict_if_needed
evict-keeps r =
    let ids = take (half (length (terminal_ids r.tasks))) (terminal_ids r.tasks) in
    ground (arith, evict_all-max ids r, evict_all-events ids r)

pub replay_event-max :
    (clock : ℕ × String) (e : TaskEvent) (r : TaskRegistry)
    → (replay_event clock e r).max_tasks ≡ r.max_tasks
unfolding replay_event register start_attempt complete_attempt update_state
replay_event-max clock (registered d) r = ground (arith, evict-keeps r)
replay_event-max clock (attempt_started a) r = ground arith
replay_event-max clock (attempt_ended t j o) r = ground arith
replay_event-max clock (state_updated t s) r = ground arith

pub replay_all-append :
    (clock : ℕ → ℕ × String) (n : ℕ) (es : List TaskEvent) (e : TaskEvent) (r : TaskRegistry)
    → replay_all clock n (es ++ e ∷ []) r
      ≡ replay_event (clock (n + length es)) e (replay_all clock n es r)
unfolding replay_all
replay_all-append clock n [] e r = ap (λ k. replay_event (clock k) e r) (omega arith)
replay_all-append clock n (x ∷ es) e r =
    replay_all-append clock (suc n) es e (replay_event (clock n) x r)
    ∙ ap (λ k. replay_event (clock k) e (replay_all clock (suc n) es (replay_event (clock n) x r)))
        (omega arith)
