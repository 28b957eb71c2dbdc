-- ===== src/Runtime/Transition.antt =====
-- What one event does to a run's projection: _apply_projection_event and its helpers in
-- agent_kernel/kernel/minimal_runtime.py. `lower` is Python's `str.lower`.
use agent_kernel.Prelude.{
  ℕ, Option, none, some, Bool, true, false, ◌&&◌, ◌||◌, not, String, List, [], ◌∷◌, ◌++◌, ◌==◌,
  if◌then◌else◌, ltb,
}
use agent_kernel.Prelude.Text.{is_in}
use agent_kernel.Prelude.Dict.{Dict, lookup}
use agent_kernel.Prelude.Json.{Fields, end, get_item, as_str}
use agent_kernel.Contracts.{RunLifecycleState, RecoveryMode, RunProjection, RuntimeEvent}
use text.Mathlib.Text.{starts_with}

-- `_default_projection`
unfoldable pub default_projection : String → RunProjection
default_projection run_id = record {
  run_id = run_id;
  lifecycle_state = RunLifecycleState.created;
  projected_offset = 0;
  waiting_external = false;
  ready_for_dispatch = false;
  current_action_id = none;
  recovery_mode = none;
  recovery_reason = none;
  active_child_runs = [];
  policy_versions = none;
  task_contract_ref = none;
}

-- The lifecycle state, the two flags and the recovery mode that an event sets.
pub record Target : Type 0 where
  pub lifecycle_state : RunLifecycleState
  pub waiting_external : Bool
  pub ready_for_dispatch : Bool
  pub recovery_mode : Option RecoveryMode

abbrev target : RunLifecycleState → Bool → Bool → Option RecoveryMode → Target
target s w r m = record {
  lifecycle_state = s;
  waiting_external = w;
  ready_for_dispatch = r;
  recovery_mode = m;
}

-- `_STATIC_EVENT_TRANSITIONS`
abbrev pub static_event_transitions : Dict Target
static_event_transitions =
    ("run.created", target RunLifecycleState.created false false none)
    ∷ ("run.ready", target RunLifecycleState.ready false true none)
    ∷ (
      "run.resume_requested",
      target RunLifecycleState.recovering false false (some RecoveryMode.static_compensation),
    )
    ∷ (
      "run.cancel_requested",
      target RunLifecycleState.aborted false false (some RecoveryMode.abort),
    )
    ∷ ("run.recovery_succeeded", target RunLifecycleState.ready false true none)
    ∷ (
      "run.recovery_aborted",
      target RunLifecycleState.aborted false false (some RecoveryMode.abort),
    )
    ∷ (
      "run.waiting_external",
      target RunLifecycleState.waiting_external true false (some RecoveryMode.human_escalation),
    )
    ∷ ("run.dispatching", target RunLifecycleState.dispatching false true none)
    ∷ (
      "run.recovering",
      target RunLifecycleState.recovering false false (some RecoveryMode.static_compensation),
    )
    ∷ ("run.completed", target RunLifecycleState.completed false false none)
    ∷ ("run.aborted", target RunLifecycleState.aborted false false (some RecoveryMode.abort))
    ∷ []

unfoldable pub resolve_dynamic_transition : String → Option Target
resolve_dynamic_transition t =
    if t == "signal.child_spawned"
      || t == "signal.child_completed"
      || t == "signal.child_run_completed"
    then none
    else if starts_with t "signal."
    then some (target RunLifecycleState.ready false true none)
    else none

-- The operational classes, and `_OPERATIONAL_PRIORITY_RANK`.
pub data OperationalPriority : Type 0 where
  external_callback timeout hard_failure cancel : OperationalPriority

abbrev pub rank : OperationalPriority → ℕ
rank external_callback = 1
rank timeout = 2
rank hard_failure = 3
rank cancel = 4

unfoldable pub event_operational_priority : String → Option OperationalPriority
event_operational_priority t =
    if t == "run.cancel_requested"
    then some cancel
    else if t == "run.recovery_aborted" || t == "run.aborted"
    then some hard_failure
    else if t == "run.waiting_external" || t == "reconcile.failed"
    then some timeout
    else if t == "signal.external_callback" || t == "signal.callback"
    then some external_callback
    else none

-- `payload_json or {}`
abbrev pub payload_of : RuntimeEvent → Fields
payload_of e = elim e.payload_json [ none ↦ end | some m ↦ m ]

unfoldable pub extract_child_run_id : RuntimeEvent → Option String
extract_child_run_id e = elim (as_str (get_item "child_run_id" (payload_of e))) [
  | none ↦ none
  | some s ↦ if s == "" then none else some s
]

unfoldable pub contains : String → List String → Bool
contains s [] = false
contains s (t ∷ r) = t == s || contains s r

unfoldable pub without : String → List String → List String
without s [] = []
without s (t ∷ r) = let rest = without s r in if t == s then rest else t ∷ rest

abbrev is_ended : RunLifecycleState → Bool
is_ended RunLifecycleState.aborted = true
is_ended RunLifecycleState.completed = true
is_ended _ = false

abbrev is_completed : RunLifecycleState → Bool
is_completed RunLifecycleState.completed = true
is_completed _ = false

abbrev is_aborted : RunLifecycleState → Bool
is_aborted RunLifecycleState.aborted = true
is_aborted _ = false

-- One event of a child run.
abbrev tracked : String → String → List String → List String
tracked t child runs =
    if t == "run.child_spawned" || t == "signal.child_spawned"
    then (if contains child runs then runs else runs ++ child ∷ [])
    else if t == "run.child_completed"
        || t == "run.child_run_completed"
        || t == "signal.child_completed"
        || t == "signal.child_run_completed"
    then without child runs
    else runs

unfoldable pub resolve_active_child_runs : RunProjection → RuntimeEvent → List String
unfolding extract_child_run_id contains without
resolve_active_child_runs p e =
    if is_ended p.lifecycle_state then p.active_child_runs else elim (extract_child_run_id e) [
      | none ↦ p.active_child_runs
      | some child ↦ tracked e.event_type child p.active_child_runs
    ]

unfoldable pub derive_recovery_reason : RuntimeEvent → Option String → Option String
derive_recovery_reason e fallback = elim (as_str (get_item "reason" (payload_of e))) [
  | some reason ↦ some reason
  | none ↦
      if e.event_type == "run.ready"
        || e.event_type == "run.completed"
        || e.event_type == "run.created"
      then none
      else fallback
]

unfoldable pub derive_cancel_reason : RuntimeEvent → Option String → String
unfolding derive_recovery_reason
derive_cancel_reason e fallback = elim (derive_recovery_reason e fallback) [
  | some reason ↦ reason
  | none ↦ "cancel_requested"
]

-- The projection with a target and a reason.
abbrev pub moved : Target → Option String → RunProjection → RunProjection
moved t reason p = record p {
  lifecycle_state = t.lifecycle_state;
  waiting_external = t.waiting_external;
  ready_for_dispatch = t.ready_for_dispatch;
  recovery_mode = t.recovery_mode;
  recovery_reason = reason;
}

module _ (lower : String → String) where
  unfoldable pub is_cancel_reason : Option String → Bool
  is_cancel_reason none = false
  is_cancel_reason (some reason) = if reason == "" then false else is_in "cancel" (lower reason)

  unfoldable pub projection_operational_priority : RunProjection → Option OperationalPriority
  projection_operational_priority p = elim p.lifecycle_state [
    | RunLifecycleState.aborted ↦
        if is_cancel_reason p.recovery_reason then some cancel else some hard_failure
    | RunLifecycleState.waiting_external ↦ some timeout
    | _ ↦ none
  ]

  abbrev ranks_below : Option OperationalPriority → Option OperationalPriority → Bool
  ranks_below (some incoming) (some current) = ltb (rank incoming) (rank current)
  ranks_below _ _ = false

  unfoldable pub is_lower_priority_operational_conflict : RunProjection → RuntimeEvent → Bool
  unfolding projection_operational_priority
  is_lower_priority_operational_conflict p e =
      ranks_below (event_operational_priority e.event_type) (projection_operational_priority p)

  -- `blocked_by_terminal_or_priority`
  abbrev pub is_blocked : RunProjection → RuntimeEvent → Bool
  is_blocked p e =
      is_completed p.lifecycle_state
      || is_lower_priority_operational_conflict p e
      || is_aborted p.lifecycle_state && not (e.event_type == "run.cancel_requested")

  -- The projection with the fields that `_resolve_projection_transition` returns.
  unfoldable pub resolve_projection_transition : RunProjection → RuntimeEvent → RunProjection
  unfolding derive_cancel_reason derive_recovery_reason
  resolve_projection_transition p e =
      if is_blocked p e
      then p
      else if e.event_type == "run.cancel_requested"
      then moved (target RunLifecycleState.aborted false false (some RecoveryMode.abort))
          (some (derive_cancel_reason e p.recovery_reason)) p
      else if e.event_type == "reconcile.failed"
      then moved
          (target RunLifecycleState.waiting_external true false
            (some RecoveryMode.human_escalation))
          (derive_recovery_reason e p.recovery_reason) p
      else elim (lookup e.event_type static_event_transitions) [
        | some t ↦ moved t (derive_recovery_reason e p.recovery_reason) p
        | none ↦ elim (resolve_dynamic_transition e.event_type) [
          | some t ↦ moved t p.recovery_reason p
          | none ↦ p
        ]
      ]

  unfoldable pub apply_projection_event : RunProjection → RuntimeEvent → RunProjection
  unfolding resolve_projection_transition
  apply_projection_event p e = record (resolve_projection_transition p e) {
    projected_offset = e.commit_offset;
    active_child_runs = resolve_active_child_runs p e;
    policy_versions = none;
    task_contract_ref = none;
  }
