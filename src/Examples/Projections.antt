-- ===== src/Examples/Projections.antt =====
-- Runs of the event log and the projection service, and the theorems at them.
use agent_kernel.Prelude.{◌≡◌, refl, ◌⊎◌, String, List, [], ◌∷◌, true, none, some}
use agent_kernel.Prelude.Errors.{ok}
use agent_kernel.Prelude.Dict.{lookup, insert, remove}
use agent_kernel.Prelude.Json.{get_item}
use agent_kernel.Prelude.Text.{is_in}
use agent_kernel.Contracts.{
  RuntimeEvent, RunProjection, RunLifecycleState, ActionCommit, EventClass, EventAuthority,
  WakePolicy, RecoveryMode,
}
use agent_kernel.Migration.{
  maybe_migrate_event, migrate, resolve_path, search, visit_all, walk_back, apply_path,
  find_migration, attach_original_schema_version, set_default,
}
use agent_kernel.Migration.Offsets.{maybe_migrate_keeps}
use agent_kernel.Examples.Migrations.{versions, versions_keep}
use agent_kernel.Runtime.EventLog.{load, stamp, behind, append_action_commit, evict_oldest}
use agent_kernel.Runtime.Transition.{default_projection}
use agent_kernel.Runtime.Transition
use agent_kernel.Runtime.Projection.{Config, replay, through}
use agent_kernel.Runtime.Projection
use agent_kernel.Runtime.Histories.{Op, append, catch_up, get, run, recorded, empty_world, all_fit}
use agent_kernel.Runtime.Refinement.{load-run, get-run}
use agent_kernel.Runtime.Lifecycle.{IsCoherent, replay-IsCoherent, replay-completed, replay-aborted}

abbrev event : String → EventAuthority → RuntimeEvent
event name authority = record {
  run_id = "r1";
  event_id = name;
  commit_offset = 0;
  event_type = name;
  event_class = EventClass.fact;
  event_authority = authority;
  ordering_key = "r1";
  wake_policy = WakePolicy.wake_actor;
  created_at = "t";
  idempotency_key = none;
  payload_ref = none;
  payload_json = none;
  schema_version = "1";
}

abbrev created : RuntimeEvent
created = event "run.created" EventAuthority.authoritative_fact

abbrev ready : RuntimeEvent
ready = event "run.ready" EventAuthority.authoritative_fact

abbrev note : RuntimeEvent
note = event "diagnostic.note" EventAuthority.derived_diagnostic

abbrev completed : RuntimeEvent
completed = event "run.completed" EventAuthority.authoritative_fact

abbrev cancelled : RuntimeEvent
cancelled = event "run.cancel_requested" EventAuthority.authoritative_fact

abbrev commit : String → List RuntimeEvent → ActionCommit
commit r events = record {
  run_id = r;
  commit_id = "c";
  events = events;
  created_at = "t";
  action = none;
  caused_by = none;
}

-- A service that migrates every event to version 3.
abbrev plain : Config
plain = record {
  lower = λ s. s;
  migrate = maybe_migrate_event (some versions) (some "3");
  reject_derived_diagnostic_authority_input = true;
}

plain_keeps : (e f : RuntimeEvent) → plain.migrate e ≡ ok f → f.commit_offset ≡ e.commit_offset
plain_keeps e f h = maybe_migrate_keeps versions (some "3") e f versions_keep h

abbrev history : List Op
history =
    append (commit "r1" (created ∷ []))
    ∷ get "r1"
    ∷ append (commit "r1" (ready ∷ note ∷ []))
    ∷ catch_up "r1" 2
    ∷ append (commit "r2" (created ∷ []))
    ∷ append (commit "r1" (completed ∷ []))
    ∷ []

abbrev over : RunProjection
over = record (default_projection "r1") { lifecycle_state = RunLifecycleState.completed }

abbrev cancelled_run : RunProjection
cancelled_run = record (default_projection "r1") { lifecycle_state = RunLifecycleState.aborted }

history_fits : all_fit plain history empty_world ≡ true
unfolding append_action_commit evict_oldest stamp lookup insert remove Projection.get
    Projection.catch_up load behind replay through maybe_migrate_event migrate resolve_path search
    visit_all walk_back apply_path find_migration attach_original_schema_version set_default
history_fits = refl

load-run_example : load "r1" 0 (run plain history empty_world).0 ≡ stamp 1 (recorded "r1" history)
load-run_example = load-run plain "r1" history history_fits

get-run_example :
    (Projection.get plain "r1"
      (run plain history empty_world).0
      (run plain history empty_world).1).0
    ≡ replay plain (default_projection "r1") (stamp 1 (recorded "r1" history))
get-run_example = get-run plain plain_keeps "r1" history history_fits

abbrev ready_run : RunProjection
ready_run = record (default_projection "r1") {
  lifecycle_state = RunLifecycleState.ready;
  projected_offset = 2;
  ready_for_dispatch = true;
}

get_runs :
    replay plain (default_projection "r1") (stamp 1 (created ∷ ready ∷ note ∷ [])) ≡ ok ready_run
unfolding replay stamp default_projection Transition.apply_projection_event
    Transition.resolve_projection_transition Transition.projection_operational_priority
    Transition.is_lower_priority_operational_conflict Transition.event_operational_priority
    Transition.resolve_active_child_runs Transition.extract_child_run_id Transition.contains
    Transition.without Transition.derive_recovery_reason get_item lookup
    Projection.validate_projection_authority_input maybe_migrate_event insert
get_runs = refl

default-IsCoherent : IsCoherent (default_projection "r1")
unfolding default_projection
default-IsCoherent = (refl, refl)

replay-IsCoherent_example : IsCoherent ready_run
replay-IsCoherent_example =
    replay-IsCoherent plain (default_projection "r1") ready_run
      (stamp 1 (created ∷ ready ∷ note ∷ [])) default-IsCoherent get_runs

abbrev pinned_over : RunProjection
pinned_over = record over {
  policy_versions = some (record {
    route_policy_version = some "route-1";
    acceptance_policy_version = none;
    memory_policy_version = none;
    skill_policy_version = none;
    evaluation_policy_version = none;
    task_view_policy_version = none;
    pinned_at = "t";
  });
  task_contract_ref = some "contract-1";
}

abbrev late_over : RunProjection
late_over = record over { projected_offset = 2 }

over_runs : replay plain pinned_over (stamp 1 (ready ∷ cancelled ∷ [])) ≡ ok late_over
unfolding replay stamp default_projection Transition.apply_projection_event
    Transition.resolve_projection_transition Transition.resolve_active_child_runs
    Projection.validate_projection_authority_input maybe_migrate_event lookup insert
over_runs = refl

replay-completed_example :
    (late_over ≡ pinned_over)
    ⊎ (late_over ≡ record pinned_over {
      projected_offset = late_over.projected_offset;
      policy_versions = none;
      task_contract_ref = none;
    })
replay-completed_example =
    replay-completed plain pinned_over late_over (stamp 1 (ready ∷ cancelled ∷ [])) refl over_runs

abbrev late_cancelled : RunProjection
late_cancelled = record cancelled_run {
  projected_offset = 2;
  recovery_mode = some RecoveryMode.abort;
  recovery_reason = some "cancel_requested";
}

cancelled_runs : replay plain cancelled_run (stamp 1 (cancelled ∷ ready ∷ [])) ≡ ok late_cancelled
unfolding replay stamp default_projection Transition.apply_projection_event
    Transition.resolve_projection_transition Transition.projection_operational_priority
    Transition.is_lower_priority_operational_conflict Transition.event_operational_priority
    Transition.is_cancel_reason Transition.resolve_active_child_runs Transition.derive_cancel_reason
    Transition.derive_recovery_reason get_item is_in Projection.validate_projection_authority_input
    maybe_migrate_event lookup insert
cancelled_runs = refl

replay-aborted_example :
    (late_cancelled.lifecycle_state ≡ RunLifecycleState.aborted)
    × (late_cancelled.active_child_runs ≡ cancelled_run.active_child_runs)
replay-aborted_example =
    replay-aborted plain cancelled_run late_cancelled (stamp 1 (cancelled ∷ ready ∷ [])) refl
      cancelled_runs
