-- ===== src/Actor/Signals.antt =====
-- `run` up to its wait, `signal`, `_handle_signal` and `query` of RunActorWorkflow
-- (agent_kernel/substrate/temporal/run_actor_workflow.py), with the decision to continue as new.
use agent_kernel.Prelude.{
  ℕ, suc, ◌+◌, String, Option, none, some, Bool, true, false, not, List, [], ◌∷◌, ◌++◌, ◌==◌,
  if◌then◌else◌, ltb,
}
use agent_kernel.Prelude.Errors.{Outcome, Exec, ok, raised, runtime_error, ◌>>=◌, ◌>>◌, pure}
use agent_kernel.Prelude.Text.{concat, str}
use agent_kernel.Contracts.{
  RunPolicyVersions, RunProjection, RunLifecycleState, ActionCommit, WakePolicy, among,
}
use agent_kernel.Runtime.EventLog.{append_action_commit}
use agent_kernel.Runtime.Projection
use agent_kernel.Prelude.Json.{Value, end, field}
use agent_kernel.Actor.Payloads.{text_or_none}
use agent_kernel.Actor.Events.{signal_event_type, normalize_signal_payload}
use agent_kernel.Actor.State.{
  ActorSignal, RunInput, ActorServices, Actor, on_log, on_cache, on_world, update, when_given,
}
use agent_kernel.Actor.Appends.{fact_event}
use agent_kernel.Actor.Turns.{process_action_commit}

-- `projection.lifecycle_state in ("completed", "aborted")`
abbrev is_terminal_state : RunLifecycleState → Bool
is_terminal_state RunLifecycleState.completed = true
is_terminal_state RunLifecycleState.aborted = true
is_terminal_state _ = false

abbrev pub is_run_terminal : Option RunProjection → Bool
is_run_terminal none = false
is_run_terminal (some p) = is_terminal_state p.lifecycle_state

-- The workflow's result names the run's state where the run failed or was aborted.
abbrev pub final_state : RunLifecycleState → String
final_state RunLifecycleState.aborted = "aborted"
final_state RunLifecycleState.failed = "failed"
final_state _ = "completed"

abbrev pub active_children : Option RunProjection → List String
active_children none = []
active_children (some p) = p.active_child_runs

-- The attribute `_last_snapshot` is never set, so that only the active children may send.
unfoldable pub is_peer_signal_authorized : ActorSignal → Option RunProjection → Bool
is_peer_signal_authorized i p = elim i.from_peer_run_id [
  | none ↦ true
  | some peer ↦ among peer (active_children p)
]

-- The token of a signal with a cause.
unfoldable pub signal_token : ActorSignal → Option String
signal_token i = elim i.caused_by [
  | none ↦ none
  | some cause ↦ if cause == "" then none else some (concat (i.signal_type ∷ ":" ∷ cause ∷ []))
]

abbrev pub seen_token : Option String → List String → Bool
seen_token none tokens = false
seen_token (some token) tokens = among token tokens

unfoldable pub is_seen : ActorSignal → List String → Bool
unfolding signal_token
is_seen i tokens = seen_token (signal_token i) tokens

-- `self._seen_signal_tokens.add(signal_token)`
abbrev pub add_token : Option String → List String → List String
add_token none tokens = tokens
add_token (some token) tokens = token ∷ tokens

-- `input_value.caused_by or f"seq-{...}"`
abbrev dedupe_token : Option String → ℕ → String
dedupe_token none n = concat ("seq-" ∷ str n ∷ [])
dedupe_token (some s) n = if s == "" then concat ("seq-" ∷ str n ∷ []) else s

abbrev pub signal_commit : String → ActorSignal → ℕ → ℕ → String → ActionCommit
signal_commit run_id i n offset now = record {
  run_id = run_id;
  commit_id = concat ("signal:" ∷ i.signal_type ∷ ":" ∷ dedupe_token i.caused_by n ∷ []);
  events =
      fact_event run_id (concat ("evt-signal-" ∷ str n ∷ [])) offset
        (signal_event_type i.signal_type) none
        (normalize_signal_payload i.signal_type i.signal_payload) now
      ∷ [];
  created_at = now;
  action = none;
  caused_by = i.caused_by;
}

abbrev pinned_commit : String → RunPolicyVersions → String → ActionCommit
pinned_commit run_id pv now =
    let pinned =
      fact_event run_id (concat ("evt-policy-pinned-" ∷ run_id ∷ [])) 0 "run.policy_versions_pinned"
        none
        (some (
          field "route_policy_version" (text_or_none pv.route_policy_version) (
            field "skill_policy_version" (text_or_none pv.skill_policy_version) (
              field "evaluation_policy_version" (text_or_none pv.evaluation_policy_version) (
                field "task_view_policy_version" (text_or_none pv.task_view_policy_version)
                  (field "pinned_at" (Value.str pv.pinned_at) end))))))
        now in
    record {
      run_id = run_id;
      commit_id = concat ("policy-versions-pinned:" ∷ run_id ∷ []);
      events = record pinned { wake_policy = WakePolicy.projection_only } ∷ [];
      created_at = now;
      action = none;
      caused_by = some "run.start";
    }

pub data ActorCall : Type 0 where
  signalled : ActorSignal → ActorCall
  committed : ActionCommit → ActorCall

module _ {W : Type 0} (v : ActorServices W) where
  -- Whether the round that is counted last calls for a new history.
  unfoldable pub should_continue_as_new : Actor W → Bool
  should_continue_as_new s = elim v.continue_as_new [
    | none ↦ false
    | some start ↦
        if ltb s.history_event_count v.history_event_threshold
        then false
        else elim s.last_projection [
          | none ↦ false
          | some p ↦ elim s.pending_signals [
            | signal ∷ signals ↦ false
            | [] ↦ not (is_terminal_state p.lifecycle_state)
          ]
        ]
  ]

  abbrev serialized : List ActorSignal → Option (List ActorSignal)
  serialized [] = none
  serialized (signal ∷ signals) = some (signal ∷ signals)

  abbrev pub carried_over : String → Actor W → RunInput
  carried_over run_id s = record {
    run_id = run_id;
    session_id = s.session_id;
    parent_run_id = s.parent_run_id;
    pending_signals = serialized s.pending_signals;
    policy_versions = none;
    initial_stage_id = none;
  }

  unfoldable pub trigger_continue_as_new : String → Exec (Actor W) (Unit {0})
  trigger_continue_as_new run_id s =
      when_given v.continue_as_new (λ start. on_world (start (carried_over run_id s))) s

  abbrev pub continued : String → Exec (Actor W) (Unit {0})
  continued run_id s =
      if should_continue_as_new s then trigger_continue_as_new run_id s else (ok tt, s)

  abbrev pub count_round : Exec (Actor W) (Unit {0})
  count_round = update (λ s. record s { history_event_count = suc s.history_event_count })

  abbrev pub remember : ActorSignal → Exec (Actor W) (Unit {0})
  remember i =
      update
        (λ s. record s { seen_signal_tokens = add_token (signal_token i) s.seen_signal_tokens })

  -- The signal's commit is appended, remembered, and processed.
  abbrev pub record_signal : String → ActorSignal → ℕ → RunProjection → Exec (Actor W) (Unit {0})
  record_signal run_id i n p =
      let c = signal_commit run_id i n (p.projected_offset + 1) v.now in
      on_log (append_action_commit c)
      >> (remember i >> (process_action_commit v c >> (count_round >> continued run_id)))

  -- What follows the checks of `_handle_signal`.
  unfoldable pub deliver_signal : String → ActorSignal → Exec (Actor W) (Unit {0})
  unfolding Projection.get should_continue_as_new trigger_continue_as_new
  deliver_signal run_id i s =
      let n = suc s.signal_sequence in
      (on_cache (Projection.get v.projection run_id) >>= record_signal run_id i n)
        (record s { signal_sequence = n })

  -- The checks, for an actor that has a run.
  abbrev pub handle_for : Option String → ActorSignal → Exec (Actor W) (Unit {0})
  handle_for none i s = (raised runtime_error, s)
  handle_for (some run_id) i s =
      if not (is_peer_signal_authorized i s.last_projection)
      then (ok tt, s)
      else if is_seen i s.seen_signal_tokens
      then (ok tt, s)
      else deliver_signal run_id i s

  unfoldable pub handle_signal : ActorSignal → Exec (Actor W) (Unit {0})
  unfolding is_peer_signal_authorized is_seen deliver_signal
  handle_signal i s = handle_for s.run_id i s

  -- A signal before `run` is kept for it.
  abbrev pub signal_for : Option String → ActorSignal → Exec (Actor W) (Unit {0})
  signal_for none i s = (ok tt, record s { pending_signals = s.pending_signals ++ (i ∷ []) })
  signal_for (some run_id) i s = handle_signal i s

  unfoldable pub signal : ActorSignal → Exec (Actor W) (Unit {0})
  unfolding handle_signal
  signal i s = signal_for s.run_id i s

  abbrev handle_all : List ActorSignal → Exec (Actor W) (Unit {0})
  handle_all [] = pure tt
  handle_all (i ∷ signals) = handle_signal i >> handle_all signals

  -- The signals carried over join those that came early, and all are handled.
  abbrev restore : Option (List ActorSignal) → Exec (Actor W) (Unit {0})
  restore carried s =
      let early : List ActorSignal = elim carried [ none ↦ [] | some signals ↦ signals ] in
      handle_all (s.pending_signals ++ early) (record s { pending_signals = [] })

  -- The pinned policy versions are recorded, where there are some.
  abbrev pin_policy_versions : String → RunPolicyVersions → Exec (Actor W) (Unit {0})
  pin_policy_versions run_id pv =
      on_log (append_action_commit (pinned_commit run_id pv v.now)) >> pure tt

  -- `run`, until the workflow waits; an empty id counts as none.
  unfoldable pub start_run : RunInput → Exec (Actor W) (Unit {0})
  unfolding Projection.get handle_signal
  start_run i =
      update (λ s. record s {
        run_id = if i.run_id == "" then none else some i.run_id;
        session_id = i.session_id;
        parent_run_id = i.parent_run_id;
        policy_versions = i.policy_versions;
        active_stage_id = i.initial_stage_id;
      })
      >> (on_cache (Projection.get v.projection i.run_id) >>= λ p.
          update (λ s. record s { last_projection = some p })
          >> when_given i.policy_versions (pin_policy_versions i.run_id)
          >> restore i.pending_signals)

  -- One call of the actor, and a sequence of calls.
  abbrev pub call : ActorCall → Actor W → Actor W
  call (signalled i) s = (signal i s).1
  call (committed c) s = (process_action_commit v c s).1

  unfoldable pub run_calls : List ActorCall → Actor W → Actor W
  unfolding signal
  run_calls [] s = s
  run_calls (c ∷ calls) s = run_calls calls (call c s)

  unfoldable pub query : Actor W → Outcome RunProjection
  query s = elim s.run_id [
    | none ↦ raised runtime_error
    | some run_id ↦ elim s.last_projection [ none ↦ raised runtime_error | some p ↦ ok p ]
  ]
