-- ===== src/Turn/Envelope.antt =====
-- What a turn hands to the executor: the snapshot's input, the idempotency envelope and the execution
-- context (_resolve_snapshot_input, _resolve_idempotency_envelope, _parse_idempotency_envelope and
-- _build_execution_context in agent_kernel/kernel/turn_engine.py).
use agent_kernel.Prelude.{
  ◌≡◌, Option, none, some, String, List, [], ◌∷◌, ◌==◌, if◌then◌else◌, arith,
}
use agent_kernel.Prelude.Errors.{Outcome, ok, raised, type_error, capability_snapshot_build_error}
use agent_kernel.Prelude.Text.{strip, Codec, str_of}
use agent_kernel.Prelude.Json.{
  Value, Items, Fields, nil, cons, null, get_item, get_or, as_dict, as_str, as_positive,
}
use agent_kernel.Contracts.{Action, ExecutionContext, effect_text}
use agent_kernel.Dedupe.{HostKind, IdempotencyEnvelope}
use agent_kernel.Policy.Host.{normalize_host_kind}
use agent_kernel.Snapshot.{CapabilitySnapshot, CapabilitySnapshotInput, bundle_fields}
use agent_kernel.Turn.State.{
  TurnInput, TurnIdentity, EnvelopePayload, typed, raw, Admission, object, Services,
}

infixl 5 ◌>>=◌
abbrev ◌>>=◌ : {A B : Type 0} → Outcome A → (A → Outcome B) → Outcome B
ok a >>= f = f a
raised e >>= f = raised e

-- The texts of a list. A payload whose items are not texts is outside the model: it raises here.
abbrev items_texts : Items → Outcome (List String)
items_texts nil = ok []
items_texts (cons (Value.str s) r) = items_texts r >>= λ l. ok (s ∷ l)
items_texts (cons _ r) = raised type_error

abbrev texts : Value → Outcome (List String)
texts (Value.list vs) = items_texts vs
texts (Value.tuple vs) = items_texts vs
texts _ = raised type_error

abbrev bindings : String → Fields → Outcome (List String)
bindings key m = texts (get_or key m (Value.list nil))

unfoldable pub declared_input : Codec → TurnInput → Fields → Outcome CapabilitySnapshotInput
declared_input c i m = do
  tools ← bindings "tool_bindings" m
  mcps ← bindings "mcp_bindings" m
  skills ← bindings "skill_bindings" m
  flags ← bindings "feature_flags" m
  ok (record {
    run_id = i.run_id;
    based_on_offset = i.based_on_offset;
    tenant_policy_ref = str_of c (get_or "tenant_policy_ref" m (Value.str ""));
    permission_mode = str_of c (get_or "permission_mode" m (Value.str ""));
    tool_bindings = tools;
    mcp_bindings = mcps;
    skill_bindings = skills;
    feature_flags = flags;
    context_binding_ref = as_str (get_item "context_binding_ref" m);
    context_content_hash = as_str (get_item "context_content_hash" m);
    budget_ref = as_str (get_item "budget_ref" m);
    quota_ref = as_str (get_item "quota_ref" m);
    session_mode = as_str (get_item "session_mode" m);
    approval_state = as_str (get_item "approval_state" m);
    declarative_bundle_digest = none;
    peer_run_bindings = [];
  })

-- `CapabilitySnapshotInput(run_id, based_on_offset, tenant_policy_ref, permission_mode)`
abbrev pub plain_input : TurnInput → String → String → CapabilitySnapshotInput
plain_input i tenant_policy_ref permission_mode = record {
  run_id = i.run_id;
  based_on_offset = i.based_on_offset;
  tenant_policy_ref = tenant_policy_ref;
  permission_mode = permission_mode;
  tool_bindings = [];
  mcp_bindings = [];
  skill_bindings = [];
  feature_flags = [];
  context_binding_ref = none;
  context_content_hash = none;
  budget_ref = none;
  quota_ref = none;
  session_mode = none;
  approval_state = none;
  declarative_bundle_digest = none;
  peer_run_bindings = [];
}

abbrev declared_payload : Action → Option Fields
declared_payload a = elim a.input_json [
  | none ↦ none
  | some m ↦ as_dict (get_item "capability_snapshot_input" m)
]

unfoldable pub resolve_snapshot_input :
    Services → TurnInput → Action → Outcome CapabilitySnapshotInput
unfolding declared_input
resolve_snapshot_input p i a = elim p.resolve [
  | some resolver ↦ resolver i a
  | none ↦ elim (declared_payload a) [
    | some m ↦ declared_input p.codec i m
    | none ↦
        if p.require_declared_snapshot_inputs
        then raised capability_snapshot_build_error
        else ok (plain_input i "policy:default" "strict")
  ]
]

unfoldable pub read_optional_string : Fields → String → Option String
read_optional_string m key = elim (get_item key m) [
  | Value.str s ↦ let t = strip s in if t == "" then none else some t
  | _ ↦ none
]

-- A text under a key, if it is one and not empty.
abbrev given_text : Fields → String → Option String
given_text m key = elim (get_item key m) [
  | Value.str s ↦ if s == "" then none else some s
  | _ ↦ none
]

module _ (p : Services) where
  unfoldable pub parse_idempotency_envelope : EnvelopePayload → String → Option IdempotencyEnvelope
  unfolding read_optional_string
  parse_idempotency_envelope (typed e) snapshot_hash = some e
  parse_idempotency_envelope (raw v) snapshot_hash = elim (as_dict v) [
    | none ↦ none
    | some m ↦ elim (given_text m "dispatch_idempotency_key") [
      | none ↦ none
      | some key ↦ elim (given_text m "operation_fingerprint") [
        | none ↦ none
        | some fingerprint ↦ elim (as_positive (get_item "attempt_seq" m)) [
          | none ↦ none
          | some attempt_seq ↦ elim (given_text m "effect_scope") [
            | none ↦ none
            | some effect_scope ↦ elim (normalize_host_kind p.lower (get_item "host_kind" m)) [
              | none ↦ none
              | some host_kind ↦ some (record {
                dispatch_idempotency_key = key;
                operation_fingerprint = fingerprint;
                attempt_seq = attempt_seq;
                effect_scope = effect_scope;
                capability_snapshot_hash =
                    str_of p.codec (get_or "capability_snapshot_hash" m (Value.str snapshot_hash));
                host_kind = host_kind;
                peer_operation_id = read_optional_string m "peer_operation_id";
                policy_snapshot_ref = read_optional_string m "policy_snapshot_ref";
                rule_bundle_hash = read_optional_string m "rule_bundle_hash";
              })
            ]
          ]
        ]
      ]
    ]
  ]

  -- `getattr(admission_result, "idempotency_envelope", None)`
  abbrev payload_of : Admission → EnvelopePayload
  payload_of (object o) = o.idempotency_envelope
  payload_of _ = raw null

  unfoldable pub resolve_idempotency_envelope :
      Admission → TurnIdentity → Action → CapabilitySnapshot → HostKind → IdempotencyEnvelope
  resolve_idempotency_envelope r ti a s host_kind =
      elim (parse_idempotency_envelope (payload_of r) s.snapshot_hash) [
        | some parsed ↦ record parsed {
          dispatch_idempotency_key = ti.dispatch_dedupe_key;
          operation_fingerprint = ti.decision_fingerprint;
        }
        | none ↦ record {
          dispatch_idempotency_key = ti.dispatch_dedupe_key;
          operation_fingerprint = ti.decision_fingerprint;
          attempt_seq = 1;
          effect_scope = effect_text a.effect_class;
          capability_snapshot_hash = s.snapshot_hash;
          host_kind = host_kind;
          peer_operation_id = none;
          policy_snapshot_ref = none;
          rule_bundle_hash = none;
        }
      ]

  -- Whatever the admission service put into its payload, the envelope is under the turn's own key
  -- and fingerprint.
  pub resolve_idempotency_envelope_identity :
      (r : Admission) (ti : TurnIdentity) (a : Action) (s : CapabilitySnapshot) (h : HostKind)
      → let e = resolve_idempotency_envelope r ti a s h in
        (e.dispatch_idempotency_key ≡ ti.dispatch_dedupe_key)
        × (e.operation_fingerprint ≡ ti.decision_fingerprint)
  unfolding resolve_idempotency_envelope
  resolve_idempotency_envelope_identity r ti a s h = ground arith

abbrev pub policy_ref_of : Admission → Option String
policy_ref_of (object o) = o.policy_snapshot_ref
policy_ref_of _ = none

abbrev pub grant_ref_of : Admission → Option String
grant_ref_of (object o) = o.grant_ref
grant_ref_of _ = none

unfoldable pub build_execution_context :
    TurnInput
    → Action
    → CapabilitySnapshot
    → TurnIdentity
    → Admission
    → IdempotencyEnvelope
    → ExecutionContext
build_execution_context i a s ti r e = record {
  run_id = i.run_id;
  action_id = a.action_id;
  causation_id = some ti.intent_commit_ref;
  correlation_id = some ti.decision_ref;
  lineage_id = some ti.decision_fingerprint;
  capability_snapshot_ref = some s.snapshot_ref;
  capability_snapshot_hash = some s.snapshot_hash;
  context_binding_ref = s.context_binding_ref;
  grant_ref = grant_ref_of r;
  policy_snapshot_ref = policy_ref_of r;
  rule_bundle_hash = e.rule_bundle_hash;
  declarative_bundle_digest = elim s.declarative_bundle_digest [
    | none ↦ none
    | some d ↦ some (bundle_fields d)
  ];
  timeout_ms = a.timeout_ms;
  budget_ref = s.budget_ref;
}
