-- ===== src/Examples/Quotas.antt =====
-- The snapshot-driven admission under a policy of one action a minute.
use agent_kernel.Prelude.{
  ◌≡◌, refl, ◌&&◌, ltb, arith, ℕ, ◌≤◌, String, List, [], ◌∷◌, false, none, some,
}
use agent_kernel.Prelude.Errors.{Outcome, ok}
use agent_kernel.Prelude.Text.{pos}
use agent_kernel.Prelude.Dict.{lookup, insert}
use agent_kernel.Snapshot.{CapabilitySnapshot}
use agent_kernel.SnapshotAdmission.{
  TenantPolicy, Subject, subject_of, admit, resolve_policy, policy_ref_of, evict_old,
  check_permission_mode, check_binding_existence, check_idempotency, check_risk_tier,
  check_rate_limit,
}
use agent_kernel.SnapshotAdmission.Rate.{
  Call, since, admitted_from, within_minute, is_admitted, admitted-within_minute,
}
use agent_kernel.SnapshotAdmission.Permits.{admit-bindings}
use agent_kernel.SnapshotAdmission.Quota.{windows_after, mode_permits, admit-exact}
use agent_kernel.Examples.Values.{write_action}

abbrev one_a_minute : TenantPolicy
one_a_minute = record {
  policy_id = "slow";
  max_allowed_risk_tier = 1;
  allow_non_idempotent_remote_writes = false;
  max_actions_per_minute = 1;
}

abbrev the_file : String → Outcome TenantPolicy
the_file ref = ok one_a_minute

abbrev snapshot_with : List String → CapabilitySnapshot
snapshot_with tools = record {
  snapshot_ref = "snapshot:1";
  snapshot_hash = "h";
  input = record {
    run_id = "run-1";
    based_on_offset = pos 0;
    tenant_policy_ref = "file:///etc/slow.json";
    permission_mode = "normal";
    tool_bindings = tools;
    mcp_bindings = [];
    skill_bindings = [];
    feature_flags = [];
    context_binding_ref = none;
    context_content_hash = none;
    budget_ref = none;
    quota_ref = none;
    session_mode = none;
    approval_state = none;
    declarative_bundle_digest = none;
    peer_run_bindings = [];
  };
  created_at = "2024-01-01T00:00:00Z";
  snapshot_schema_version = "1";
}

abbrev tool_call : Subject
tool_call = record {
  run_id = "run-1";
  action_type = some "tool_call";
  effect_class = some "idempotent_write";
  tool_name = some "search";
  mcp_server = none;
  mcp_capability = none;
  peer_run_id = none;
  idempotency_level = none;
  risk_tier = 1;
}

abbrev call_at : ℕ → Call
call_at now = record { now = now; subject = tool_call; snapshot = snapshot_with ("search" ∷ []) }

abbrev three_calls : List Call
three_calls = call_at 100000 ∷ call_at 110000 ∷ call_at 170000 ∷ []

second_is_refused : admitted_from the_file "run-1" three_calls [] [] ≡ 170000 ∷ 100000 ∷ []
unfolding admit resolve_policy check_permission_mode check_binding_existence check_idempotency
    check_risk_tier check_rate_limit evict_old lookup insert
second_is_refused = refl

-- No policy of these allows more than the default.
file_limits :
    (ref : String) (p : TenantPolicy)
    → resolve_policy the_file ref ≡ ok p
    → p.max_actions_per_minute ≤ 120
unfolding resolve_policy
file_limits ref p h = ground arith

admitted-within_minute_example :
    within_minute 100000 (admitted_from the_file "run-1" three_calls [] []) ≤ 120
admitted-within_minute_example =
    admitted-within_minute the_file 120 file_limits "run-1" three_calls 100000 (omega arith)

abbrev write_at : ℕ → Call
write_at now = record {
  now = now;
  subject = subject_of write_action;
  snapshot = snapshot_with ("search" ∷ []);
}

the_policy :
    resolve_policy the_file (policy_ref_of (snapshot_with ("search" ∷ []))) ≡ ok one_a_minute
unfolding resolve_policy
the_policy = refl

admit-exact_example :
    let calls = write_at 100000 ∷ write_at 110000 ∷ [] in
    let s = snapshot_with ("search" ∷ []) in
    is_admitted
      (admit the_file 150000 (subject_of write_action) s (windows_after the_file calls [])).0
    ≡ (mode_permits the_file "normal" write_action.action_type
        && ltb (since 90000 (admitted_from the_file write_action.run_id calls [] [])) 1)
admit-exact_example =
    admit-exact the_file (write_at 100000 ∷ write_at 110000 ∷ []) 150000 write_action
      (snapshot_with ("search" ∷ [])) one_a_minute (omega arith) the_policy

admit-bindings_example :
    admit the_file 0 (subject_of write_action) (snapshot_with ("search" ∷ [])) []
    ≡ admit the_file 0 (subject_of write_action) (snapshot_with []) []
admit-bindings_example =
    admit-bindings the_file 0 write_action (snapshot_with ("search" ∷ [])) (snapshot_with []) []
      refl refl
