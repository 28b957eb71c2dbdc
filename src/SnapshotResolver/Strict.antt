-- ===== src/SnapshotResolver/Strict.antt =====
-- What the resolver of agent_kernel/kernel/capability_snapshot_resolver.py hands to the snapshot builder, and what its strict mode adds.
use agent_kernel.Prelude.{
  ◌≡◌, refl, sym, subst, ap, arith, Option, none, some, Bool, true, false, ◌&&◌, ◌||◌, not, String,
  [], ◌∷◌, if◌then◌else◌, is_some,
}
use agent_kernel.Prelude.Errors.{
  Outcome, Exn, ok, raised, ok-injective, capability_snapshot_build_error,
}
use agent_kernel.Prelude.Text.{is_empty, is_given, is_negative, Codec}
use agent_kernel.Prelude.Json.{Value, Fields, get_item, as_dict}
use agent_kernel.Contracts.{Action}
use agent_kernel.Snapshot.{
  CapabilitySnapshotInput, DeclarativeBundleDigest, build, is_valid_input, snapshot_of,
}
use agent_kernel.Turn.State.{TurnInput}
use agent_kernel.SnapshotResolver.{
  ActionPayloadCapabilitySnapshotInputResolver, first_non_empty_string, raw_payload, as_fields,
  input_of, required_digest, resolve, resolve_declarative_bundle_digest, is_malformed, digest_of,
  first_non_empty_optional_string,
}

-- The last candidate decides whether a text is found.
first-default :
    (v w : Value) (s : String)
    → is_empty s ≡ false
    → is_empty (first_non_empty_string (v ∷ w ∷ Value.str s ∷ [])) ≡ false
unfolding first_non_empty_string
first-default v w s h = ground (arith, h)

-- A test that raises, or goes on.
passed :
    {A : Type 0} (b : Bool) (o : Outcome A) (a : A)
    → (if b then raised capability_snapshot_build_error else o) ≡ ok a
    → o ≡ ok a
passed true o a h = absurd (ground (arith, h))
passed false o a h = h

-- The one exception of the resolver.
abbrev Refuses : {A : Type 0} → Outcome A → Type 0
Refuses o = (x : Exn) → o ≡ raised x → x ≡ capability_snapshot_build_error

refused : {A : Type 0} → Refuses {A = A} (raised capability_snapshot_build_error)
refused x h = ground (arith, h)

digest_of-Refuses : (b s c h : Option String) → Refuses (digest_of b s c h)
digest_of-Refuses b s c h x e = ground (arith, e)

either-Refuses :
    {A : Type 0} (b : Bool) (o : Outcome A)
    → Refuses o
    → Refuses (if b then raised capability_snapshot_build_error else o)
either-Refuses true o h = refused
either-Refuses false o h = h

digest-Refuses : (m : Fields) → Refuses (resolve_declarative_bundle_digest m)
unfolding resolve_declarative_bundle_digest
digest-Refuses m =
    let raw = get_item "declarative_bundle_digest" m in
    let first = λ (key : String) (flat : String).
      first_non_empty_optional_string (get_item key (as_fields raw) ∷ get_item flat m ∷ []) in
    let b = first "bundle_ref" "declarative_bundle_ref" in
    let s = first "semantics_version" "declarative_bundle_semantics_version" in
    let c = first "content_hash" "declarative_bundle_content_hash" in
    let h = first "compile_hash" "declarative_bundle_compile_hash" in
    either-Refuses (is_malformed raw) (digest_of b s c h) (digest_of-Refuses b s c h)

-- A resolver with the two flags of strict mode set as given.
abbrev pub with_strict :
    Bool
    → ActionPayloadCapabilitySnapshotInputResolver
    → ActionPayloadCapabilitySnapshotInputResolver
with_strict b r = record r {
  require_declared_snapshot_input = b;
  require_declarative_bundle_digest = b;
}

module _ (r : ActionPayloadCapabilitySnapshotInputResolver) (i : TurnInput) where
  required_digest-input :
      (m : Fields) (o : Outcome (Option DeclarativeBundleDigest)) (s : CapabilitySnapshotInput)
      → required_digest r i m o ≡ ok s
      → (digest : Option DeclarativeBundleDigest) × (s ≡ input_of r i m digest)
  required_digest-input m (raised x) s h = absurd (ground (arith, h))
  required_digest-input m (ok digest) s h = (
    digest,
    sym (
        ok-injective (input_of r i m digest) s (
          passed (r.require_declarative_bundle_digest && not (is_some digest))
            (ok (input_of r i m digest)) s h)),
  )

  resolve-input :
      (a : Action) (s : CapabilitySnapshotInput)
      → resolve r i a ≡ ok s
      → (digest : Option DeclarativeBundleDigest) × (s
          ≡ input_of r i (as_fields (raw_payload a)) digest)
  unfolding resolve
  resolve-input a s h =
      let raw = raw_payload a in
      let o = resolve_declarative_bundle_digest (as_fields raw) in
      required_digest-input (as_fields raw) o s (
        passed (r.require_declared_snapshot_input && not (is_some (as_dict raw)))
          (required_digest r i (as_fields raw) o) s h)

  -- Where the resolver's two defaults are not empty: the snapshot builder accepts every input that the resolver
  -- gives, unless the run has no id, the offset is negative, or a context binding comes without its hash; and
  -- no such input names a peer run.
  pub resolve-build :
      (c : Codec) (now : String) (a : Action) (s : CapabilitySnapshotInput)
      → is_empty r.default_tenant_policy_ref ≡ false
      → is_empty r.default_permission_mode ≡ false
      → resolve r i a ≡ ok s
      → (build c now s ≡ (
          if is_empty i.run_id
            || is_negative i.based_on_offset
            || is_given s.context_binding_ref && not (is_given s.context_content_hash)
          then raised capability_snapshot_build_error
          else ok (snapshot_of c now s)))
        × (s.peer_run_bindings ≡ [])
  unfolding build is_valid_input
  resolve-build c now a s policy mode h =
      let (digest, e) = resolve-input a s h in
      let m = as_fields (raw_payload a) in
      let accepted = λ (t : CapabilitySnapshotInput).
        (build c now t ≡ (
          if is_empty i.run_id
            || is_negative i.based_on_offset
            || is_given t.context_binding_ref && not (is_given t.context_content_hash)
          then raised capability_snapshot_build_error
          else ok (snapshot_of c now t)))
        × (t.peer_run_bindings ≡ []) in
      let found = λ (key : String) (default : String).
        first-default (get_item key (as_fields (get_item "policy" m))) (get_item key m) default in
      subst accepted (sym e) (
        ground (
          arith,
          found "tenant_policy_ref" r.default_tenant_policy_ref policy,
          found "permission_mode" r.default_permission_mode mode,
        ),
        refl,
      )

  strict-cases :
      (b : Bool) (m : Fields) (o : Outcome (Option DeclarativeBundleDigest))
      → Refuses o
      → (if not b
          then raised capability_snapshot_build_error
          else required_digest (with_strict true r) i m o)
        ≡ elim (required_digest (with_strict false r) i m o) [
          | raised x ↦ raised capability_snapshot_build_error
          | ok s ↦
              if b && is_some s.declarative_bundle_digest
              then ok s
              else raised capability_snapshot_build_error
        ]
  strict-cases true m (raised x) h = ap raised (h x refl)
  strict-cases false m (raised x) h = refl
  strict-cases true m (ok none) h = refl
  strict-cases true m (ok (some d)) h = refl
  strict-cases false m (ok d) h = refl

  -- Strict mode only refuses: it gives what the lenient resolver gives, where the payload has a snapshot input and
  -- a complete digest, and raises everywhere else.
  pub resolve-strict :
      (a : Action)
      → resolve (with_strict true r) i a ≡ elim (resolve (with_strict false r) i a) [
        | raised x ↦ raised capability_snapshot_build_error
        | ok s ↦
            if is_some (as_dict (raw_payload a)) && is_some s.declarative_bundle_digest
            then ok s
            else raised capability_snapshot_build_error
      ]
  unfolding resolve
  resolve-strict a =
      let m = as_fields (raw_payload a) in
      strict-cases (is_some (as_dict (raw_payload a))) m (resolve_declarative_bundle_digest m)
        (digest-Refuses m)
