-- ===== src/Policy/Evidence.antt =====
-- agent_kernel/kernel/failure_evidence.py: which of a failure's references counts as its evidence.
use agent_kernel.Prelude.{
  ◌≡◌, refl, Option, none, some, String, [], ◌∷◌, arith, ◌==◌, if◌then◌else◌,
}
use agent_kernel.Prelude.Text.{strip}
use agent_kernel.Contracts.{
  FailureEnvelope, FailureEvidenceSource, external_ack_ref, local_inference, none_source,
}
use agent_kernel.Policy.Host.{first_some}

pub record FailureEvidenceResolution : Type 0 where
  pub source : FailureEvidenceSource
  pub evidence_ref : Option String

unfoldable pub normalize_optional_ref : Option String → Option String
normalize_optional_ref none = none
normalize_optional_ref (some value) =
    let normalized_value = strip value in
    if normalized_value == "" then none else some normalized_value

unfoldable pub resolve_failure_evidence : FailureEnvelope → FailureEvidenceResolution
resolve_failure_evidence e = elim (normalize_optional_ref e.external_ack_ref) [
  | some r ↦ record { source = external_ack_ref; evidence_ref = some r }
  | none ↦ elim (normalize_optional_ref e.evidence_ref) [
    | some r ↦ record { source = FailureEvidenceSource.evidence_ref; evidence_ref = some r }
    | none ↦ elim (normalize_optional_ref e.local_inference) [
      | some r ↦ record { source = local_inference; evidence_ref = some r }
      | none ↦ record { source = none_source; evidence_ref = none }
    ]
  ]
]

unfoldable pub apply_failure_evidence_priority : FailureEnvelope → FailureEnvelope
apply_failure_evidence_priority e =
    let resolution = resolve_failure_evidence e in
    record e {
      evidence_priority_source = resolution.source;
      evidence_priority_ref = resolution.evidence_ref;
    }

-- The reference that a source names.
abbrev pub cited : FailureEvidenceSource → FailureEnvelope → Option String
cited external_ack_ref e = e.external_ack_ref
cited FailureEvidenceSource.evidence_ref e = e.evidence_ref
cited local_inference e = e.local_inference
cited none_source e = none

-- The evidence is the first of acknowledgement, artifact and local hint that is not blank, without
-- the spaces around it; the source names the field that it comes from.
pub apply_failure_evidence_priority_first :
    (e : FailureEnvelope)
    → let e' = apply_failure_evidence_priority e in
      (e'.evidence_priority_ref
        ≡ first_some normalize_optional_ref
            (e.external_ack_ref ∷ e.evidence_ref ∷ e.local_inference ∷ []))
      × (normalize_optional_ref (cited e'.evidence_priority_source e) ≡ e'.evidence_priority_ref)
unfolding apply_failure_evidence_priority resolve_failure_evidence
apply_failure_evidence_priority_first e = ground (arith, normalize_none)
  where
    normalize_none : normalize_optional_ref none ≡ none
    normalize_none = unfold normalize_optional_ref in refl

-- Applying the priority a second time changes nothing.
pub apply_failure_evidence_priority_idem :
    (e : FailureEnvelope)
    → apply_failure_evidence_priority (apply_failure_evidence_priority e)
      ≡ apply_failure_evidence_priority e
unfolding apply_failure_evidence_priority resolve_failure_evidence
apply_failure_evidence_priority_idem e = ground arith
