-- ===== src/SnapshotAdmission/Permits.antt =====
-- What the rules of the snapshot-driven admission read of an Action
-- (agent_kernel/kernel/admission/snapshot_driven_admission.py).
use agent_kernel.Prelude.{◌≡◌, refl, arith, ℕ, String, none, inl, inr, List-cases}
use agent_kernel.Prelude.Errors.{Outcome}
use agent_kernel.Contracts.{Action}
use agent_kernel.Snapshot.{CapabilitySnapshot}
use agent_kernel.SnapshotAdmission.{
  TenantPolicy, subject_of, RateWindows, admit, check_permission_mode, check_binding_existence,
}

pub unread_bindings :
    (a : Action) (s : CapabilitySnapshot) → check_binding_existence (subject_of a) s ≡ none
unfolding check_binding_existence
unread_bindings a s = elim (List-cases s.peer_run_bindings) [
  | inl e ↦ ground (arith, e)
  | inr (x, xs, e) ↦ ground (arith, e)
]

same_mode :
    (a : Action) (s t : CapabilitySnapshot)
    → s.permission_mode ≡ t.permission_mode
    → check_permission_mode (subject_of a) s ≡ check_permission_mode (subject_of a) t
unfolding check_permission_mode
same_mode a s t h = rw h refl

module _ (resolve_file : String → Outcome TenantPolicy) where
  -- For an Action the bindings of the snapshot make no difference: two snapshots with one permission mode
  -- and one policy reference admit it alike, at any time and with any windows.
  pub admit-bindings :
      (now : ℕ) (a : Action) (s t : CapabilitySnapshot) (ws : RateWindows)
      → s.permission_mode ≡ t.permission_mode
      → s.tenant_policy_ref ≡ t.tenant_policy_ref
      → admit resolve_file now (subject_of a) s ws ≡ admit resolve_file now (subject_of a) t ws
  unfolding admit
  admit-bindings now a s t ws h k =
      ground (arith, h, k, same_mode a s t h, unread_bindings a s, unread_bindings a t)
