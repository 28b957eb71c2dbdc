-- ===== src/Recovery/Modes.antt =====
-- agent_kernel/kernel/recovery/mode_registry.py: which recovery mode a planned action stands for.
use agent_kernel.Prelude.{◌≡◌, arith, String, List, [], ◌∷◌, some, is_some, if◌then◌else◌, eq_iff}
use agent_kernel.Prelude.Errors.{Exec, ok, raised, value_error}
use agent_kernel.Prelude.Dict.{Dict, lookup, insert, lookup-insert}
use agent_kernel.Contracts.{RecoveryMode}
use agent_kernel.Recovery.Planner.{RecoveryPlanAction}

abbrev pub RecoveryModeRegistry : Type 0
RecoveryModeRegistry = Dict RecoveryMode

unfoldable pub register : String → RecoveryMode → Exec RecoveryModeRegistry (Unit {0})
register plan_action mode entries =
    if is_some (lookup plan_action entries)
    then (raised value_error, entries)
    else (ok tt, insert plan_action mode entries)

-- `KERNEL_RECOVERY_MODE_REGISTRY` with its built-in mappings.
abbrev pub builtin_modes : RecoveryModeRegistry
builtin_modes =
    ("schedule_compensation", RecoveryMode.static_compensation)
    ∷ ("notify_human_operator", RecoveryMode.human_escalation)
    ∷ ("abort_run", RecoveryMode.abort)
    ∷ []

-- The planner's actions by their text.
abbrev pub action_text : RecoveryPlanAction → String
action_text RecoveryPlanAction.schedule_compensation = "schedule_compensation"
action_text RecoveryPlanAction.notify_human_operator = "notify_human_operator"
action_text RecoveryPlanAction.abort_run = "abort_run"

-- Registrations, one after another, those that raise too.
abbrev pub register_all : List (String × RecoveryMode) → RecoveryModeRegistry → RecoveryModeRegistry
register_all [] entries = entries
register_all ((plan_action, mode) ∷ r) entries =
    register_all r (register plan_action mode entries).1

-- No registration changes a mapping that is there.
pub register_all-keeps :
    (r : List (String × RecoveryMode)) (entries : RecoveryModeRegistry) (k : String)
    (m : RecoveryMode)
    → lookup k entries ≡ some m
    → lookup k (register_all r entries) ≡ some m
unfolding register
register_all-keeps [] entries k m h = h
register_all-keeps ((plan_action, mode) ∷ r) entries k m h =
    register_all-keeps r (register plan_action mode entries).1 k m
      (ground (arith, h, lookup-insert plan_action k mode entries, eq_iff plan_action k))
