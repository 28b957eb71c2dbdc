-- ===== src/Runtime/Projection.antt =====
-- InMemoryDecisionProjectionService of agent_kernel/kernel/minimal_runtime.py: a projection for each run,
-- cached, and caught up from the log. `migrate` is the configured schema migration of an event, which
-- leaves it alone where none is configured; the per-run lock makes each method one step.
use agent_kernel.Prelude.{
  ℕ, none, some, Bool, true, false, ◌&&◌, not, String, List, [], ◌∷◌, if◌then◌else◌, leb,
}
use agent_kernel.Prelude.Errors.{Outcome, Exec, ok, raised}
use agent_kernel.Prelude.Dict.{Dict, lookup, insert}
use agent_kernel.Contracts.{RunProjection, RuntimeEvent, EventAuthority}
use agent_kernel.Runtime.EventLog.{EventLog, load}
use agent_kernel.Runtime.Transition.{default_projection, apply_projection_event}

-- The configuration of the service.
pub record Config : Type 0 where
  pub lower : String → String
  pub migrate : RuntimeEvent → Outcome RuntimeEvent
  pub reject_derived_diagnostic_authority_input : Bool

abbrev is_diagnostic : EventAuthority → Bool
is_diagnostic EventAuthority.derived_diagnostic = true
is_diagnostic _ = false

abbrev pub Cache : Type 0
Cache = Dict RunProjection

abbrev pub cached : String → Cache → RunProjection
cached run_id s = elim (lookup run_id s) [ none ↦ default_projection run_id | some p ↦ p ]

-- The events before the one that the loop of `catch_up` breaks at.
unfoldable pub through : ℕ → List RuntimeEvent → List RuntimeEvent
through offset [] = []
through offset (e ∷ events) =
    let rest = through offset events in if leb e.commit_offset offset then e ∷ rest else []

module _ (g : Config) where
  unfoldable pub validate_projection_authority_input : RuntimeEvent → Bool
  validate_projection_authority_input e =
      not (g.reject_derived_diagnostic_authority_input && is_diagnostic e.event_authority)

  -- One migrated event.
  abbrev pub step : RunProjection → RuntimeEvent → RunProjection
  step p e = if validate_projection_authority_input e then apply_projection_event g.lower p e else p

  -- The loop over unseen events.
  unfoldable pub replay : RunProjection → List RuntimeEvent → Outcome RunProjection
  replay p [] = ok p
  replay p (e ∷ events) = elim (g.migrate e) [
    | raised x ↦ raised x
    | ok e' ↦ replay (step p e') events
  ]

  -- The projection is cached unless the replay raised.
  abbrev pub kept : String → Outcome RunProjection → Cache → Outcome RunProjection × Cache
  kept run_id (ok p) s = (ok p, insert run_id p s)
  kept run_id (raised x) s = (raised x, s)

  unfoldable pub catch_up : String → ℕ → EventLog → Exec Cache RunProjection
  unfolding through
  catch_up run_id through_offset l s =
      let p = cached run_id s in
      kept run_id (replay p (through through_offset (load run_id p.projected_offset l))) s

  unfoldable pub get : String → EventLog → Exec Cache RunProjection
  get run_id l s =
      let p = cached run_id s in kept run_id (replay p (load run_id p.projected_offset l)) s

  unfoldable pub readiness : String → ℕ → EventLog → Exec Cache Bool
  unfolding get
  readiness run_id required_offset l s =
      let (o, s') = get run_id l s in
      (elim o [ ok p ↦ ok (leb required_offset p.projected_offset) | raised x ↦ raised x ], s')
