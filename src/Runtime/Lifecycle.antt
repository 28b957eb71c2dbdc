-- ===== src/Runtime/Lifecycle.antt =====
-- The lifecycle that replayed events can give a run's projection: _resolve_projection_transition of
-- agent_kernel/kernel/minimal_runtime.py, over any events.
use agent_kernel.Prelude.{
  ◌≡◌, refl, sym, ◌∙◌, ◌⊎◌, none, ap, subst, arith, String, List, [], ◌∷◌, Bool, true, false, ◌==◌,
  some, Bool-cases, Option-cases, inl, inr,
}
use agent_kernel.Prelude.Dict.{lookup, lookup-All}
use agent_kernel.Prelude.Errors.{ok, Outcome-cases, ok-injective}
use agent_kernel.Contracts.{RuntimeEvent, RunProjection, RunLifecycleState}
use agent_kernel.Runtime.Transition.{
  Target, static_event_transitions, resolve_dynamic_transition, is_blocked,
  resolve_projection_transition, apply_projection_event, resolve_active_child_runs,
}
use agent_kernel.Runtime.Projection.{Config, step, replay, validate_projection_authority_input}

abbrev dispatchable : RunLifecycleState → Bool
dispatchable RunLifecycleState.ready = true
dispatchable RunLifecycleState.dispatching = true
dispatchable _ = false

abbrev waits : RunLifecycleState → Bool
waits RunLifecycleState.waiting_external = true
waits _ = false

-- The two flags say what the lifecycle state says.
abbrev pub IsCoherent : RunProjection → Type 0
IsCoherent p =
    (p.ready_for_dispatch ≡ dispatchable p.lifecycle_state)
    × (p.waiting_external ≡ waits p.lifecycle_state)

abbrev IsCoherentTarget : Target → Type 0
IsCoherentTarget t =
    (t.ready_for_dispatch ≡ dispatchable t.lifecycle_state)
    × (t.waiting_external ≡ waits t.lifecycle_state)

static-IsCoherent :
    (name : String) (t : Target)
    → lookup name static_event_transitions ≡ some t
    → IsCoherentTarget t
static-IsCoherent name t = lookup-All IsCoherentTarget name t static_event_transitions (
  (refl, refl),
  (
    (refl, refl),
    (
      (refl, refl),
      (
        (refl, refl),
        (
          (refl, refl),
          (
            (refl, refl),
            ((refl, refl), ((refl, refl), ((refl, refl), ((refl, refl), ((refl, refl), tt))))),
          ),
        ),
      ),
    ),
  ),
)

dynamic-IsCoherent :
    (name : String) (t : Target) → resolve_dynamic_transition name ≡ some t → IsCoherentTarget t
unfolding resolve_dynamic_transition
dynamic-IsCoherent name t h = ground arith

transition-IsCoherent :
    (lower : String → String) (p : RunProjection) (e : RuntimeEvent)
    → IsCoherent p
    → IsCoherent (resolve_projection_transition lower p e)
unfolding resolve_projection_transition
transition-IsCoherent lower p e h = elim (Bool-cases (is_blocked lower p e)) [
  | inl b ↦ rw (b, resolve_projection_transition) h
  | inr b ↦ elim (Bool-cases (e.event_type == "run.cancel_requested")) [
    | inl c ↦ rw (b, c, resolve_projection_transition) (refl, refl)
    | inr c ↦ elim (Bool-cases (e.event_type == "reconcile.failed")) [
      | inl d ↦ rw (b, c, d, resolve_projection_transition) (refl, refl)
      | inr d ↦ elim (Option-cases (lookup e.event_type static_event_transitions)) [
        | inr (t, s) ↦
            rw (b, c, d, s, resolve_projection_transition) (static-IsCoherent e.event_type t s)
        | inl s ↦ elim (Option-cases (resolve_dynamic_transition e.event_type)) [
          | inr (t, u) ↦
              rw (b, c, d, s, u, resolve_projection_transition)
                (dynamic-IsCoherent e.event_type t u)
          | inl u ↦ rw (b, c, d, s, u, resolve_projection_transition) h
        ]
      ]
    ]
  ]
]

step-IsCoherent :
    (g : Config) (p : RunProjection) (e : RuntimeEvent) → IsCoherent p → IsCoherent (step g p e)
unfolding apply_projection_event
step-IsCoherent g p e h = elim (Bool-cases (validate_projection_authority_input g e)) [
  | inl b ↦ rw b (transition-IsCoherent g.lower p e h)
  | inr b ↦ rw b h
]

-- A loop over events keeps what every event keeps.
replay-keeps {κ} :
    (g : Config) (P : RunProjection → Type κ) (p q : RunProjection) (events : List RuntimeEvent)
    → ((z : RunProjection) (e : RuntimeEvent) → P z → P (step g z e))
    → P p
    → replay g p events ≡ ok q
    → P q
unfolding replay
replay-keeps g P p q [] keep h r = subst P (ok-injective p q r) h
replay-keeps g P p q (e ∷ events) keep h r = elim (Outcome-cases (g.migrate e)) [
  | inl (x, m) ↦ ground (arith, m, r)
  | inr (f, m) ↦ replay-keeps g P (step g p f) q events keep (keep p f h) (ground (arith, m, r))
]

-- What is left of a projection when events have moved its offset: the constructor call names neither the policy
-- versions nor the task contract.
abbrev emptied : RunProjection → RunProjection → RunProjection
emptied p q = record p {
  projected_offset = q.projected_offset;
  policy_versions = none;
  task_contract_ref = none;
}

completed-step :
    (g : Config) (p : RunProjection) (e : RuntimeEvent)
    → p.lifecycle_state ≡ RunLifecycleState.completed
    → (step g p e ≡ p) ⊎ (step g p e ≡ emptied p (step g p e))
unfolding apply_projection_event resolve_projection_transition resolve_active_child_runs
completed-step g p e h = elim (Bool-cases (validate_projection_authority_input g e)) [
  | inl b ↦ inr (rw (b, h) refl)
  | inr b ↦ inl (rw b refl)
]

emptied-step :
    (g : Config) (p z : RunProjection) (e : RuntimeEvent)
    → p.lifecycle_state ≡ RunLifecycleState.completed
    → (z ≡ p) ⊎ (z ≡ emptied p z)
    → (step g z e ≡ p) ⊎ (step g z e ≡ emptied p (step g z e))
emptied-step g p z e h (inl same) =
    subst (λ y. (step g y e ≡ p) ⊎ (step g y e ≡ emptied p (step g y e))) (sym same)
      (completed-step g p e h)
emptied-step g p z e h (inr same) =
    elim (completed-step g z e (ap (λ (y : RunProjection). y.lifecycle_state) same ∙ h)) [
      | inl stays ↦ inr (stays ∙ same ∙ ap (λ (y : RunProjection). emptied p y) (sym stays))
      | inr moves ↦ inr (moves ∙ ap (λ (y : RunProjection). emptied y (step g z e)) same)
    ]

aborted-step :
    (g : Config) (p : RunProjection) (e : RuntimeEvent)
    → p.lifecycle_state ≡ RunLifecycleState.aborted
    → ((step g p e).lifecycle_state ≡ RunLifecycleState.aborted)
      × ((step g p e).active_child_runs ≡ p.active_child_runs)
unfolding apply_projection_event resolve_projection_transition resolve_active_child_runs
aborted-step g p e h = ground (arith, h)

-- Whatever events are replayed, `ready_for_dispatch` is set exactly in the states ready and dispatching and
-- `waiting_external` exactly in the state of that name, if this held of the projection they started from.
pub replay-IsCoherent :
    (g : Config) (p q : RunProjection) (events : List RuntimeEvent)
    → IsCoherent p
    → replay g p events ≡ ok q
    → IsCoherent q
replay-IsCoherent g p q events h = replay-keeps g IsCoherent p q events (step-IsCoherent g) h

-- Whatever events are replayed on the projection of a completed run, it stays as it is, or only its offset
-- changes and its policy versions and its task contract are lost.
pub replay-completed :
    (g : Config) (p q : RunProjection) (events : List RuntimeEvent)
    → p.lifecycle_state ≡ RunLifecycleState.completed
    → replay g p events ≡ ok q
    → (q ≡ p)
      ⊎ (q ≡ record p {
        projected_offset = q.projected_offset;
        policy_versions = none;
        task_contract_ref = none;
      })
replay-completed g p q events h =
    replay-keeps g (λ z. (z ≡ p) ⊎ (z ≡ emptied p z)) p q events
      (λ z e same. emptied-step g p z e h same) (inl refl)

-- Whatever events are replayed on the projection of an aborted run, it stays aborted and the list of its
-- child runs stays as it is.
pub replay-aborted :
    (g : Config) (p q : RunProjection) (events : List RuntimeEvent)
    → p.lifecycle_state ≡ RunLifecycleState.aborted
    → replay g p events ≡ ok q
    → (q.lifecycle_state ≡ RunLifecycleState.aborted) × (q.active_child_runs ≡ p.active_child_runs)
replay-aborted g p q events h =
    replay-keeps g
      (λ z.
        (z.lifecycle_state ≡ RunLifecycleState.aborted)
        × (z.active_child_runs ≡ p.active_child_runs))
      p q events
      (λ z e (over, runs). let (late, later) = aborted-step g z e over in (late, later ∙ runs))
      (h, refl)
