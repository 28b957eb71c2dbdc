-- ===== src/Runtime/Histories.antt =====
-- Histories of the in-memory runtime of agent_kernel/kernel/minimal_runtime.py: commits that are appended to
-- the event log, and the reads of the projection service between them.
use agent_kernel.Prelude.{
  ◌≡◌, refl, sym, ◌∙◌, ap, subst, arith, ℕ, suc, ◌+◌, String, List, [], ◌∷◌, ◌++◌, length, Bool,
  true, false, ◌&&◌, ◌==◌, if◌then◌else◌, Bool-cases, inl, inr, ◌⊎◌, leb, length-append, List-cases,
  append-nil, eq_iff, eq_refl,
}
use agent_kernel.Prelude.Errors.{Outcome, ok, raised, Outcome-cases}
use agent_kernel.Prelude.Dict.{insert, lookup-insert}
use agent_kernel.Contracts.{RuntimeEvent, RunProjection, ActionCommit}
use agent_kernel.Runtime.EventLog.{
  EventLog, empty_log, events_of, next_of, stamp, behind, appended, evict_oldest,
  append_action_commit, max_retained_runs,
}
use agent_kernel.Runtime.Projection.{Config, Cache, cached, replay, through, kept}
use agent_kernel.Runtime.Projection
use agent_kernel.Runtime.Current.{Current, Current-replay, Current-append, stamp-next}

pub data Op : Type 0 where
  append : ActionCommit → Op
  catch_up : String → ℕ → Op
  get : String → Op
  readiness : String → ℕ → Op

abbrev pub World : Type 0
World = EventLog × Cache

abbrev pub empty_world : World
empty_world = (empty_log, [])

abbrev pub after : Config → Op → World → World
after g (append c) (l, s) = ((append_action_commit c l).1, s)
after g (catch_up r t) (l, s) = (l, (Projection.catch_up g r t l s).1)
after g (get r) (l, s) = (l, (Projection.get g r l s).1)
after g (readiness r n) (l, s) = (l, (Projection.readiness g r n l s).1)

abbrev pub run : Config → List Op → World → World
run g [] w = w
run g (op ∷ ops) w = run g ops (after g op w)

-- The events that an operation hands in for a run.
abbrev pub submitted : String → Op → List RuntimeEvent
submitted r (append c) = if c.run_id == r then c.events else []
submitted r _ = []

abbrev pub recorded : String → List Op → List RuntimeEvent
recorded r [] = []
recorded r (op ∷ ops) = submitted r op ++ recorded r ops

-- Whether the log keeps every run.
abbrev pub fits : Op → World → Bool
fits (append c) (l, s) = leb (length (appended c l).events_by_run) max_retained_runs
fits _ w = true

abbrev pub all_fit : Config → List Op → World → Bool
all_fit g [] w = true
all_fit g (op ∷ ops) w = fits op w && all_fit g ops (after g op w)

evict-fits :
    (l : EventLog) → leb (length l.events_by_run) max_retained_runs ≡ true → evict_oldest l ≡ l
unfolding evict_oldest
evict-fits l h = ground arith

events_of-appended :
    (r : String) (c : ActionCommit) (l : EventLog)
    → events_of r (appended c l)
      ≡ (if c.run_id == r then events_of r l ++ stamp (next_of r l) c.events else events_of r l)
events_of-appended r c l =
    let next = events_of c.run_id l ++ stamp (next_of c.run_id l) c.events in
    ground (arith, lookup-insert c.run_id r next l.events_by_run, eq_iff c.run_id r)

next_of-appended :
    (r : String) (c : ActionCommit) (l : EventLog)
    → next_of r (appended c l)
      ≡ (if c.run_id == r then next_of r l + length c.events else next_of r l)
next_of-appended r c l =
    let next = next_of c.run_id l + length c.events in
    ground (arith, lookup-insert c.run_id r next l.next_offset_by_run, eq_iff c.run_id r)

cached-insert :
    (r k : String) (p : RunProjection) (s : Cache)
    → cached r (insert k p s) ≡ (if k == r then p else cached r s)
cached-insert r k p s = ground (arith, lookup-insert k r p s)

log-after :
    (c : ActionCommit) (l : EventLog)
    → leb (length (appended c l).events_by_run) max_retained_runs ≡ true
    → ((c.events ≡ []) × ((append_action_commit c l).1 ≡ l))
      ⊎ ((append_action_commit c l).1 ≡ appended c l)
unfolding append_action_commit
log-after c l f = elim (List-cases c.events) [
  | inl e ↦ inl (e, rw e refl)
  | inr (x, xs, e) ↦ inr (ground (arith, e, evict-fits (appended c l) f))
]

-- What the log holds of a run whose events are `events`.
abbrev pub Logged : String → List RuntimeEvent → EventLog → Type 0
Logged r events l = (events_of r l ≡ stamp 1 events) × (next_of r l ≡ suc (length events))

-- What holds of a run whose events are `events`.
abbrev pub Synced : Config → String → List RuntimeEvent → World → Type 0
Synced g r events (l, s) =
    (events_of r l ≡ stamp 1 events)
    × (next_of r l ≡ suc (length events))
    × Current g r events (cached r s)

nothing-submitted : (r : String) (c : ActionCommit) → c.events ≡ [] → submitted r (append c) ≡ []
nothing-submitted r c h = ground (arith, h)

pub append-Logged :
    (r : String) (c : ActionCommit) (events : List RuntimeEvent) (l : EventLog)
    → leb (length (appended c l).events_by_run) max_retained_runs ≡ true
    → Logged r events l
    → Logged r (events ++ submitted r (append c)) (append_action_commit c l).1
append-Logged r c events l f (es, n) = elim (log-after c l f) [
  | inl (h, same) ↦
      let none_new = ap (λ more. events ++ more) (nothing-submitted r c h) ∙ append-nil events in
      let kept_log : Logged r events (append_action_commit c l).1 = rw same (es, n) in
      subst (λ d. Logged r d (append_action_commit c l).1) (sym none_new) kept_log
  | inr eq ↦ (
    ap (events_of r) eq
        ∙ events_of-appended r c l
        ∙ ground (arith, es, n, stamp-next events c.events, append-nil events),
    ap (next_of r) eq
        ∙ next_of-appended r c l
        ∙ ground (arith, n, length-append events c.events, append-nil events),
  )
]

module _ (g : Config)
    (kept_offset : (e f : RuntimeEvent) → g.migrate e ≡ ok f → f.commit_offset ≡ e.commit_offset)
    (r : String) where
  pub append-Synced :
      (c : ActionCommit) (events : List RuntimeEvent) (l : EventLog) (s : Cache)
      → fits (append c) (l, s) ≡ true
      → Synced g r events (l, s)
      → Synced g r (events ++ submitted r (append c)) (after g (append c) (l, s))
  append-Synced c events l s f (es, n, cur) =
      let (later, next) = append-Logged r c events l f (es, n) in
      (later, next, Current-append g kept_offset r events (submitted r (append c)) (cached r s) cur)

  kept-own :
      (events es fs : List RuntimeEvent) (l : EventLog) (s : Cache)
      → es ++ fs ≡ behind (cached r s).projected_offset (events_of r l)
      → Synced g r events (l, s)
      → Synced g r events (l, (kept g r (replay g (cached r s) es) s).1)
  kept-own events es fs l s split (e, n, cur) = elim (Outcome-cases (replay g (cached r s) es)) [
    | inl (x, h) ↦ rw h (e, n, cur)
    | inr (q, h) ↦ rw h (
      e,
      n,
      subst (Current g r events) (sym (cached-insert r r q s ∙ rw (eq_refl r) refl)) (
          Current-replay g kept_offset r events es fs (cached r s) q
            (split ∙ ap (behind (cached r s).projected_offset) e) h cur),
    )
  ]

  kept-other :
      (k : String) (events : List RuntimeEvent) (o : Outcome RunProjection) (l : EventLog)
      (s : Cache)
      → (k == r) ≡ false
      → Synced g r events (l, s)
      → Synced g r events (l, (kept g k o s).1)
  kept-other k events (raised x) l s b (e, n, cur) = (e, n, cur)
  kept-other k events (ok q) l s b (e, n, cur) =
      (e, n, subst (Current g r events) (sym (cached-insert r k q s ∙ rw b refl)) cur)

  abbrev Reads :
      List RuntimeEvent → List RuntimeEvent → List RuntimeEvent → EventLog → Cache → String → Type 0
  Reads events es fs l s k =
      es ++ fs ≡ behind (cached k s).projected_offset (events_of k l)
      → Synced g r events (l, s)
      → Synced g r events (l, (kept g k (replay g (cached k s) es) s).1)

  pub kept-Synced :
      (k : String) (events es fs : List RuntimeEvent) (l : EventLog) (s : Cache)
      → es ++ fs ≡ behind (cached k s).projected_offset (events_of k l)
      → Synced g r events (l, s)
      → Synced g r events (l, (kept g k (replay g (cached k s) es) s).1)
  kept-Synced k events es fs l s split h = elim (Bool-cases (k == r)) [
    | inl b ↦
        subst (Reads events es fs l s) (sym ((eq_iff k r).0 b)) (kept-own events es fs l s) split h
    | inr b ↦ kept-other k events (replay g (cached k s) es) l s b h
  ]
