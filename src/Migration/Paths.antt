-- ===== src/Migration/Paths.antt =====
-- Which migrations succeed (agent_kernel/kernel/persistence/event_schema_migration.py): exactly those for which
-- there is a chain of registered migrations.
use agent_kernel.Prelude.{
  ◌≡◌, refl, sym, ◌∙◌, arith, subst, ℕ, zero, suc, ◌+◌, ◌≤◌, ◌<◌, String, List, [], ◌∷◌, ◌++◌, true,
  false, ◌==◌, ◌⊎◌, is_some, eq_iff, eq_refl, Bool-cases, Option-cases, List-cases, inl, inr,
  length,
}
use agent_kernel.Prelude.Errors.{ok, raised, schema_migration_error}
use agent_kernel.Prelude.Dict.{lookup}
use mathlib.Core.List.{reverse, reverse-cons}
use agent_kernel.Contracts.{RuntimeEvent, among}
use agent_kernel.Migration.{
  Migrations, find_migration, Frontier, visit_all, search, start, searched, resolve_path,
  apply_path, attach_original_schema_version, migrate,
}
use agent_kernel.Migration.Walk.{
  IsStep, Chain, here, then_step, Rooted, root, back, Rooted-Chain, Trail, stop, go,
  walk_back-Trail,
}
use agent_kernel.Migration.Search.{
  IsVisited, waiting_for, IsSearching, all-AreSteps, round-IsSearching, round-waiting_for,
  round_still-IsVisited, round-among, round-IsVisited, round_visits, round_waiting,
  unvisited-le-length,
}

module _ (ms : Migrations) (s : String) where
  -- No migration leads from a visited version to one that is not, but from those that wait.
  record IsOpen (f : Frontier) : Type 0 where
    waits : (v : String) → among v f.queue ≡ true → IsVisited f v
    closed :
        (v d : String) → IsVisited f v → IsStep ms v d → IsVisited f d ⊎ (among v f.queue ≡ true)
    searching : IsSearching ms s f

  Rooted-popped :
      (f : Frontier) (q : List String) (n : ℕ) (v : String)
      → Rooted ms s f n v
      → Rooted ms s (record f { queue = q }) n v
  Rooted-popped f q zero _ root = root
  Rooted-popped f q (suc n) v (back _ before _ p e h r) =
      back n before v p e h (Rooted-popped f q n before r)

  popped-IsSearching :
      (f : Frontier) (q : List String)
      → IsSearching ms s f
      → IsSearching ms s (record f { queue = q })
  popped-IsSearching f q i = record {
    begun = i.begun;
    rooted = λ v h. let (n, small, r) = i.rooted v h in (n, small, Rooted-popped f q n v r);
  }

  -- One round, at the version in front.
  round-IsOpen :
      (f : Frontier) (c : String) (q : List String)
      → f.queue ≡ c ∷ q
      → IsOpen f
      → IsOpen (visit_all c ms (record f { queue = q }))
  round-IsOpen f c q e i =
      let f' = record f { queue = q } in
      let front = i.waits c (ground (arith, e, eq_refl c)) in
      record {
        waits = round_waiting c ms f' (λ u h. i.waits u (ground (arith, e, h)));
        closed = λ v d seen step. elim (round-IsVisited c ms f' v seen) [
          | inr waits ↦ inr waits
          | inl old ↦ elim (i.closed v d old step) [
            | inl there ↦ inl (round_still-IsVisited c ms f' d there)
            | inr waited ↦ elim (Bool-cases (c == v)) [
              | inl b ↦ inl (
                  round_visits c ms f' d (subst (λ u. IsStep ms u d) (sym ((eq_iff c v).0 b)) step))
              | inr b ↦ inr (round-among c ms f' v (ground (arith, e, waited, b)))
            ]
          ]
        ];
        searching =
            round-IsSearching ms s c ms f' (all-AreSteps ms) front
              (popped-IsSearching f q i.searching);
      }

  -- What the search leaves: it found the target, or visited all that there is to visit.
  record IsSearched (target : String) (f : Frontier) : Type 0 where
    searching : IsSearching ms s f
    ended : IsVisited f target ⊎ ((v d : String) → IsVisited f v → IsStep ms v d → IsVisited f d)

  search-IsSearched :
      (target : String) (fuel : ℕ) (f : Frontier)
      → waiting_for ms f ≤ fuel
      → IsOpen f
      → IsSearched target (search ms target fuel f)
  unfolding search
  search-IsSearched target zero f h i = record {
    searching = i.searching;
    ended = inr (λ v d seen step. ground (arith, h, i.closed v d seen step, List-cases f.queue));
  }
  search-IsSearched target (suc fuel) f h i = elim (List-cases f.queue) [
    | inl e ↦
        let same : search ms target (suc fuel) f ≡ f = ground (arith, e) in
        subst (IsSearched target) (sym same) (record {
          searching = i.searching;
          ended = inr (λ v d seen step. ground (arith, e, i.closed v d seen step));
        })
    | inr (c, q, e) ↦
        let f' = record f { queue = q } in
        elim (Bool-cases (c == target)) [
          | inl b ↦
              let same : search ms target (suc fuel) f ≡ f' = ground (arith, e, b) in
              let there =
                subst (IsVisited f') ((eq_iff c target).0 b)
                  (i.waits c (ground (arith, e, eq_refl c))) in
              subst (IsSearched target) (sym same)
                (record { searching = popped-IsSearching f q i.searching; ended = inl there })
          | inr b ↦
              let same : search ms target (suc fuel) f ≡ search ms target fuel (visit_all c ms f') =
                ground (arith, e, b) in
              let fewer = round-waiting_for ms s c ms f' (all-AreSteps ms) in
              subst (IsSearched target) (sym same) (
                search-IsSearched target fuel (visit_all c ms f') (ground (arith, h, e, fewer))
                  (round-IsOpen f c q e i))
        ]
  ]

  start-IsOpen : IsOpen (start s)
  unfolding lookup
  start-IsOpen = record {
    waits = λ v h. ground (arith, h);
    closed = λ v d seen step. inr (ground (arith, seen));
    searching = record {
      begun = ground (arith, eq_refl s);
      rooted = λ v h.
          let same : s ≡ v = ground (arith, h, eq_iff s v) in
          subst (λ u. (n : ℕ) × (n < 1) × Rooted ms s (start s) n u) same (0, omega arith, root);
    };
  }

  -- Enough fuel: the search of the code ends.
  searched-IsSearched : (target : String) → IsSearched target (searched ms s target)
  searched-IsSearched target =
      search-IsSearched target (length ms + 1) (start s)
        (omega (arith, unvisited-le-length ms (start s).parent)) start-IsOpen

  closed-IsVisited :
      (f : Frontier) (v : String)
      → IsVisited f s
      → ((u d : String) → IsVisited f u → IsStep ms u d → IsVisited f d)
      → Chain ms s v
      → IsVisited f v
  closed-IsVisited f _ first closed here = first
  closed-IsVisited f _ first closed (then_step before v chain step) =
      closed before v (closed-IsVisited f before first closed chain) step

  -- A version at the end of a chain is visited.
  Chain-IsVisited : (target : String) → Chain ms s target → IsVisited (searched ms s target) target
  Chain-IsVisited target chain =
      let found = searched-IsSearched target in
      elim found.ended [
        | inl there ↦ there
        | inr closed ↦
            closed-IsVisited (searched ms s target) target (rw found.searching.begun refl) closed
              chain
      ]

  -- The migrations of a path, in the order of the path.
  apply-append :
      (path : List (String × String)) (src dst : String) (e m : RuntimeEvent)
      → apply_path ms path e ≡ ok m
      → IsStep ms src dst
      → (r : RuntimeEvent) × (apply_path ms (path ++ ((src, dst) ∷ [])) e ≡ ok r)
        × (r.schema_version ≡ dst)
  unfolding apply_path
  apply-append [] src dst e m h step = elim (Option-cases (find_migration src dst ms)) [
    | inl absent ↦ ground (arith, step, absent)
    | inr (fn, there) ↦ (record (fn e) { schema_version = dst }, ground (arith, there), refl)
  ]
  apply-append ((a, b) ∷ path) src dst e m h step = elim (Option-cases (find_migration a b ms)) [
    | inl absent ↦ ground (arith, h, absent)
    | inr (fn, there) ↦
        let e' = record (fn e) { schema_version = b } in
        let (r, runs, version) = apply-append path src dst e' m (ground (arith, h, there)) step in
        (r, ground (arith, there, runs), version)
  ]

  apply-Trail :
      (path : List (String × String)) (target : String) (e : RuntimeEvent)
      → e.schema_version ≡ s
      → Trail ms s target path
      → (r : RuntimeEvent) × (apply_path ms (reverse path) e ≡ ok r) × (r.schema_version ≡ target)
  unfolding apply_path
  apply-Trail [] _ e h stop = (e, refl, h)
  apply-Trail (_ ∷ path) target e h (go before _ _ step trail) =
      let (m, runs, version) = apply-Trail path before e h trail in
      let (r, more, last) = apply-append (reverse path) before target e m runs step in
      (r, rw (reverse-cons (before, target) path) more, last)

reverse-cons_cases :
    (edge : String × String) (path : List (String × String))
    → (first : String × String) × (rest : List (String × String)) × (reverse (edge ∷ path)
        ≡ first ∷ rest)
reverse-cons_cases edge path = elim (List-cases (reverse path)) [
  | inl e ↦ (edge, [], rw (reverse-cons edge path, e) refl)
  | inr (first, rest, e) ↦ (first, rest ++ (edge ∷ []), rw (reverse-cons edge path, e) refl)
]

Trail-stop : {ms : Migrations} {s v : String} → Trail ms s v [] → v ≡ s
Trail-stop stop = refl

attach-version :
    (e m : RuntimeEvent) → (attach_original_schema_version e m).schema_version ≡ m.schema_version
unfolding attach_original_schema_version
attach-version e m = ground arith

-- With the versions apart: a target that the search visits gets a path along which the event migrates, and
-- one that it does not gets none.
module _ (ms : Migrations) (e : RuntimeEvent) (target : String)
    (apart : (e.schema_version == target) ≡ false) where
  -- A path between two versions is not empty.
  Trail-reverse :
      (path : List (String × String))
      → Trail ms e.schema_version target path
      → (first : String × String) × (rest : List (String × String)) × (reverse path ≡ first ∷ rest)
  Trail-reverse [] trail = absurd (ground (arith, apart, Trail-stop trail, eq_refl target))
  Trail-reverse (edge ∷ path) trail = reverse-cons_cases edge path

  migrate_visited :
      IsVisited (searched ms e.schema_version target) target
      → (m : RuntimeEvent) × (migrate ms target e ≡ ok m)
        × (m.schema_version ≡ target)
        × Chain ms e.schema_version target
  unfolding migrate resolve_path
  migrate_visited there =
      let s = e.schema_version in
      let f = searched ms s target in
      let i = (searched-IsSearched ms s target).searching in
      let (n, small, r) = i.rooted target there in
      let (path, walked, trail) =
        walk_back-Trail ms s f (length f.parent) n target i.begun small r in
      let (m, runs, version) = apply-Trail ms s path target e refl trail in
      let (first, rest, order) = Trail-reverse path trail in
      (
        attach_original_schema_version e m,
        ground (arith, apart, there, walked, order, runs),
        attach-version e m ∙ version,
        Rooted-Chain ms s f n target r,
      )

  migrate_unvisited :
      is_some (lookup target (searched ms e.schema_version target).parent) ≡ false
      → migrate ms target e ≡ raised schema_migration_error
  unfolding migrate resolve_path
  migrate_unvisited h = ground (arith, apart, h)

-- A migration returns exactly where a chain of registered migrations leads from the event's version to the
-- target, and then its result has the target's version; where there is no chain it raises
-- SchemaMigrationError. So the fuel of the search and of the walk is enough.
pub migrate-Chain :
    (ms : Migrations) (target : String) (e : RuntimeEvent)
    → ((m : RuntimeEvent) × (migrate ms target e ≡ ok m)
        × (m.schema_version ≡ target)
        × Chain ms e.schema_version target)
      ⊎ ((migrate ms target e ≡ raised schema_migration_error) × ¬ Chain ms e.schema_version target)
unfolding migrate
migrate-Chain ms target e = elim (Bool-cases (e.schema_version == target)) [
  | inl same ↦
      let version = (eq_iff e.schema_version target).0 same in
      inl (e, ground (arith, same), version, subst (Chain ms e.schema_version) version here)
  | inr apart ↦
      elim (Bool-cases (is_some (lookup target (searched ms e.schema_version target).parent))) [
        | inl there ↦ inl (migrate_visited ms e target apart there)
        | inr never ↦ inr (
          migrate_unvisited ms e target apart never,
          λ chain. ground (arith, never, Chain-IsVisited ms e.schema_version target chain),
        )
      ]
]
