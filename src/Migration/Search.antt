-- ===== src/Migration/Search.antt =====
-- The breadth-first search (agent_kernel/kernel/persistence/event_schema_migration.py): what a round keeps,
-- and how the rounds run out.
use agent_kernel.Prelude.{
  ◌≡◌, refl, ◌∙◌, arith, subst, ℕ, zero, suc, ◌+◌, ◌≤◌, ◌<◌, String, Option, none, some, List, [],
  ◌∷◌, ◌++◌, Bool, true, false, ◌==◌, ◌&&◌, ◌||◌, not, ◌⊎◌, if◌then◌else◌, is_some, eq_iff, eq_refl,
  Bool-cases, Option-cases, inl, inr, length, All, length-append,
}
use agent_kernel.Prelude.Dict.{Dict, lookup, insert, lookup-insert, length-insert}
use agent_kernel.Contracts.{among}
use agent_kernel.Migration.{
  Migration, Migrations, is_edge, find_migration, Frontier, visit, visit_all,
}
use agent_kernel.Migration.Walk.{IsStep, Rooted, root, back}

abbrev pub IsVisited : Frontier → String → Type 0
IsVisited f v = is_some (lookup v f.parent) ≡ true

pub among-append :
    (v w : String) (xs : List String) → among v (xs ++ (w ∷ [])) ≡ (among v xs || (w == v))
among-append v w [] = ground arith
among-append v w (x ∷ xs) = ground (arith, among-append v w xs)

-- How many migrations lead to a version that is not visited.
abbrev pub unvisited : Migrations → Dict (Option String) → ℕ
unvisited [] p = 0
unvisited (m ∷ ms) p =
    let rest = unvisited ms p in if is_some (lookup m.to_version p) then rest else suc rest

pub unvisited-le-length : (ms : Migrations) (p : Dict (Option String)) → unvisited ms p ≤ length ms
unvisited-le-length [] p = omega arith
unvisited-le-length (m ∷ ms) p = ground (arith, unvisited-le-length ms p)

unvisited-insert :
    (ms : Migrations) (d : String) (x : Option String) (p : Dict (Option String))
    → unvisited ms (insert d x p) ≤ unvisited ms p
unvisited-insert [] d x p = omega arith
unvisited-insert (m ∷ ms) d x p =
    ground (arith, unvisited-insert ms d x p, lookup-insert d m.to_version x p)

unvisited-insert_new :
    (ms : Migrations) (c d : String) (x : Option String) (p : Dict (Option String))
    → IsStep ms c d
    → lookup d p ≡ none
    → unvisited ms (insert d x p) + 1 ≤ unvisited ms p
unfolding find_migration
unvisited-insert_new [] c d x p e h = ground arith
unvisited-insert_new (m ∷ ms) c d x p e h = ground (
  arith,
  unvisited-insert ms d x p,
  unvisited-insert_new ms c d x p,
  lookup-insert d m.to_version x p,
  eq_iff m.to_version d,
  eq_iff d m.to_version,
)

-- Every migration of a registry is found.
find-cons : (c d : String) (m : Migration) (ms : Migrations) → IsStep ms c d → IsStep (m ∷ ms) c d
unfolding find_migration
find-cons c d m ms h = ground arith

abbrev pub AreSteps : Migrations → Migrations → Type 0
AreSteps total ms = All (λ (m : Migration). IsStep total m.from_version m.to_version) ms

AreSteps-cons :
    (n : Migration) (total ms : Migrations) → AreSteps total ms → AreSteps (n ∷ total) ms
AreSteps-cons n total [] h = tt
AreSteps-cons n total (m ∷ ms) (h, r) =
    (find-cons m.from_version m.to_version n total h, AreSteps-cons n total ms r)

find-head : (m : Migration) (ms : Migrations) → IsStep (m ∷ ms) m.from_version m.to_version
unfolding find_migration
find-head m ms = ground (arith, eq_refl m.from_version, eq_refl m.to_version)

pub all-AreSteps : (ms : Migrations) → AreSteps ms ms
all-AreSteps [] = tt
all-AreSteps (m ∷ ms) = (find-head m ms, AreSteps-cons m ms ms (all-AreSteps ms))

-- An edge is new if it leads from `current` to a version that is not visited.
abbrev is_new : String → Migration → Frontier → Bool
is_new current m f = (m.from_version == current) && not (is_some (lookup m.to_version f.parent))

visit-old : (c : String) (m : Migration) (f : Frontier) → is_new c m f ≡ false → visit c m f ≡ f
visit-old c m f h = ground arith

module _ (c : String) (m : Migration) (f : Frontier) where
  pub visit-parent :
      (v : String) (x : Option String)
      → lookup v f.parent ≡ some x
      → lookup v (visit c m f).parent ≡ some x
  visit-parent v x h =
      ground (arith, h, lookup-insert m.to_version v (some c) f.parent, eq_iff m.to_version v)

  pub visit-among : (v : String) → among v f.queue ≡ true → among v (visit c m f).queue ≡ true
  visit-among v h = ground (arith, h, among-append v m.to_version f.queue)

  -- A version is visited after the round if it was before, or it is waiting.
  visit-IsVisited :
      (v : String)
      → IsVisited (visit c m f) v
      → IsVisited f v ⊎ (among v (visit c m f).queue ≡ true)
  visit-IsVisited v h = ground (
    arith,
    h,
    lookup-insert m.to_version v (some c) f.parent,
    among-append v m.to_version f.queue,
  )

  visit_visits : (m.from_version == c) ≡ true → IsVisited (visit c m f) m.to_version
  visit_visits h =
      ground
        (arith, h, lookup-insert m.to_version m.to_version (some c) f.parent, eq_refl m.to_version)

  visit-edge :
      (v : String) (x : Option String)
      → lookup v f.parent ≡ some x
      → lookup v (visit c m f).edge_to ≡ lookup v f.edge_to
  visit-edge v x h = ground (
    arith,
    h,
    lookup-insert m.to_version v (m.from_version, m.to_version) f.edge_to,
    eq_iff m.to_version v,
  )

  pub still-IsVisited : (v : String) → IsVisited f v → IsVisited (visit c m f) v
  still-IsVisited v h = elim (Option-cases (lookup v f.parent)) [
    | inl none_there ↦ ground (arith, h, none_there)
    | inr (x, there) ↦ rw (visit-parent v x there) refl
  ]

  -- What waits is visited.
  visit_waiting :
      ((u : String) → among u f.queue ≡ true → IsVisited f u)
      → (v : String) → among v (visit c m f).queue ≡ true
      → IsVisited (visit c m f) v
  visit_waiting w v h = elim (Bool-cases (among v f.queue)) [
    | inl old ↦ still-IsVisited v (w v old)
    | inr fresh ↦ ground (
      arith,
      h,
      fresh,
      among-append v m.to_version f.queue,
      lookup-insert m.to_version v (some c) f.parent,
    )
  ]

  visit-length : length f.parent ≤ length (visit c m f).parent
  visit-length = ground (arith, length-insert m.to_version (some c) f.parent)

-- What the search keeps.
abbrev pub waiting_for : Migrations → Frontier → ℕ
waiting_for ms f = length f.queue + unvisited ms f.parent

module _ (ms : Migrations) (s : String) where
  pub record IsSearching (f : Frontier) : Type 0 where
    pub begun : lookup s f.parent ≡ some none
    pub rooted : (v : String) → IsVisited f v → (n : ℕ) × (n < length f.parent) × Rooted ms s f n v

  module _ (c : String) (m : Migration) (step : IsStep ms m.from_version m.to_version) where
    visit-waiting_for : (f : Frontier) → waiting_for ms (visit c m f) ≤ waiting_for ms f
    visit-waiting_for f = elim (Option-cases (lookup m.to_version f.parent)) [
      | inr (x, h) ↦ ground (arith, h)
      | inl h ↦ ground (
        arith,
        h,
        unvisited-insert_new ms m.from_version m.to_version (some c) f.parent step h,
        length-append f.queue (m.to_version ∷ []),
      )
    ]

    visit-Rooted :
        (f : Frontier) (n : ℕ) (v : String) → Rooted ms s f n v → Rooted ms s (visit c m f) n v
    visit-Rooted f zero _ root = root
    visit-Rooted f (suc n) v (back _ before _ p q e r) =
        back n before v (visit-parent c m f v (some before) p)
          (visit-edge c m f v (some before) p ∙ q) e (visit-Rooted f n before r)

    -- The version that the round adds.
    visit_new-Rooted :
        (f : Frontier)
        → IsVisited f c
        → IsSearching f
        → is_new c m f ≡ true
        → (n : ℕ) × (n < length (visit c m f).parent) × Rooted ms s (visit c m f) n m.to_version
    visit_new-Rooted f visited i new =
        let (n, small, r) = i.rooted c visited in
        (
          suc n,
          ground (arith, small, new, length-insert m.to_version (some c) f.parent),
          back n c m.to_version
              (ground (
                arith,
                new,
                lookup-insert m.to_version m.to_version (some c) f.parent,
                eq_refl m.to_version,
              ))
              (ground (
                arith,
                new,
                eq_iff m.from_version c,
                lookup-insert m.to_version m.to_version (m.from_version, m.to_version) f.edge_to,
                eq_refl m.to_version,
              ))
              (subst (λ b. IsStep ms b m.to_version) (ground (arith, new, eq_iff m.from_version c))
                step)
              (visit-Rooted f n c r),
        )

    visit-IsSearching : (f : Frontier) → IsVisited f c → IsSearching f → IsSearching (visit c m f)
    visit-IsSearching f visited i = record {
      begun = visit-parent c m f s none i.begun;
      rooted = λ v h. elim (Bool-cases (is_some (lookup v f.parent))) [
        | inl seen ↦
            let (n, small, r) = i.rooted v seen in
            (n, omega (arith, small, visit-length c m f), visit-Rooted f n v r)
        | inr unseen ↦
            let added = lookup-insert m.to_version v (some c) f.parent in
            let new : is_new c m f ≡ true = ground (arith, h, unseen, added) in
            let same : m.to_version ≡ v = ground (arith, h, unseen, added, eq_iff m.to_version v) in
            subst (λ u. (n : ℕ) × (n < length (visit c m f).parent) × Rooted ms s (visit c m f) n u)
              same (visit_new-Rooted f visited i new)
      ];
    }

  -- A round, over the migrations that are left of the registry.
  module _ (c : String) where
    pub round-IsSearching :
        (left : Migrations) (f : Frontier)
        → AreSteps ms left
        → IsVisited f c
        → IsSearching f
        → IsSearching (visit_all c left f)
    unfolding visit_all
    round-IsSearching [] f steps visited i = i
    round-IsSearching (m ∷ left) f (step, steps) visited i =
        round-IsSearching left (visit c m f) steps (still-IsVisited c m f c visited)
          (visit-IsSearching c m step f visited i)

    pub round-waiting_for :
        (left : Migrations) (f : Frontier)
        → AreSteps ms left
        → waiting_for ms (visit_all c left f) ≤ waiting_for ms f
    unfolding visit_all
    round-waiting_for [] f steps = omega arith
    round-waiting_for (m ∷ left) f (step, steps) =
        omega (arith, round-waiting_for left (visit c m f) steps, visit-waiting_for c m step f)

module _ (c : String) where
  pub round_still-IsVisited :
      (left : Migrations) (f : Frontier) (v : String)
      → IsVisited f v
      → IsVisited (visit_all c left f) v
  unfolding visit_all
  round_still-IsVisited [] f v h = h
  round_still-IsVisited (m ∷ left) f v h =
      round_still-IsVisited left (visit c m f) v (still-IsVisited c m f v h)

  pub round-among :
      (left : Migrations) (f : Frontier) (v : String)
      → among v f.queue ≡ true
      → among v (visit_all c left f).queue ≡ true
  unfolding visit_all
  round-among [] f v h = h
  round-among (m ∷ left) f v h = round-among left (visit c m f) v (visit-among c m f v h)

  pub round_waiting :
      (left : Migrations) (f : Frontier)
      → ((u : String) → among u f.queue ≡ true → IsVisited f u)
      → (v : String) → among v (visit_all c left f).queue ≡ true
      → IsVisited (visit_all c left f) v
  unfolding visit_all
  round_waiting [] f w v h = w v h
  round_waiting (m ∷ left) f w v h = round_waiting left (visit c m f) (visit_waiting c m f w) v h

  -- What a round visits was visited before, or waits.
  pub round-IsVisited :
      (left : Migrations) (f : Frontier) (v : String)
      → IsVisited (visit_all c left f) v
      → IsVisited f v ⊎ (among v (visit_all c left f).queue ≡ true)
  unfolding visit_all
  round-IsVisited [] f v h = inl h
  round-IsVisited (m ∷ left) f v h = elim (round-IsVisited left (visit c m f) v h) [
    | inr waits ↦ inr waits
    | inl seen ↦ elim (visit-IsVisited c m f v seen) [
      | inl old ↦ inl old
      | inr waits ↦ inr (round-among left (visit c m f) v waits)
    ]
  ]

  -- A round visits every version to which a migration leads.
  pub round_visits :
      (left : Migrations) (f : Frontier) (d : String)
      → IsStep left c d
      → IsVisited (visit_all c left f) d
  unfolding visit_all find_migration
  round_visits [] f d h = ground arith
  round_visits (m ∷ left) f d h = elim (Bool-cases (is_edge c d m)) [
    | inl b ↦
        let from : (m.from_version == c) ≡ true = ground (arith, b) in
        let to : m.to_version ≡ d = ground (arith, b, eq_iff m.to_version d) in
        round_still-IsVisited left (visit c m f) d
          (subst (IsVisited (visit c m f)) to (visit_visits c m f from))
    | inr b ↦ round_visits left (visit c m f) d (ground (arith, h, b))
  ]
