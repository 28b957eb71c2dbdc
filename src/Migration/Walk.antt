-- ===== src/Migration/Walk.antt =====
-- The walk back from a version that the search has visited
-- (agent_kernel/kernel/persistence/event_schema_migration.py).
use agent_kernel.Prelude.{
  ◌≡◌, arith, ℕ, zero, suc, ◌<◌, String, none, some, List, [], ◌∷◌, true, is_some, eq_iff, eq_refl,
}
use agent_kernel.Prelude.Errors.{ok}
use agent_kernel.Prelude.Dict.{lookup}
use agent_kernel.Migration.{Migrations, find_migration, Frontier, walk_back}

-- A migration of the registry leads from the one version to the other.
abbrev pub IsStep : Migrations → String → String → Type 0
IsStep ms src dst = is_some (find_migration src dst ms) ≡ true

-- A chain of migrations.
pub data Chain (ms : Migrations) (src : String) : String → Type 0 where
  here : Chain ms src src
  then_step : (before dst : String) → Chain ms src before → IsStep ms before dst → Chain ms src dst

module _ (ms : Migrations) (start : String) where
  -- The dicts lead back from a version to the start, in so many steps.
  pub data Rooted (f : Frontier) : ℕ → String → Type 0 where
    root : Rooted f zero start
    back :
        (n : ℕ) (before node : String)
        → lookup node f.parent ≡ some (some before)
        → lookup node f.edge_to ≡ some (before, node)
        → IsStep ms before node
        → Rooted f n before
        → Rooted f (suc n) node

  pub Rooted-Chain : (f : Frontier) (n : ℕ) (node : String) → Rooted f n node → Chain ms start node
  Rooted-Chain f zero _ root = here
  Rooted-Chain f (suc n) node (back _ before _ p q e r) =
      then_step before node (Rooted-Chain f n before r) e

  -- The edges of a path, the last first: each is registered, and leads to where the next one begins.
  pub data Trail : String → List (String × String) → Type 0 where
    stop : Trail start []
    go :
        (before node : String) (path : List (String × String))
        → IsStep ms before node
        → Trail before path
        → Trail node ((before, node) ∷ path)

  -- The walk ends at the start, if the fuel is more than the steps.
  pub walk_back-Trail :
      (f : Frontier) (fuel n : ℕ) (node : String)
      → lookup start f.parent ≡ some none
      → n < fuel
      → Rooted f n node
      → (path : List (String × String)) × (walk_back start f fuel node ≡ ok path) × Trail node path
  unfolding walk_back
  walk_back-Trail f zero n node s h r = absurd (omega arith)
  walk_back-Trail f (suc fuel) zero _ s h root = ([], ground (arith, eq_refl start), stop)
  walk_back-Trail f (suc fuel) (suc n) node s h (back _ before _ p q e r) =
      let (path, walked, trail) = walk_back-Trail f fuel n before s (omega arith) r in
      (
        (before, node) ∷ path,
        ground (arith, walked, p, q, s, eq_iff node start),
        go before node path e trail,
      )
