-- ===== src/Prelude/Dict.antt =====
-- Python's `dict` with text keys, as its items in insertion order: an assignment to a key that is
-- there keeps the key's place, a new key goes to the end.
use Prim.Native.Nat.{◌+◌}
use Prim.Native.String.{String}
use mathlib.Core.Path.{◌≡◌, refl, sym, ◌∙◌, subst}
use mathlib.Core.Logic.{inl, inr}
use mathlib.Core.List.{List, [], ◌∷◌}
use mathlib.Core.Option.{Option, none, some, some-injective}
use native.Mathlib.Omega.{arith}
use text.Mathlib.Text.{◌==◌}
use text.Mathlib.TextEquality.{eq_iff}
use agent_kernel.Prelude.Tests.{if◌then◌else◌, Bool-cases}
use agent_kernel.Prelude.Lists.{length, All}

abbrev pub Dict {ℓ} : Type ℓ → Type ℓ
Dict V = List (String × V)

module _ {ℓ} {V : Type ℓ} where
  unfoldable pub lookup : (key : String) (items : Dict V) → Option V
  lookup key [] = none
  lookup key ((name, value) ∷ items) = if name == key then some value else lookup key items

  -- `d[key] = value`
  unfoldable pub insert : (key : String) (value : V) (items : Dict V) → Dict V
  insert key value [] = (key, value) ∷ []
  insert key value ((name, old) ∷ items) =
      let rest = insert key value items in
      if name == key then (name, value) ∷ items else (name, old) ∷ rest

  -- `d.pop(key, None)`
  unfoldable pub remove : (key : String) (items : Dict V) → Dict V
  remove key [] = []
  remove key ((name, value) ∷ items) =
      let rest = remove key items in if name == key then rest else (name, value) ∷ rest

  pub lookup-insert :
      (key name : String) (value : V) (items : Dict V)
      → lookup name (insert key value items)
        ≡ (if key == name then some value else lookup name items)
  unfolding lookup insert
  lookup-insert key name value [] = refl
  lookup-insert key name value ((first, old) ∷ items) = ground (
    arith,
    lookup-insert key name value items,
    eq_iff key name,
    eq_iff first key,
    eq_iff first name,
  )

  pub lookup-remove :
      (key name : String) (items : Dict V)
      → lookup name (remove key items) ≡ (if key == name then none else lookup name items)
  unfolding lookup remove
  lookup-remove key name [] = ground arith
  lookup-remove key name ((first, old) ∷ items) =
      ground
        (arith, lookup-remove key name items, eq_iff key name, eq_iff first key, eq_iff first name)

  -- What holds of every value holds of the one that is found.
  pub lookup-All {κ} :
      (P : V → Type κ) (key : String) (value : V) (items : Dict V)
      → All (λ item. P item.1) items
      → lookup key items ≡ some value
      → P value
  unfolding lookup
  lookup-All P key value [] h e = ground (arith, e)
  lookup-All P key value ((name, old) ∷ items) (first, rest) e = elim (Bool-cases (name == key)) [
    | inl b ↦ subst P (some-injective old value (sym (rw b refl) ∙ e)) first
    | inr b ↦ lookup-All P key value items rest (rw b at e)
  ]

  -- An assignment to a new key adds one item, one to a key that is there none.
  pub length-insert :
      (key : String) (value : V) (items : Dict V)
      → length (insert key value items)
        ≡ (elim (lookup key items) [ none ↦ length items + 1 | some old ↦ length items ])
  unfolding lookup insert
  length-insert key value [] = omega arith
  length-insert key value ((name, old) ∷ items) = ground (arith, length-insert key value items)
