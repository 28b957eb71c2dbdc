-- ===== src/Prelude/Errors.antt =====
-- Python's exceptions as values. A method that mutates an object returns the object's new state
-- beside its outcome, also where it raises.
use mathlib.Core.Path.{◌≡◌, refl, ap}
use mathlib.Core.Logic.{◌⊎◌, inl, inr}
use mathlib.Core.Bool.{Bool, true, false}

-- The exception classes that the modelled code raises or distinguishes.
pub data Exn : Type 0 where
  assertion_error type_error value_error key_error runtime_error : Exn
  capability_snapshot_build_error dedupe_store_state_error compensation_exhausted_error : Exn
  policy_resolution_error schema_migration_error index_error : Exn
  external_error : Exn

-- `isinstance(exc, ValueError)`: three of the repository's exceptions derive from ValueError.
abbrev pub is_value_error : Exn → Bool
is_value_error value_error = true
is_value_error capability_snapshot_build_error = true
is_value_error dedupe_store_state_error = true
is_value_error policy_resolution_error = true
is_value_error _ = false

pub data Outcome {ℓ} (A : Type ℓ) : Type ℓ where
  ok : A → Outcome A
  raised : Exn → Outcome A

abbrev pub is_raised {ℓ} : {A : Type ℓ} → Outcome A → Bool
is_raised (ok a) = false
is_raised (raised e) = true

pub Outcome-cases {ℓ} :
    {A : Type ℓ} (o : Outcome A) → ((x : Exn) × (o ≡ raised x)) ⊎ ((a : A) × (o ≡ ok a))
Outcome-cases (ok a) = inr (a, refl)
Outcome-cases (raised x) = inl (x, refl)

pub ok-injective {ℓ} : {A : Type ℓ} (a b : A) → ok a ≡ ok b → a ≡ b
ok-injective a b e = ap (λ o. elim o [ ok x ↦ x | raised y ↦ a ]) e

abbrev pub Exec {ℓ} : Type ℓ → Type ℓ → Type ℓ
Exec S A = S → Outcome A × S

module _ {ℓ} {S A : Type ℓ} where
  abbrev pub pure : A → Exec S A
  pure a s = (ok a, s)

  abbrev pub throw : Exn → Exec S A
  throw e s = (raised e, s)

module _ {ℓ} {S A B : Type ℓ} where
  abbrev pub continue : Outcome A → (A → Exec S B) → Exec S B
  continue (ok a) f s = f a s
  continue (raised e) f s = (raised e, s)

  infixl 5 ◌>>=◌ ◌>>◌
  abbrev pub ◌>>=◌ : (first : Exec S A) (rest : A → Exec S B) → Exec S B
  ◌>>=◌ first rest state = let (outcome, later) = first state in continue outcome rest later

  abbrev pub ◌>>◌ : (first : Exec S A) (second : Exec S B) → Exec S B
  first >> second = first >>= λ _. second
