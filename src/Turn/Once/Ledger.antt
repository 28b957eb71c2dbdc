-- ===== src/Turn/Once/Ledger.antt =====
-- What the engine needs of a dedupe store (DedupeStorePort of agent_kernel/kernel/dedupe_store.py), and
-- the relations between two moments of a turn that the proofs below are about.
use agent_kernel.Prelude.{◌≡◌, Option, Bool, true, false, String}
use agent_kernel.Prelude.Errors.{ok}
use agent_kernel.Dedupe.{IdempotencyEnvelope, DedupeReservation}
use agent_kernel.Turn.State.{DedupePort, Turn}

-- What a dedupe store promises: it answers, it grants a key only where it has none and then has it,
-- and no call makes it forget a key.
pub record IsLedger (d : DedupePort) : Type 0 where
  pub has : d.Store → String → Bool
  pub answers :
      (e : IdempotencyEnvelope) (o : Option String) (s : d.Store)
      → (r : DedupeReservation) × ((d.reserve_and_dispatch e o s).0 ≡ ok r)
  pub fresh :
      (e : IdempotencyEnvelope) (o : Option String) (s : d.Store) (r : DedupeReservation)
      → (d.reserve_and_dispatch e o s).0 ≡ ok r
      → r.accepted ≡ true
      → (has s e.dispatch_idempotency_key ≡ false)
        × (has (d.reserve_and_dispatch e o s).1 e.dispatch_idempotency_key ≡ true)
  pub reserve_keeps :
      (e : IdempotencyEnvelope) (o : Option String) (s : d.Store) (k : String)
      → has s k ≡ true
      → has (d.reserve_and_dispatch e o s).1 k ≡ true
  pub acknowledge_keeps :
      (j : String) (o : Option String) (s : d.Store) (k : String)
      → has s k ≡ true
      → has (d.mark_acknowledged j o s).1 k ≡ true
  pub unknown_keeps :
      (j : String) (s : d.Store) (k : String)
      → has s k ≡ true
      → has (d.mark_unknown_effect j s).1 k ≡ true

module _ (d : DedupePort) where
  -- The store and the calls stay as they are.
  abbrev pub Apart : Turn d.Store → Turn d.Store → Type 0
  Apart t t' = (t'.store ≡ t.store) × (t'.calls ≡ t.calls)

module _ (d : DedupePort) (l : IsLedger d) where
  open l use {has}

  -- No executor call, and every key that the store has it keeps.
  abbrev pub Quiet : Turn d.Store → Turn d.Store → Type 0
  Quiet t t' = (t'.calls ≡ t.calls) × ((k : String) → has t.store k ≡ true → has t'.store k ≡ true)
