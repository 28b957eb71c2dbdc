-- ===== src/Turn/Engine/Register.antt =====
-- TurnEngine.register_phase of agent_kernel/kernel/turn_engine.py: a new name among the phases' names.
use agent_kernel.Prelude.{
  ◌+◌, ◌≡◌, refl, Option, none, some, Bool, true, false, ◌||◌, String, List, [], ◌∷◌, ◌++◌, ◌==◌,
  if◌then◌else◌, arith, eq_refl, length, length-append,
}
use agent_kernel.Prelude.Errors.{Outcome, ok, raised, type_error, value_error}

-- `name in phases`
unfoldable pub contains : String → List String → Bool
contains n [] = false
contains n (m ∷ r) = m == n || contains n r

-- `phases.insert(phases.index(anchor) + 1, name)`, and without the `+ 1`
unfoldable pub insert_after : String → String → List String → List String
insert_after anchor n [] = []
insert_after anchor n (m ∷ r) = if m == anchor then m ∷ n ∷ r else m ∷ insert_after anchor n r

unfoldable pub insert_before : String → String → List String → List String
insert_before anchor n [] = []
insert_before anchor n (m ∷ r) = if m == anchor then n ∷ m ∷ r else m ∷ insert_before anchor n r

abbrev placed : String → Option String → Option String → List String → Outcome (List String)
placed n (some after) before phases =
    if contains after phases then ok (insert_after after n phases) else raised value_error
placed n none (some before) phases =
    if contains before phases then ok (insert_before before n phases) else raised value_error
placed n none none phases = ok (phases ++ n ∷ [])

abbrev both : Option String → Option String → Bool
both (some a) (some b) = true
both _ _ = false

-- The new `_TURN_PHASES`, from the name, `after`, `before` and the old ones.
unfoldable pub register_phase :
    String → Option String → Option String → List String → Outcome (List String)
unfolding contains insert_after insert_before
register_phase n after before phases =
    if both after before
    then raised type_error
    else if contains n phases
    then raised value_error
    else placed n after before phases

-- The names without one of them.
unfoldable pub without : String → List String → List String
without n [] = []
without n (m ∷ r) = let rest = without n r in if m == n then rest else m ∷ rest

without_absent : (n : String) (l : List String) → contains n l ≡ false → without n l ≡ l
unfolding contains without
without_absent n [] h = refl
without_absent n (m ∷ r) h = ground (arith, without_absent n r)

without-insert_after :
    (a n : String) (l : List String) → contains n l ≡ false → without n (insert_after a n l) ≡ l
unfolding contains without insert_after
without-insert_after a n [] h = refl
without-insert_after a n (m ∷ r) h =
    ground (arith, eq_refl n, without-insert_after a n r, without_absent n r)

without-insert_before :
    (a n : String) (l : List String) → contains n l ≡ false → without n (insert_before a n l) ≡ l
unfolding contains without insert_before
without-insert_before a n [] h = refl
without-insert_before a n (m ∷ r) h =
    ground (arith, eq_refl n, without-insert_before a n r, without_absent n r)

without-append : (n : String) (l : List String) → contains n l ≡ false → without n (l ++ n ∷ []) ≡ l
unfolding contains without
without-append n [] h = ground (arith, eq_refl n)
without-append n (m ∷ r) h = ground (arith, without-append n r)

length-insert_after :
    (a n : String) (l : List String)
    → contains a l ≡ true
    → length (insert_after a n l) ≡ length l + 1
unfolding contains insert_after
length-insert_after a n [] h = cc
length-insert_after a n (m ∷ r) h = ground (arith, length-insert_after a n r)

length-insert_before :
    (a n : String) (l : List String)
    → contains a l ≡ true
    → length (insert_before a n l) ≡ length l + 1
unfolding contains insert_before
length-insert_before a n [] h = cc
length-insert_before a n (m ∷ r) h = ground (arith, length-insert_before a n r)

-- A registration that succeeds is of a name that was not there, adds one name, and keeps every phase
-- that was there, in its order: without the new name the phases are the old ones.
pub register_phase_keeps :
    (n : String) (after before : Option String) (phases : List String) {new : List String}
    → register_phase n after before phases ≡ ok new
    → (without n new ≡ phases) × (contains n phases ≡ false) × (length new ≡ length phases + 1)
unfolding register_phase
register_phase_keeps n (some a) none phases h =
    ground (arith, without-insert_after a n phases, length-insert_after a n phases)
register_phase_keeps n none (some b) phases h =
    ground (arith, without-insert_before b n phases, length-insert_before b n phases)
register_phase_keeps n none none phases h =
    ground (arith, without-append n phases, length-append phases (n ∷ []))
register_phase_keeps n (some a) (some b) phases h = cc
