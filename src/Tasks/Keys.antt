-- ===== src/Tasks/Keys.antt =====
-- The registry as a dict of tasks under their own ids, and what eviction may forget
-- (agent_kernel/kernel/task_manager/registry.py).
pub mod Steps
pub mod Histories
use agent_kernel.Prelude.{
  ℕ, zero, suc, ◌≡◌, ◌≢◌, refl, sym, Option, none, some, Bool, true, false, ◌||◌, String, List, [],
  ◌∷◌, if◌then◌else◌, ◌==◌, arith, eq_iff, eq_refl, Option-cases, Bool-cases, inl, inr, ◌⊎◌, length,
  take, ltb, leb,
}
use agent_kernel.Prelude.Errors.{ok, raised}
use agent_kernel.Prelude.Dict.{Dict, lookup, insert, remove, lookup-insert, lookup-remove}
use agent_kernel.Tasks.Data.{TaskDescriptor, TaskEntry, TaskRegistry, new_entry, is_terminal}
use agent_kernel.Tasks.Registry.{
  register, evict_if_needed, evict_all, evict, terminal_ids, half, admit,
}

-- No key stands twice, as in Python's dict.
abbrev pub Distinct : {V : Type 0} → Dict V → Type 0
Distinct [] = Unit
Distinct ((name, value) ∷ items) = (lookup name items ≡ none) × Distinct items

module _ {V : Type 0} where
  pub insert-Distinct :
      (key : String) (value : V) (items : Dict V)
      → Distinct items
      → Distinct (insert key value items)
  unfolding insert lookup
  insert-Distinct key value [] h = (refl, tt)
  insert-Distinct key value ((name, old) ∷ items) (fresh, h) = ground (
    arith,
    eq_iff key name,
    eq_iff name key,
    lookup-insert key name value items,
    insert-Distinct key value items h,
  )

  pub remove-Distinct :
      (key : String) (items : Dict V) → Distinct items → Distinct (remove key items)
  unfolding remove lookup
  remove-Distinct key [] h = tt
  remove-Distinct key ((name, old) ∷ items) (fresh, h) =
      ground (arith, lookup-remove key name items, remove-Distinct key items h)

abbrev contains : String → List String → Bool
contains key [] = false
contains key (name ∷ ids) = name == key || contains key ids

terminal_ids_absent :
    (key : String) (items : Dict TaskEntry)
    → lookup key items ≡ none
    → contains key (terminal_ids items) ≡ false
unfolding lookup terminal_ids
terminal_ids_absent key [] h = refl
terminal_ids_absent key ((name, e) ∷ items) h = ground (arith, terminal_ids_absent key items)

terminal_ids_active :
    (key : String) (e : TaskEntry) (items : Dict TaskEntry)
    → Distinct items
    → lookup key items ≡ some e
    → is_terminal e.lifecycle_state ≡ false
    → contains key (terminal_ids items) ≡ false
unfolding lookup terminal_ids
terminal_ids_active key e [] d h active = refl
terminal_ids_active key e ((name, e') ∷ items) (fresh, d) h active =
    ground
      (arith, eq_iff name key, terminal_ids_absent key items, terminal_ids_active key e items d)

contains-take :
    (key : String) (n : ℕ) (ids : List String)
    → contains key ids ≡ false
    → contains key (take n ids) ≡ false
contains-take key zero ids h = refl
contains-take key (suc n) [] h = refl
contains-take key (suc n) (name ∷ ids) h = ground (arith, contains-take key n ids)

lookup-evict :
    (task_id key : String) (r : TaskRegistry)
    → (task_id == key) ≡ false
    → lookup key (evict task_id r).tasks ≡ lookup key r.tasks
unfolding evict
lookup-evict task_id key r h = ground (arith, lookup-remove task_id key r.tasks)

lookup-evict_all :
    (ids : List String) (key : String) (r : TaskRegistry)
    → contains key ids ≡ false
    → lookup key (evict_all ids r).tasks ≡ lookup key r.tasks
unfolding evict_all
lookup-evict_all [] key r h = refl
lookup-evict_all (task_id ∷ ids) key r h =
    ground (arith, lookup-evict task_id key r, lookup-evict_all ids key (evict task_id r))

lookup-evict_if_needed :
    (key : String) (r : TaskRegistry) (e : TaskEntry)
    → Distinct r.tasks
    → lookup key r.tasks ≡ some e
    → is_terminal e.lifecycle_state ≡ false
    → lookup key (evict_if_needed r).tasks ≡ some e
unfolding evict_if_needed
lookup-evict_if_needed key r e d h active =
    let terminal = terminal_ids r.tasks in
    let absent =
      contains-take key (half (length terminal)) terminal
        (terminal_ids_active key e r.tasks d h active) in
    ground (arith, lookup-evict_all (take (half (length terminal)) terminal) key r absent)

-- Where no task id stands twice, a registration, whether accepted or refused, keeps every task that is in
-- no terminal state, as it was.
pub register_keeps_active :
    (d : TaskDescriptor) (r : TaskRegistry) (key : String) (e : TaskEntry)
    → Distinct r.tasks
    → lookup key r.tasks ≡ some e
    → is_terminal e.lifecycle_state ≡ false
    → lookup key (register d r).1.tasks ≡ some e
unfolding register
register_keeps_active d r key e distinct h active = ground (
  arith,
  lookup-evict_if_needed key r e distinct h active,
  eq_iff d.task_id key,
  lookup-insert d.task_id key (new_entry d) (evict_if_needed r).tasks,
)
