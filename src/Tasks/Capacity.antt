-- ===== src/Tasks/Capacity.antt =====
-- How many tasks the registry keeps, and which it forgets (register and _evict_if_needed of
-- agent_kernel/kernel/task_manager/registry.py).
use agent_kernel.Prelude.{
  ℕ, zero, suc, ◌+◌, ◌≤◌, ◌<◌, ◌≡◌, refl, true, String, List, [], ◌∷◌, arith, eq_refl, inl, inr,
  ◌⊎◌, length, take, is_some,
}
use agent_kernel.Prelude.Dict.{Dict, lookup, remove, length-insert}
use agent_kernel.Tasks.Data.{TaskDescriptor, TaskEntry, TaskRegistry, new_entry}
use agent_kernel.Tasks.Registry.{register, evict_if_needed, evict_all, evict, terminal_ids, half}

length-remove :
    {V : Type 0} (key : String) (items : Dict V)
    → (length (remove key items) ≤ length items)
      × (is_some (lookup key items) ≡ true → length (remove key items) < length items)
unfolding lookup remove
length-remove key [] = (omega arith, λ h. ground arith)
length-remove key ((name, value) ∷ items) = ground (arith, length-remove key items)

length-evict :
    (task_id : String) (r : TaskRegistry)
    → (length (evict task_id r).tasks ≤ length r.tasks)
      × (is_some (lookup task_id r.tasks) ≡ true → length (evict task_id r).tasks < length r.tasks)
      × ((evict task_id r).max_tasks ≡ r.max_tasks)
unfolding evict
length-evict task_id r = ground (arith, length-remove task_id r.tasks)

length-evict_all :
    (ids : List String) (r : TaskRegistry) → length (evict_all ids r).tasks ≤ length r.tasks
unfolding evict_all
length-evict_all [] r = omega arith
length-evict_all (task_id ∷ ids) r =
    ground (arith, length-evict task_id r, length-evict_all ids (evict task_id r))

-- The oldest terminal task, if there is one, is there.
head-terminal_ids :
    (items : Dict TaskEntry) (task_id : String) (ids : List String)
    → terminal_ids items ≡ task_id ∷ ids
    → is_some (lookup task_id items) ≡ true
unfolding terminal_ids lookup
head-terminal_ids [] task_id ids h = cc
head-terminal_ids ((name, e) ∷ items) task_id ids h =
    ground (arith, head-terminal_ids items task_id ids, eq_refl name)

length-evict_take :
    (n : ℕ) (ids : List String) (r : TaskRegistry)
    → 1 ≤ n
    → ((task_id : String) (rest : List String)
        → ids ≡ task_id ∷ rest
        → is_some (lookup task_id r.tasks) ≡ true)
    → (ids ≡ []) ⊎ (length (evict_all (take n ids) r).tasks < length r.tasks)
unfolding evict_all
length-evict_take zero ids r positive there = absurd (ground arith)
length-evict_take (suc n) [] r positive there = inl refl
length-evict_take (suc n) (task_id ∷ ids) r positive there = inr (
    ground (
      arith,
      there task_id ids refl,
      length-evict task_id r,
      length-evict_all (take n ids) (evict task_id r),
    ))

half-positive : (n : ℕ) → 1 ≤ half n
half-positive n = ground arith

-- Some terminal task is evicted where there is one and there is no room.
length-evict_if_needed :
    (r : TaskRegistry)
    → (length (evict_if_needed r).tasks < r.max_tasks)
      ⊎ ((terminal_ids r.tasks ≡ []) ⊎ (length (evict_if_needed r).tasks < length r.tasks))
unfolding evict_if_needed
length-evict_if_needed r = ground (
  arith,
  length-evict_take (half (length (terminal_ids r.tasks))) (terminal_ids r.tasks) r
      (half-positive (length (terminal_ids r.tasks))) (head-terminal_ids r.tasks),
)

length-evicted : (r : TaskRegistry) → length (evict_if_needed r).tasks ≤ length r.tasks
unfolding evict_if_needed
length-evicted r =
    ground (
      arith,
      length-evict_all (take (half (length (terminal_ids r.tasks))) (terminal_ids r.tasks)) r,
    )

-- A registration, accepted or refused, leaves at most max_tasks tasks, or no more than before, or no
-- task was in a terminal state; then it adds one at most.
pub register_capacity :
    (d : TaskDescriptor) (r : TaskRegistry)
    → let n = length (register d r).1.tasks in
      (n ≤ r.max_tasks)
      ⊎ ((n ≤ length r.tasks) ⊎ ((terminal_ids r.tasks ≡ []) × (n ≤ length r.tasks + 1)))
unfolding register
register_capacity d r = ground (
  arith,
  length-evict_if_needed r,
  length-evicted r,
  length-insert d.task_id (new_entry d) (evict_if_needed r).tasks,
)
