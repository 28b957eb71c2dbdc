-- ===== src/Tasks/Keys/Steps.antt =====
-- Each method of the registry keeps it well formed
-- (agent_kernel/kernel/task_manager/registry.py).
use agent_kernel.Prelude.{
  ℕ, ◌≡◌, refl, subst, Option, some, String, List, [], ◌∷◌, ◌++◌, All, ◌==◌, arith, eq_iff,
  Option-cases, Bool-cases, inl, inr, take, length, ltb,
}
use agent_kernel.Prelude.Dict.{Dict, lookup, insert, remove, lookup-insert, lookup-remove}
use agent_kernel.Contracts.{FailureEnvelope}
use agent_kernel.Tasks.Data.{
  TaskLifecycleState, AttemptOutcome, TaskDescriptor, TaskAttempt, TaskEntry, TaskRegistry,
  new_entry,
}
use agent_kernel.Tasks.Registry.{
  register, evict_if_needed, evict_all, evict, terminal_ids, half, start_attempt, complete_attempt,
  end_open, ended_entry, any_open, update_state, heartbeat, beaten,
}
use agent_kernel.Tasks.Keys.{Distinct, insert-Distinct, remove-Distinct}

-- What an entry under a key is: the key's task, with its own attempts.
abbrev pub Owned : String → TaskEntry → Type 0
Owned key e = (e.descriptor.task_id ≡ key) × All (λ a. a.task_id ≡ key) e.attempts

-- Every key stands once, over an entry that it owns.
pub record IsWellFormed (tasks : Dict TaskEntry) : Type 0 where
  pub distinct : Distinct tasks
  pub owned : (key : String) (e : TaskEntry) → lookup key tasks ≡ some e → Owned key e

insert-IsWellFormed :
    (key : String) (e : TaskEntry) (tasks : Dict TaskEntry)
    → Owned key e
    → IsWellFormed tasks
    → IsWellFormed (insert key e tasks)
insert-IsWellFormed key e tasks own h = record {
  distinct = insert-Distinct key e tasks h.distinct;
  owned = λ k e' there. elim (Bool-cases (key == k)) [
    | inl hit ↦
        let same : e ≡ e' = ground (arith, lookup-insert key k e tasks) in
        let name : key ≡ k = ground (arith, eq_iff key k) in
        subst (Owned k) same (subst (λ n. Owned n e) name own)
    | inr miss ↦ h.owned k e' (ground (arith, lookup-insert key k e tasks))
  ];
}

remove-IsWellFormed :
    (key : String) (tasks : Dict TaskEntry) → IsWellFormed tasks → IsWellFormed (remove key tasks)
remove-IsWellFormed key tasks h = record {
  distinct = remove-Distinct key tasks h.distinct;
  owned = λ k e there. h.owned k e (ground (arith, lookup-remove key k tasks));
}

evict-IsWellFormed :
    (task_id : String) (r : TaskRegistry)
    → IsWellFormed r.tasks
    → IsWellFormed (evict task_id r).tasks
unfolding evict
evict-IsWellFormed task_id r h = elim (Option-cases (lookup task_id r.tasks)) [
  | inl absent ↦ rw (absent, evict) h
  | inr (e, there) ↦ rw (there, evict) (remove-IsWellFormed task_id r.tasks h)
]

evict_all-IsWellFormed :
    (ids : List String) (r : TaskRegistry)
    → IsWellFormed r.tasks
    → IsWellFormed (evict_all ids r).tasks
unfolding evict_all
evict_all-IsWellFormed [] r h = h
evict_all-IsWellFormed (task_id ∷ ids) r h =
    evict_all-IsWellFormed ids (evict task_id r) (evict-IsWellFormed task_id r h)

evict_if_needed-IsWellFormed :
    (r : TaskRegistry) → IsWellFormed r.tasks → IsWellFormed (evict_if_needed r).tasks
unfolding evict_if_needed
evict_if_needed-IsWellFormed r h = elim (Bool-cases (ltb (length r.tasks) r.max_tasks)) [
  | inl room ↦ rw room h
  | inr full ↦ rw full (
      evict_all-IsWellFormed (take (half (length (terminal_ids r.tasks))) (terminal_ids r.tasks)) r
        h)
]

pub register-IsWellFormed :
    (d : TaskDescriptor) (r : TaskRegistry)
    → IsWellFormed r.tasks
    → IsWellFormed (register d r).1.tasks
unfolding register
register-IsWellFormed d r h = elim (Option-cases (lookup d.task_id r.tasks)) [
  | inl absent ↦
      rw (absent, register)
        (insert-IsWellFormed d.task_id (new_entry d) (evict_if_needed r).tasks (refl, tt)
          (evict_if_needed-IsWellFormed r h))
  | inr (e, there) ↦ rw (there, register) h
]

All-append_one :
    (P : TaskAttempt → Type 0) (attempts : List TaskAttempt) (a : TaskAttempt)
    → All P attempts
    → P a
    → All P (attempts ++ a ∷ [])
All-append_one P [] a h p = (p, tt)
All-append_one P (b ∷ attempts) a h p = (h.0, All-append_one P attempts a h.1 p)

pub start_attempt-IsWellFormed :
    (a : TaskAttempt) (now : ℕ) (r : TaskRegistry)
    → IsWellFormed r.tasks
    → IsWellFormed (start_attempt a now r).1.tasks
unfolding start_attempt
start_attempt-IsWellFormed a now r h = elim (Option-cases (lookup a.task_id r.tasks)) [
  | inl absent ↦ rw (absent, start_attempt) h
  | inr (e, there) ↦
      let own = h.owned a.task_id e there in
      rw (there, start_attempt)
        (insert-IsWellFormed a.task_id _ r.tasks
          (own.0, All-append_one (λ b. b.task_id ≡ a.task_id) e.attempts a own.1 refl) h)
]

All-end_open :
    (key run_id : String) (o : AttemptOutcome) (f : Option FailureEnvelope) (n : String)
    (attempts : List TaskAttempt)
    → All (λ a. a.task_id ≡ key) attempts
    → All (λ a. a.task_id ≡ key) (end_open run_id o f n attempts)
unfolding end_open
All-end_open key run_id o f n [] h = tt
All-end_open key run_id o f n (a ∷ attempts) h =
    (ground (arith, h.0), All-end_open key run_id o f n attempts h.1)

pub complete_attempt-IsWellFormed :
    (task_id run_id : String) (o : AttemptOutcome) (f : Option FailureEnvelope) (n : String)
    (r : TaskRegistry)
    → IsWellFormed r.tasks
    → IsWellFormed (complete_attempt task_id run_id o f n r).tasks
unfolding complete_attempt
complete_attempt-IsWellFormed task_id run_id o f n r h =
    elim (Option-cases (lookup task_id r.tasks)) [
      | inl absent ↦ rw (absent, complete_attempt) h
      | inr (e, there) ↦
          let own = h.owned task_id e there in
          elim (Bool-cases (any_open run_id e.attempts)) [
            | inl matched ↦
                rw (there, matched, complete_attempt)
                  (insert-IsWellFormed task_id (ended_entry run_id o f n e) r.tasks
                    (own.0, All-end_open task_id run_id o f n e.attempts own.1) h)
            | inr unmatched ↦ rw (there, unmatched, complete_attempt) h
          ]
    ]

pub update_state-IsWellFormed :
    (task_id : String) (s : TaskLifecycleState) (r : TaskRegistry)
    → IsWellFormed r.tasks
    → IsWellFormed (update_state task_id s r).tasks
unfolding update_state
update_state-IsWellFormed task_id s r h = elim (Option-cases (lookup task_id r.tasks)) [
  | inl absent ↦ rw (absent, update_state) h
  | inr (e, there) ↦
      let new : TaskEntry = record e { lifecycle_state = s } in
      let h' = insert-IsWellFormed task_id new r.tasks (h.owned task_id e there) h in
      rw (there, update_state) (subst IsWellFormed (ground arith) h')
]

pub heartbeat-IsWellFormed :
    (task_id : String) (now : ℕ) (r : TaskRegistry)
    → IsWellFormed r.tasks
    → IsWellFormed (heartbeat task_id now r).tasks
unfolding heartbeat
heartbeat-IsWellFormed task_id now r h = elim (Option-cases (lookup task_id r.tasks)) [
  | inl absent ↦ rw (absent, heartbeat) h
  | inr (e, there) ↦
      rw (there, heartbeat)
        (insert-IsWellFormed task_id (beaten now e) r.tasks (h.owned task_id e there) h)
]
