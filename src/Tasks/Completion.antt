-- ===== src/Tasks/Completion.antt =====
-- The end of an attempt (complete_attempt of agent_kernel/kernel/task_manager/registry.py).
use agent_kernel.Prelude.{
  ◌≡◌, refl, Option, none, some, Bool, false, String, List, [], ◌∷◌, arith, eq_refl, Option-cases,
  inl, inr,
}
use agent_kernel.Prelude.Dict.{lookup, lookup-insert}
use agent_kernel.Contracts.{FailureEnvelope}
use agent_kernel.Tasks.Data.{AttemptOutcome, TaskAttempt, TaskRegistry}
use agent_kernel.Tasks.Registry.{complete_attempt, any_open, end_open, ended_entry}

any_open-end_open :
    (run_id : String) (o : AttemptOutcome) (f : Option FailureEnvelope) (n : String)
    (attempts : List TaskAttempt)
    → any_open run_id (end_open run_id o f n attempts) ≡ false
unfolding any_open end_open
any_open-end_open run_id o f n [] = refl
any_open-end_open run_id o f n (a ∷ attempts) =
    ground (arith, any_open-end_open run_id o f n attempts)

-- Whether a task has an attempt of the run that is open.
abbrev pub has_open : String → String → TaskRegistry → Bool
has_open task_id run_id r = elim (lookup task_id r.tasks) [
  | none ↦ false
  | some e ↦ any_open run_id e.attempts
]

-- A task without an open attempt of the run: nothing to complete.
complete_attempt_unmatched :
    (task_id run_id : String) (o : AttemptOutcome) (f : Option FailureEnvelope) (n : String)
    (r : TaskRegistry)
    → has_open task_id run_id r ≡ false
    → complete_attempt task_id run_id o f n r ≡ r
unfolding complete_attempt
complete_attempt_unmatched task_id run_id o f n r h = ground arith

has_open-complete_attempt :
    (task_id run_id : String) (o : AttemptOutcome) (f : Option FailureEnvelope) (n : String)
    (r : TaskRegistry)
    → has_open task_id run_id (complete_attempt task_id run_id o f n r) ≡ false
unfolding complete_attempt
has_open-complete_attempt task_id run_id o f n r = elim (Option-cases (lookup task_id r.tasks)) [
  | inl absent ↦ ground arith
  | inr (e, there) ↦ ground (
    arith,
    eq_refl task_id,
    any_open-end_open run_id o f n e.attempts,
    lookup-insert task_id task_id (ended_entry run_id o f n e) r.tasks,
  )
]

-- An attempt ends once: after a completion of a task's run, a second one, with whatever outcome, changes
-- nothing in the registry.
pub complete_attempt_once :
    (task_id run_id : String) (o o' : AttemptOutcome) (f f' : Option FailureEnvelope)
    (n n' : String) (r : TaskRegistry)
    → let r' = complete_attempt task_id run_id o f n r in
      complete_attempt task_id run_id o' f' n' r' ≡ r'
complete_attempt_once task_id run_id o o' f f' n n' r =
    complete_attempt_unmatched task_id run_id o' f' n' (complete_attempt task_id run_id o f n r)
      (has_open-complete_attempt task_id run_id o f n r)
