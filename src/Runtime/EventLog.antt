-- ===== src/Runtime/EventLog.antt =====
-- InMemoryKernelRuntimeEventLog of agent_kernel/kernel/minimal_runtime.py.
use agent_kernel.Prelude.{
  ℕ, suc, ◌+◌, none, some, String, List, [], ◌∷◌, ◌++◌, if◌then◌else◌, ltb, length,
}
use agent_kernel.Prelude.Errors.{Exec, ok, raised, value_error}
use agent_kernel.Prelude.Dict.{Dict, lookup, insert, remove}
use agent_kernel.Prelude.Text.{concat, str}
use agent_kernel.Contracts.{RuntimeEvent, ActionCommit}

pub record EventLog : Type 0 where
  pub events_by_run : Dict (List RuntimeEvent)
  pub next_offset_by_run : Dict ℕ
  pub commit_sequence : ℕ

abbrev pub empty_log : EventLog
empty_log = record { events_by_run = []; next_offset_by_run = []; commit_sequence = 0 }

-- `_MAX_RETAINED_RUNS`
abbrev pub max_retained_runs : ℕ
max_retained_runs = 5000

-- The copy of an event that the log keeps; the schema version is not copied.
abbrev pub normalized : ℕ → RuntimeEvent → RuntimeEvent
normalized offset e = record e { commit_offset = offset; schema_version = "1" }

-- The events under consecutive offsets.
unfoldable pub stamp : ℕ → List RuntimeEvent → List RuntimeEvent
stamp offset [] = []
stamp offset (e ∷ events) = normalized offset e ∷ stamp (suc offset) events

-- The events that the log has for a run, and the offset that the next one gets.
abbrev pub events_of : String → EventLog → List RuntimeEvent
events_of run_id l = elim (lookup run_id l.events_by_run) [ none ↦ [] | some events ↦ events ]

abbrev pub next_of : String → EventLog → ℕ
next_of run_id l = elim (lookup run_id l.next_offset_by_run) [ none ↦ 1 | some n ↦ n ]

-- The oldest run is forgotten where there are too many.
unfoldable pub evict_oldest : EventLog → EventLog
evict_oldest l = elim l.events_by_run [
  | [] ↦ l
  | (oldest, events) ∷ others ↦
      if ltb max_retained_runs (length l.events_by_run)
      then record l {
        events_by_run = remove oldest l.events_by_run;
        next_offset_by_run = remove oldest l.next_offset_by_run;
      }
      else l
]

-- The log with the commit's events, before any run is forgotten.
abbrev pub appended : ActionCommit → EventLog → EventLog
appended c l = record {
  events_by_run =
      insert c.run_id (events_of c.run_id l ++ stamp (next_of c.run_id l) c.events) l.events_by_run;
  next_offset_by_run = insert c.run_id (next_of c.run_id l + length c.events) l.next_offset_by_run;
  commit_sequence = suc l.commit_sequence;
}

unfoldable pub append_action_commit : ActionCommit → Exec EventLog String
unfolding evict_oldest stamp
append_action_commit c l = elim c.events [
  | [] ↦ (raised value_error, l)
  | e ∷ events ↦
      (ok (concat ("commit-ref-" ∷ str (suc l.commit_sequence) ∷ [])), evict_oldest (appended c l))
]

-- The events behind an offset.
unfoldable pub behind : ℕ → List RuntimeEvent → List RuntimeEvent
behind offset [] = []
behind offset (e ∷ events) =
    let rest = behind offset events in if ltb offset e.commit_offset then e ∷ rest else rest

unfoldable pub load : String → ℕ → EventLog → List RuntimeEvent
unfolding behind
load run_id after_offset l = behind after_offset (events_of run_id l)

unfoldable pub cleanup_completed_run : String → EventLog → EventLog
cleanup_completed_run run_id l = record l {
  events_by_run = remove run_id l.events_by_run;
  next_offset_by_run = remove run_id l.next_offset_by_run;
}
