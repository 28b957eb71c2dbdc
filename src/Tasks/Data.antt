-- ===== src/Tasks/Data.antt =====
-- agent_kernel/kernel/task_manager/contracts.py, and the state of TaskRegistry in registry.py.
use agent_kernel.Prelude.{ℕ, Option, none, String, List, [], Bool, true, false}
use agent_kernel.Prelude.Dict.{Dict}
use agent_kernel.Prelude.Json.{Fields}
use agent_kernel.Contracts.{FailureEnvelope}

pub data TaskLifecycleState : Type 0 where
  pending running completed failed : TaskLifecycleState
  restarting reflecting escalated aborted : TaskLifecycleState

pub data ExhaustedPolicy : Type 0 where
  reflect escalate abort : ExhaustedPolicy

pub data TaskKind : Type 0 where
  root plan_step parallel_branch speculative_candidate : TaskKind

pub data AttemptOutcome : Type 0 where
  completed failed cancelled : AttemptOutcome

pub record TaskRestartPolicy : Type 0 where
  pub max_attempts : ℕ
  pub backoff_base_ms : ℕ
  pub max_backoff_ms : ℕ
  pub on_exhausted : ExhaustedPolicy
  pub heartbeat_timeout_ms : ℕ

pub record TaskDescriptor : Type 0 where
  pub task_id : String
  pub session_id : String
  pub task_kind : TaskKind
  pub goal_description : String
  pub parent_task_id : Option String
  pub dependency_task_ids : List String
  pub restart_policy : TaskRestartPolicy
  pub metadata : Fields

pub record TaskAttempt : Type 0 where
  pub attempt_id : String
  pub task_id : String
  pub run_id : String
  pub attempt_seq : ℕ
  pub started_at : String
  pub completed_at : Option String
  pub outcome : Option AttemptOutcome
  pub failure : Option FailureEnvelope
  pub reflection_output : Option String

pub record TaskHealthStatus : Type 0 where
  pub task_id : String
  pub lifecycle_state : TaskLifecycleState
  pub current_run_id : Option String
  pub attempt_seq : ℕ
  pub max_attempts : ℕ
  pub last_heartbeat_ms : Option ℕ
  pub consecutive_missed_beats : ℕ
  pub is_stalled : Bool

-- `_TaskEntry`
pub record TaskEntry : Type 0 where
  pub descriptor : TaskDescriptor
  pub lifecycle_state : TaskLifecycleState
  pub attempts : List TaskAttempt
  pub last_heartbeat_ms : Option ℕ
  pub consecutive_missed_beats : ℕ

abbrev pub new_entry : TaskDescriptor → TaskEntry
new_entry d = record {
  descriptor = d;
  lifecycle_state = TaskLifecycleState.pending;
  attempts = [];
  last_heartbeat_ms = none;
  consecutive_missed_beats = 0;
}

-- What `_emit` hands to the event appender, whose exceptions it swallows.
pub data TaskEvent : Type 0 where
  registered : TaskDescriptor → TaskEvent
  attempt_started : TaskAttempt → TaskEvent
  attempt_ended : String → String → AttemptOutcome → TaskEvent
  state_updated : String → TaskLifecycleState → TaskEvent

-- `TaskRegistry`, with the events in the order of their emission.
pub record TaskRegistry : Type 0 where
  pub tasks : Dict TaskEntry
  pub session_index : Dict (List String)
  pub run_index : Dict String
  pub max_tasks : ℕ
  pub events : List TaskEvent

abbrev pub is_terminal : TaskLifecycleState → Bool
is_terminal TaskLifecycleState.completed = true
is_terminal TaskLifecycleState.aborted = true
is_terminal TaskLifecycleState.escalated = true
is_terminal _ = false

abbrev pub is_active : TaskLifecycleState → Bool
is_active TaskLifecycleState.running = true
is_active TaskLifecycleState.restarting = true
is_active _ = false

abbrev pub is_completed : AttemptOutcome → Bool
is_completed AttemptOutcome.completed = true
is_completed _ = false
