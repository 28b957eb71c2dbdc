-- ===== src/Tasks/Liveness.antt =====
-- Heartbeats and stall detection of agent_kernel/kernel/task_manager/registry.py.
use agent_kernel.Prelude.{
  ℕ, suc, ◌+◌, ◌≤◌, ◌≡◌, refl, Option, none, some, Bool, true, false, ◌&&◌, String, [], ◌∷◌,
  if◌then◌else◌, ◌==◌, arith, ltb, eq_iff, eq_refl, Option-cases, inl, inr,
}
use agent_kernel.Prelude.Dict.{Dict, lookup, lookup-insert}
use agent_kernel.Tasks.Data.{TaskEntry, TaskHealthStatus, TaskRegistry, is_active}
use agent_kernel.Tasks.Registry.{heartbeat, heartbeat_for_run, beaten, later}
use agent_kernel.Tasks.Queries.{get_health, is_late, sweep, get_stalled_tasks, get_task_id_for_run}

-- The entry of a task after a sweep.
abbrev pub swept : ℕ → TaskEntry → TaskEntry
swept now e =
    if is_active e.lifecycle_state && is_late e now
    then record e { consecutive_missed_beats = suc e.consecutive_missed_beats }
    else e

abbrev pub swept_slot : ℕ → Option TaskEntry → Option TaskEntry
swept_slot now none = none
swept_slot now (some e) = some (swept now e)

pub lookup-sweep :
    (now : ℕ) (task_id : String) (tasks : Dict TaskEntry)
    → lookup task_id (sweep now tasks).1 ≡ swept_slot now (lookup task_id tasks)
unfolding lookup sweep
lookup-sweep now task_id [] = refl
lookup-sweep now task_id ((name, e) ∷ tasks) = ground (arith, lookup-sweep now task_id tasks)

-- One more missed beat for a status that says stalled.
abbrev pub counted : Option TaskHealthStatus → Option TaskHealthStatus
counted none = none
counted (some h) =
    if h.is_stalled
    then some (record h { consecutive_missed_beats = suc h.consecutive_missed_beats })
    else some h

-- The sweep and the health of a task tell the same: a sweep adds one missed beat to exactly those tasks
-- whose health at that moment says stalled, and changes nothing else of any task's health.
pub get_health-get_stalled_tasks :
    (task_id : String) (now : ℕ) (r : TaskRegistry)
    → get_health task_id now (get_stalled_tasks now r).1 ≡ counted (get_health task_id now r)
unfolding get_health get_stalled_tasks
get_health-get_stalled_tasks task_id now r = ground (arith, lookup-sweep now task_id r.tasks)

abbrev pub says_stalled : Option TaskHealthStatus → Bool
says_stalled none = false
says_stalled (some h) = h.is_stalled

abbrev pub is_after : Option ℕ → ℕ → Bool
is_after none time = true
is_after (some last) time = ltb last time

abbrev pub last_beat : Option TaskHealthStatus → Option ℕ
last_beat none = none
last_beat (some h) = h.last_heartbeat_ms

-- After a heartbeat at `now`, a task that is there is not stalled at any time up to `now` plus its
-- timeout, and its last heartbeat is at `now` or later, and later than the one before.
pub heartbeat_holds :
    (task_id : String) (now asked_ms : ℕ) (r : TaskRegistry) (e : TaskEntry)
    → lookup task_id r.tasks ≡ some e
    → asked_ms ≤ now + e.descriptor.restart_policy.heartbeat_timeout_ms
    → (says_stalled (get_health task_id asked_ms (heartbeat task_id now r)) ≡ false)
      × (last_beat (get_health task_id asked_ms (heartbeat task_id now r))
          ≡ some (later e.last_heartbeat_ms now))
      × (now ≤ later e.last_heartbeat_ms now)
      × (is_after e.last_heartbeat_ms (later e.last_heartbeat_ms now) ≡ true)
unfolding get_health heartbeat
heartbeat_holds task_id now asked_ms r e there soon = (
  ground (arith, lookup-insert task_id task_id (beaten now e) r.tasks, eq_refl task_id),
  ground (arith, lookup-insert task_id task_id (beaten now e) r.tasks, eq_refl task_id),
  ground arith,
  ground arith,
)

-- A heartbeat of one task changes no other task's health.
pub heartbeat_others :
    (task_id other : String) (now asked_ms : ℕ) (r : TaskRegistry)
    → (task_id == other) ≡ false
    → get_health other asked_ms (heartbeat task_id now r) ≡ get_health other asked_ms r
unfolding get_health heartbeat
heartbeat_others task_id other now asked_ms r apart = elim (Option-cases (lookup task_id r.tasks)) [
  | inl absent ↦ ground arith
  | inr (e, there) ↦
      ground (arith, lookup-insert task_id other (beaten now e) r.tasks, eq_iff task_id other)
]

abbrev pub beat_of : Option String → ℕ → TaskRegistry → TaskRegistry
beat_of none now r = r
beat_of (some task_id) now r = heartbeat task_id now r

-- A heartbeat by run is a heartbeat of the task that the run is an attempt of, and none if there is no
-- such task.
pub heartbeat_for_run-heartbeat :
    (run_id : String) (now : ℕ) (r : TaskRegistry)
    → heartbeat_for_run run_id now r ≡ beat_of (get_task_id_for_run run_id r) now r
unfolding heartbeat_for_run heartbeat get_task_id_for_run
heartbeat_for_run-heartbeat run_id now r = ground arith
