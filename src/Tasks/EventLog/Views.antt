-- ===== src/Tasks/EventLog/Views.antt =====
-- What of a task the events of agent_kernel/kernel/task_manager/event_log.py carry, and what each method of the
-- registry does to it.
use agent_kernel.Prelude.{
  ◌≡◌, refl, ◌∙◌, ap, arith, suc, String, List, [], ◌∷◌, Option, none, some, length, map,
}
use agent_kernel.Prelude.Dict.{Dict, lookup, insert, remove}
use agent_kernel.Tasks.Data.{TaskAttempt, TaskEntry, TaskRegistry}
use agent_kernel.Tasks.Registry.{evict, evict_all, terminal_ids}
use agent_kernel.Tasks.EventLog.{restored_descriptor}

-- An attempt without its end's time, failure and reflection.
abbrev pub bare_attempt : TaskAttempt → TaskAttempt
bare_attempt a = record a { completed_at = none; failure = none; reflection_output = none }

-- A task without its heartbeats, and with the default for the cap of its backoff.
abbrev pub view : TaskEntry → TaskEntry
view e = record e {
  descriptor = restored_descriptor e.descriptor;
  attempts = map bare_attempt e.attempts;
  last_heartbeat_ms = none;
  consecutive_missed_beats = 0;
}

abbrev pub views : Dict TaskEntry → Dict TaskEntry
views [] = []
views ((task_id, e) ∷ items) = (task_id, view e) ∷ views items

abbrev pub view_of : Option TaskEntry → Option TaskEntry
view_of none = none
view_of (some e) = some (view e)

pub lookup-views : (k : String) (t : Dict TaskEntry) → lookup k (views t) ≡ view_of (lookup k t)
unfolding lookup
lookup-views k [] = refl
lookup-views k ((j, e) ∷ t) = ground (arith, lookup-views k t)

pub views-insert :
    (k : String) (e : TaskEntry) (t : Dict TaskEntry)
    → views (insert k e t) ≡ insert k (view e) (views t)
unfolding insert
views-insert k e [] = refl
views-insert k e ((j, f) ∷ t) = ground (arith, views-insert k e t)

views-remove : (k : String) (t : Dict TaskEntry) → views (remove k t) ≡ remove k (views t)
unfolding remove
views-remove k [] = refl
views-remove k ((j, f) ∷ t) = ground (arith, views-remove k t)

remove-absent : (k : String) (t : Dict TaskEntry) → lookup k t ≡ none → remove k t ≡ t
unfolding lookup remove
remove-absent k [] h = refl
remove-absent k ((j, e) ∷ t) h = ground (arith, remove-absent k t, h)

pub length-views : (t : Dict TaskEntry) → length (views t) ≡ length t
length-views [] = refl
length-views ((j, e) ∷ t) = ap suc (length-views t)

pub terminal_ids-views : (t : Dict TaskEntry) → terminal_ids (views t) ≡ terminal_ids t
unfolding terminal_ids
terminal_ids-views [] = refl
terminal_ids-views ((j, e) ∷ t) = ground (arith, terminal_ids-views t)

-- The tasks after an eviction.
abbrev pub remove_all : List String → Dict TaskEntry → Dict TaskEntry
remove_all [] t = t
remove_all (k ∷ ids) t = remove_all ids (remove k t)

pub evict_all-tasks :
    (ids : List String) (r : TaskRegistry) → (evict_all ids r).tasks ≡ remove_all ids r.tasks
unfolding evict_all evict
evict_all-tasks [] r = refl
evict_all-tasks (k ∷ ids) r =
    ground (arith, evict_all-tasks ids (evict k r), remove-absent k r.tasks)

pub views-remove_all :
    (ids : List String) (t : Dict TaskEntry) → views (remove_all ids t) ≡ remove_all ids (views t)
views-remove_all [] t = refl
views-remove_all (k ∷ ids) t =
    views-remove_all ids (remove k t) ∙ ap (remove_all ids) (views-remove k t)
