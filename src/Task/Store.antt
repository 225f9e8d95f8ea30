-- ===== src/Task/Store.antt =====
-- hooks/use-summary-task-actions.ts and hooks/use-summary-task-pruner.ts: the queue together with
-- `summaryTaskNotifiedRef`, the set of keys whose end has been announced.
pub mod Laws
pub mod Cleaned
use urwhaturead.Prelude.{
  Bool, not, List, [], ◌∷◌, filter, ◌==◌, Text, text_eq, ℤ, has_key, without, includes,
  if◌then◌else◌,
}
use urwhaturead.Prelude.Host.{Host}
use urwhaturead.Task.{
  SummaryTask, is_summary_task_pending, prune_summary_tasks, upsert_summary_task_state, without_key,
}
use urwhaturead.Task.Queue.{task_key}

pub record TaskStore : Type 0 where
  pub tasks : List SummaryTask
  pub notified : List Text

-- `new Set(next.map((task) => task.key))` and the loop that deletes what is not in it
abbrev pub notified_of : List SummaryTask → List Text → List Text
notified_of next = filter (λ key. has_key task_key key next)

unfoldable pub upsert_summary_task : Host → ℤ → SummaryTask → TaskStore → TaskStore
upsert_summary_task host now task s = record s {
  tasks = upsert_summary_task_state host now s.tasks task;
}

unfoldable pub remove_summary_task : Text → TaskStore → TaskStore
remove_summary_task key s = record {
  tasks = without_key key s.tasks;
  notified = without key s.notified;
}

unfoldable pub clear_completed_summary_tasks : TaskStore → TaskStore
clear_completed_summary_tasks s =
    let next = filter (λ (t : SummaryTask). is_summary_task_pending t.status) s.tasks in
    record { tasks = next; notified = notified_of next s.notified }

-- The body of the interval of `useSummaryTaskPruner`.
unfoldable pub prune_tick : Host → ℤ → TaskStore → TaskStore
prune_tick host now s =
    let next = prune_summary_tasks host now s.tasks in
    record { tasks = next; notified = notified_of next s.notified }

-- `summaryTaskNotifiedRef.current.add(key)`
unfoldable pub mark_notified : Text → TaskStore → TaskStore
mark_notified key s = record s {
  notified = if includes s.notified key then s.notified else key ∷ s.notified;
}
