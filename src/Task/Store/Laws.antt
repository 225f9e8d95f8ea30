-- ===== src/Task/Store/Laws.antt =====
-- What the operations on the task store keep, over any sequence of them.
use urwhaturead.Prelude.{
  ◌≤◌, ◌≡◌, true, not, List, ◌∷◌, all, length, length-filter, ◌==◌, Text, text_eq, ℤ, has_key,
  without, includes, arith, ◌&&◌, Bool-cases, inl, inr, HasDistinctKeys, filter-HasDistinctKeys,
  IsDistinct, filter-IsDistinct, all-filter_self, if◌then◌else◌, includes-without, has_key-drop_key,
}
use urwhaturead.Prelude.Host.{Host}
use urwhaturead.Task.{SummaryTask, is_summary_task_pending, max_summary_task_entries}
use urwhaturead.Task.Queue.{task_key, upsert_invariant, prune-HasDistinctKeys, length-prune}
use urwhaturead.Task.Store.{
  TaskStore, upsert_summary_task, remove_summary_task, clear_completed_summary_tasks, prune_tick,
  mark_notified,
}

pub record IsValid (s : TaskStore) : Type 0 where
  pub distinct_keys : HasDistinctKeys task_key s.tasks
  pub bounded : length s.tasks ≤ max_summary_task_entries
  pub distinct_notified : IsDistinct s.notified

-- One operation on the store, at some time of the clock.
pub data Step (host : Host) : TaskStore → TaskStore → Type 0 where
  upsert :
      {s : TaskStore} (now : ℤ) (task : SummaryTask)
      → Step host s (upsert_summary_task host now task s)
  remove : {s : TaskStore} (key : Text) → Step host s (remove_summary_task key s)
  clear_completed : {s : TaskStore} → Step host s (clear_completed_summary_tasks s)
  prune : {s : TaskStore} (now : ℤ) → Step host s (prune_tick host now s)
  mark : {s : TaskStore} (key : Text) → Step host s (mark_notified key s)

pub data Reach (host : Host) (s : TaskStore) : TaskStore → Type 0 where
  here : Reach host s s
  next : {t u : TaskStore} → Reach host s t → Step host t u → Reach host s u

mark-IsDistinct :
    (key : Text) (keys : List Text)
    → IsDistinct keys
    → IsDistinct (if includes keys key then keys else key ∷ keys)
mark-IsDistinct key keys d = elim (Bool-cases (includes keys key)) [
  | inl old ↦ rw old d
  | inr new ↦ rw new (new, d)
]

Step-IsValid : {host : Host} {s t : TaskStore} → Step host s t → IsValid s → IsValid t
unfolding upsert_summary_task remove_summary_task clear_completed_summary_tasks prune_tick
    mark_notified without
Step-IsValid {host} (upsert {s} now task) v =
    let (d, b, sorted, retained) = upsert_invariant host now s.tasks task v.distinct_keys in
    record { distinct_keys = d; bounded = b; distinct_notified = v.distinct_notified }
Step-IsValid (remove {s} key) v = record {
  distinct_keys = filter-HasDistinctKeys task_key (λ t. not (t.key == key)) s.tasks v.distinct_keys;
  bounded =
      omega (arith, length-filter (λ (t : SummaryTask). not (t.key == key)) s.tasks, v.bounded);
  distinct_notified = filter-IsDistinct (λ k. not (k == key)) s.notified v.distinct_notified;
}
Step-IsValid (clear_completed {s}) v = record {
  distinct_keys =
      filter-HasDistinctKeys task_key (λ t. is_summary_task_pending t.status) s.tasks
        v.distinct_keys;
  bounded = omega (
    arith,
    length-filter (λ (t : SummaryTask). is_summary_task_pending t.status) s.tasks,
    v.bounded,
  );
  distinct_notified = filter-IsDistinct _ s.notified v.distinct_notified;
}
Step-IsValid {host} (prune {s} now) v = record {
  distinct_keys = prune-HasDistinctKeys host now s.tasks v.distinct_keys;
  bounded = length-prune host now s.tasks;
  distinct_notified = filter-IsDistinct _ s.notified v.distinct_notified;
}
Step-IsValid (mark {s} key) v = record {
  distinct_keys = v.distinct_keys;
  bounded = v.bounded;
  distinct_notified = mark-IsDistinct key s.notified v.distinct_notified;
}

-- From a valid store, whatever the operations and the clock, the keys differ, at most 80 tasks are
-- held and no key is announced twice in the set.
pub Reach-IsValid : {host : Host} {s t : TaskStore} → IsValid s → Reach host s t → IsValid t
Reach-IsValid v here = v
Reach-IsValid v (next r st) = Step-IsValid st (Reach-IsValid v r)

-- Every announced key is the key of a listed task.
abbrev pub IsCovered : TaskStore → Type 0
IsCovered s = all (λ key. has_key task_key key s.tasks) s.notified ≡ true

-- After the minute's tick, and after clearing, no announced key is without a task.
pub cleaned-IsCovered :
    (host : Host) (now : ℤ) (s : TaskStore)
    → IsCovered (prune_tick host now s) × IsCovered (clear_completed_summary_tasks s)
unfolding prune_tick clear_completed_summary_tasks
cleaned-IsCovered host now s = (all-filter_self _ s.notified, all-filter_self _ s.notified)

-- A removed task and its announcement are gone, and under every other key both sets are as before.
pub remove_lem :
    (key other : Text) (s : TaskStore)
    → (has_key task_key other (remove_summary_task key s).tasks
        ≡ (not (key == other) && has_key task_key other s.tasks))
      × (includes (remove_summary_task key s).notified other
          ≡ (not (key == other) && includes s.notified other))
unfolding remove_summary_task
remove_lem key other s =
    (has_key-drop_key task_key key other s.tasks, includes-without key other s.notified)
