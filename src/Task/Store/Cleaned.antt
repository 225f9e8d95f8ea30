-- ===== src/Task/Store/Cleaned.antt =====
-- What the removing operations on the task store leave.
use urwhaturead.Prelude.{
  ◌≡◌, refl, ap, ◌∙◌, Bool, not, ◌&&◌, Option, none, is_some, List, [], ◌∷◌, filter, inl, inr,
  Bool-cases, ◌==◌, if◌then◌else◌, Text, text_eq, ℤ, at_key, keep_if, has_key, HasDistinctKeys,
  at_key-filter, at_key-absent, take_all, length-filter, includes, includes-filter,
  includes-without, arith,
}
use urwhaturead.Prelude.Host.{Host}
use urwhaturead.Task.{
  SummaryTask, is_summary_task_pending, is_retained, prune_summary_tasks, without_key,
  max_summary_task_entries,
}
use urwhaturead.Task.Queue.{task_key, prune-eq-take, at_key-without_key, without_key-absent}
use urwhaturead.Task.Store.{
  TaskStore, remove_summary_task, clear_completed_summary_tasks, prune_tick, notified_of,
}
use urwhaturead.Task.Store.Laws.{IsValid, Reach, Reach-IsValid}

has_key-at_key :
    (key : Text) (tasks : List SummaryTask)
    → has_key task_key key tasks ≡ is_some (at_key task_key key tasks)
has_key-at_key key [] = refl
has_key-at_key key (t ∷ ts) = ground (arith, has_key-at_key key ts)

-- The queue and the announced keys that a filter of the tasks leaves.
notified-filter :
    (p : SummaryTask → Bool) (tasks : List SummaryTask) (notified : List Text) (key : Text)
    → HasDistinctKeys task_key tasks
    → includes (notified_of (filter p tasks) notified) key
      ≡ (is_some (keep_if p (at_key task_key key tasks)) && includes notified key)
notified-filter p tasks notified key d =
    includes-filter (λ k. has_key task_key k (filter p tasks)) notified key
    ∙ ap (λ (b : Bool). b && includes notified key)
        (has_key-at_key key (filter p tasks) ∙ ap is_some (at_key-filter task_key key p tasks d))

at_key-remove :
    (key other : Text) (tasks : List SummaryTask)
    → at_key task_key other (without_key key tasks)
      ≡ (if key == other then none else at_key task_key other tasks)
at_key-remove key other tasks = elim (Bool-cases (key == other)) [
  | inl e ↦
      rw (e, ← (text_eq.beq_iff key other).0 e)
        (at_key-absent task_key key (without_key key tasks) (without_key-absent key tasks))
  | inr e ↦ rw e (at_key-without_key key other tasks e)
]

prune-eq-filter :
    (host : Host) (now : ℤ) (s : TaskStore)
    → IsValid s
    → prune_summary_tasks host now s.tasks ≡ filter (is_retained host now) s.tasks
prune-eq-filter host now s v =
    prune-eq-take host now s.tasks
    ∙ take_all max_summary_task_entries (filter (is_retained host now) s.tasks)
        (omega (arith, length-filter (is_retained host now) s.tasks, v.bounded))

-- The task under a key and whether the key is announced, in a store.
abbrev pub Holds : TaskStore → Text → Option SummaryTask → Bool → Type 0
Holds s key task told = (at_key task_key key s.tasks ≡ task) × (includes s.notified key ≡ told)

-- In a store that any operations have made from a valid one: clearing keeps under each key the task
-- only if it is pending, and the minute's tick only if it is retained, and both keep a key announced
-- exactly if it was and they keep its task; removing a key takes out its task and its announcement,
-- and leaves every other key as it is.
pub cleaning_lem :
    {host : Host} {start s : TaskStore} (now : ℤ) (removed key : Text)
    → IsValid start
    → Reach host start s
    → let task = at_key task_key key s.tasks in
      let told = includes s.notified key in
      let pending = keep_if (λ t. is_summary_task_pending t.status) task in
      let retained = keep_if (is_retained host now) task in
      Holds (clear_completed_summary_tasks s) key pending (is_some pending && told)
      × Holds (prune_tick host now s) key retained (is_some retained && told)
      × Holds
          (remove_summary_task removed s)
          key
          (if removed == key then none else task)
          (not (removed == key) && told)
unfolding clear_completed_summary_tasks prune_tick remove_summary_task
cleaning_lem {host} {start} {s} now removed key valid reach =
    let v : IsValid s = Reach-IsValid valid reach in
    let is_pending : SummaryTask → Bool = λ t. is_summary_task_pending t.status in
    (
      (
        at_key-filter task_key key is_pending s.tasks v.distinct_keys,
        notified-filter is_pending s.tasks s.notified key v.distinct_keys,
      ),
      rw (prune-eq-filter host now s v) (
        at_key-filter task_key key (is_retained host now) s.tasks v.distinct_keys,
        notified-filter (is_retained host now) s.tasks s.notified key v.distinct_keys,
      ),
      (at_key-remove removed key s.tasks, includes-without removed key s.notified),
    )
