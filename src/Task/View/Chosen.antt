-- ===== src/Task/View/Chosen.antt =====
-- Which task stands for an article in `summaryTaskByArticleID`.
use urwhaturead.Prelude.{
  ℕ, ◌≡◌, refl, Bool, true, false, ◌&&◌, ◌||◌, Option, none, some, List, [], ◌∷◌, any,
  if◌then◌else◌, nat_eq, nat_beq, lookup, lookup-insert, arith,
}
use urwhaturead.Prelude.Host.{Host}
use urwhaturead.Task.{SummaryTask, is_summary_task_pending, is_pollable_article_summary_task}
use urwhaturead.Task.View.{
  id_or_zero, takes_over, register, register_all, summary_task_by_article_id,
}

-- A summary task of the article.
unfoldable pub is_for : ℕ → SummaryTask → Bool
is_for id task = is_pollable_article_summary_task task && nat_beq (id_or_zero task.article_id) id

abbrev pub pending_of : Option SummaryTask → Bool
pending_of none = false
pending_of (some t) = is_summary_task_pending t.status

abbrev pub is_known : Option SummaryTask → Bool
is_known none = false
is_known (some t) = true

abbrev pub belongs_to : ℕ → Option SummaryTask → Bool
belongs_to id none = true
belongs_to id (some t) = is_for id t

-- What the map holds of an article after one more task.
abbrev replaced : Host → SummaryTask → Option SummaryTask → Option SummaryTask
replaced host task none = some task
replaced host task (some previous) = some (if takes_over host task previous then task else previous)

module _ (host : Host) (id : ℕ) where
  lookup-register :
      (m : List (ℕ × SummaryTask)) (task : SummaryTask)
      → lookup id (register host m task)
        ≡ (if is_for id task then replaced host task (lookup id m) else lookup id m)
  unfolding register is_for is_pollable_article_summary_task
  lookup-register m task = ground (
    arith,
    lookup-insert (id_or_zero task.article_id) id task m,
    nat_eq.beq_iff (id_or_zero task.article_id) id,
  )

  pending-replaced :
      (task : SummaryTask) (o : Option SummaryTask)
      → pending_of (replaced host task o) ≡ (pending_of o || is_summary_task_pending task.status)
  unfolding takes_over
  pending-replaced task none = refl
  pending-replaced task (some previous) = ground arith

  known-replaced :
      (task : SummaryTask) (o : Option SummaryTask) → is_known (replaced host task o) ≡ true
  known-replaced task none = refl
  known-replaced task (some previous) = refl

  belongs-replaced :
      (task : SummaryTask) (o : Option SummaryTask)
      → is_for id task ≡ true
      → belongs_to id o ≡ true
      → belongs_to id (replaced host task o) ≡ true
  belongs-replaced task none h k = h
  belongs-replaced task (some previous) h k = ground arith

  pending-register_all :
      (m : List (ℕ × SummaryTask)) (tasks : List SummaryTask)
      → pending_of (lookup id (register_all host m tasks)) ≡ (
          pending_of (lookup id m)
          || any (λ t. is_for id t && is_summary_task_pending t.status) tasks)
  unfolding register_all
  pending-register_all m [] = ground arith
  pending-register_all m (task ∷ tasks) = ground (
    arith,
    pending-register_all (register host m task) tasks,
    lookup-register m task,
    pending-replaced task (lookup id m),
  )

  known-register_all :
      (m : List (ℕ × SummaryTask)) (tasks : List SummaryTask)
      → is_known (lookup id (register_all host m tasks))
        ≡ (is_known (lookup id m) || any (is_for id) tasks)
  unfolding register_all
  known-register_all m [] = ground arith
  known-register_all m (task ∷ tasks) = ground (
    arith,
    known-register_all (register host m task) tasks,
    lookup-register m task,
    known-replaced task (lookup id m),
  )

  belongs-register_all :
      (m : List (ℕ × SummaryTask)) (tasks : List SummaryTask)
      → belongs_to id (lookup id m) ≡ true
      → belongs_to id (lookup id (register_all host m tasks)) ≡ true
  unfolding register_all
  belongs-register_all m [] h = h
  belongs-register_all m (task ∷ tasks) h =
      belongs-register_all (register host m task) tasks
        (ground (arith, lookup-register m task, belongs-replaced task (lookup id m)))

-- The map holds a task of an article exactly if the queue has one. It is then a task of that
-- article, and it is pending exactly if some task of the article is: a finished task never hides
-- a running one, in whatever order they stand.
pub summary_task_by_article_id_lem :
    (host : Host) (id : ℕ) (tasks : List SummaryTask)
    → (is_known (lookup id (summary_task_by_article_id host tasks)) ≡ any (is_for id) tasks)
      × (belongs_to id (lookup id (summary_task_by_article_id host tasks)) ≡ true)
      × (pending_of (lookup id (summary_task_by_article_id host tasks))
          ≡ any (λ t. is_for id t && is_summary_task_pending t.status) tasks)
unfolding summary_task_by_article_id lookup
summary_task_by_article_id_lem host id tasks = (
  known-register_all host id [] tasks,
  belongs-register_all host id [] tasks refl,
  pending-register_all host id [] tasks,
)
