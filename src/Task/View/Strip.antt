-- ===== src/Task/View/Strip.antt =====
-- The strip of visible tasks and its counts.
use urwhaturead.Prelude.{
  ℕ, zero, suc, min, lexicographic, ◌-ℤ◌, pos, ℤ, ap, refl, ◌++◌, by_asc, by_desc, then_by, take,
  length-sort, sort-perm, IsSorted, ◌+◌, ◌≡◌, ◌∙◌, Bool, true, false, List, [], ◌∷◌, drop, length,
  length-take, All, arith, if◌then◌else◌, sort, Keeps, IsSorted-cut, sort-IsSorted,
  IsWeakOrder-IsComparator, lexicographic-IsWeakOrder, by_desc-IsWeakOrder, IsComparator,
}
use urwhaturead.Prelude.Host.{Host}
use mathlib.Core.List.{Perm}
use mathlib.Core.Path.{subst}
use urwhaturead.Task.{SummaryTask, SummaryTaskStatus, summary_task_status_priority, parse_timestamp}
use urwhaturead.Task.Queue.{take-IsSorted}
use urwhaturead.Task.View.{
  strip_order, id_or_zero, visible_summary_tasks, SummaryTaskStats, count_status, count_all,
  summary_task_stats,
}

strip_order-IsComparator : (host : Host) → IsComparator (strip_order host)
strip_order-IsComparator host = IsWeakOrder-IsComparator (
    lexicographic-IsWeakOrder (by_desc-IsWeakOrder _)
      (lexicographic-IsWeakOrder (by_desc-IsWeakOrder _) (by_desc-IsWeakOrder _)))

-- Where the strip puts a status, the first first.
abbrev pub place : SummaryTaskStatus → ℕ
place SummaryTaskStatus.running = 0
place SummaryTaskStatus.queued = 1
place SummaryTaskStatus.failed = 2
place SummaryTaskStatus.succeeded = 3
place SummaryTaskStatus.idle = 4

-- Running tasks first, then those that are queued, failed, succeeded and idle; among equals the later
-- change first, then the higher article id.
abbrev pub shown_order : Host → SummaryTask → SummaryTask → ℤ
shown_order host = lexicographic (by_asc (λ t. pos (place t.status))) (
    lexicographic (by_desc (λ t. parse_timestamp host t.updated_at))
      (by_desc (λ t. pos (id_or_zero t.article_id))))

place-agree :
    (a b : SummaryTaskStatus)
    → pos (summary_task_status_priority b) -ℤ pos (summary_task_status_priority a)
      ≡ pos (place a) -ℤ pos (place b)
unfolding summary_task_status_priority ◌-ℤ◌
place-agree a b = ground arith

order-agree : (host : Host) → strip_order host ≡ shown_order host
order-agree host i a b = then_by (place-agree a.status b.status i) (
    lexicographic (by_desc (λ (t : SummaryTask). parse_timestamp host t.updated_at))
      (by_desc (λ (t : SummaryTask). pos (id_or_zero t.article_id))) a b)

append-take-drop : (n : ℕ) (xs : List SummaryTask) → take n xs ++ drop n xs ≡ xs
append-take-drop zero xs = refl
append-take-drop (suc n) [] = refl
append-take-drop (suc n) (x ∷ xs) = ap (λ (ys : List SummaryTask). x ∷ ys) (append-take-drop n xs)

IsSorted-shown :
    (host : Host) (scoped : List SummaryTask)
    → IsSorted (shown_order host) (sort (strip_order host) scoped)
IsSorted-shown host scoped =
    subst
      (λ (order : SummaryTask → SummaryTask → ℤ). IsSorted order (sort (strip_order host) scoped))
      (order-agree host) (sort-IsSorted (strip_order host) (strip_order-IsComparator host) scoped)

-- The strip shows eight tasks, or all if there are fewer: running ones first, then those that are
-- queued, failed, succeeded and idle, among equals the ones that changed later, then the higher
-- article ids. They and some hidden tasks are the given tasks, each as often as it was given, and no
-- hidden task comes before a shown one in this order.
pub visible_summary_tasks_lem :
    (host : Host) (scoped : List SummaryTask)
    → let shown = visible_summary_tasks host scoped in
      (length shown ≡ min 8 (length scoped))
      × IsSorted (shown_order host) shown
      × (hidden : List SummaryTask) × Perm (shown ++ hidden) scoped
      × All (λ t. All (Keeps (shown_order host) t) hidden) shown
unfolding visible_summary_tasks
visible_summary_tasks_lem host scoped =
    let sorted : List SummaryTask = sort (strip_order host) scoped in
    (
      length-take 8 sorted ∙ ap (min 8) (length-sort (strip_order host) scoped),
      take-IsSorted (shown_order host) 8 sorted (IsSorted-shown host scoped),
      drop 8 sorted,
      rw (append-take-drop 8 sorted) (sort-perm (strip_order host) scoped),
      IsSorted-cut (shown_order host) 8 sorted (IsSorted-shown host scoped),
    )

abbrev same_status : SummaryTaskStatus → SummaryTaskStatus → Bool
same_status SummaryTaskStatus.running SummaryTaskStatus.running = true
same_status SummaryTaskStatus.queued SummaryTaskStatus.queued = true
same_status SummaryTaskStatus.failed SummaryTaskStatus.failed = true
same_status SummaryTaskStatus.succeeded SummaryTaskStatus.succeeded = true
same_status SummaryTaskStatus.idle SummaryTaskStatus.idle = true
same_status _ _ = false

-- How many tasks have the status.
abbrev pub number_of : SummaryTaskStatus → List SummaryTask → ℕ
number_of status [] = 0
number_of status (t ∷ ts) = (if same_status t.status status then 1 else 0) + number_of status ts

abbrev counts_of : SummaryTaskStats → List SummaryTask → SummaryTaskStats
counts_of s tasks = record {
  running = s.running + number_of SummaryTaskStatus.running tasks;
  queued = s.queued + number_of SummaryTaskStatus.queued tasks;
  failed = s.failed + number_of SummaryTaskStatus.failed tasks;
  succeeded = s.succeeded + number_of SummaryTaskStatus.succeeded tasks;
}

count_all-eq :
    (s : SummaryTaskStats) (tasks : List SummaryTask) → count_all s tasks ≡ counts_of s tasks
unfolding count_all count_status
count_all-eq s [] = ground arith
count_all-eq s (t ∷ ts) = count_all-eq (count_status t.status s) ts ∙ ground arith

-- Each of the four counts is the number of tasks in its status.
pub summary_task_stats_lem :
    (tasks : List SummaryTask)
    → ((summary_task_stats tasks).running ≡ number_of SummaryTaskStatus.running tasks)
      × ((summary_task_stats tasks).queued ≡ number_of SummaryTaskStatus.queued tasks)
      × ((summary_task_stats tasks).failed ≡ number_of SummaryTaskStatus.failed tasks)
      × ((summary_task_stats tasks).succeeded ≡ number_of SummaryTaskStatus.succeeded tasks)
unfolding summary_task_stats
summary_task_stats_lem tasks =
    ground
      (arith, count_all-eq (record { running = 0; queued = 0; failed = 0; succeeded = 0 }) tasks)
