-- ===== src/Task/View.antt =====
-- hooks/use-summary-task-view.ts: what the task strip and the reader show of the queue.
pub mod Chosen
pub mod Strip
use urwhaturead.Prelude.{
  ℕ, ◌+◌, Bool, true, false, not, ◌&&◌, ◌||◌, Option, none, some, List, [], ◌∷◌, any, filter, take,
  length, ltb, leb_ℤ, if◌then◌else◌, nat_eq, includes, lookup, insert, ℤ, pos, sort, by_desc,
  lexicographic, nat_beq,
}
use urwhaturead.Prelude.Host.{Host}
use urwhaturead.Task.{
  SummaryTask, SummaryTaskStatus, SummaryTaskKind, is_article_kind, positive_id,
  is_summary_task_pending, summary_task_status_priority, parse_timestamp,
  is_pollable_article_summary_task,
}

-- `typeof task.articleID === 'number' ? task.articleID : 0`
abbrev pub id_or_zero : Option ℕ → ℕ
id_or_zero none = 0
id_or_zero (some n) = n

module _ (host : Host) where
  -- Whether a later task of an article replaces the one that the map holds.
  unfoldable pub takes_over : SummaryTask → SummaryTask → Bool
  takes_over task previous =
      let gap_positive =
        is_summary_task_pending task.status && not (is_summary_task_pending previous.status) in
      let gap_negative =
        not (is_summary_task_pending task.status) && is_summary_task_pending previous.status in
      if gap_positive
      then true
      else if gap_negative
      then false
      else if ltb (summary_task_status_priority previous.status)
          (summary_task_status_priority task.status)
      then true
      else leb_ℤ (parse_timestamp host previous.updated_at) (parse_timestamp host task.updated_at)

  -- One round of the loop that fills the map.
  unfoldable pub register : List (ℕ × SummaryTask) → SummaryTask → List (ℕ × SummaryTask)
  register m task =
      let id = id_or_zero task.article_id in
      if not (is_article_kind task.kind) || not (positive_id task.article_id)
      then m
      else elim (lookup id m) [
        | none ↦ insert id task m
        | some previous ↦ if takes_over task previous then insert id task m else m
      ]

  unfoldable pub register_all : List (ℕ × SummaryTask) → List SummaryTask → List (ℕ × SummaryTask)
  register_all m [] = m
  register_all m (task ∷ tasks) = register_all (register m task) tasks

  unfoldable pub summary_task_by_article_id : List SummaryTask → List (ℕ × SummaryTask)
  summary_task_by_article_id tasks = register_all [] tasks

  -- `selectedArticleID ? map.get(selectedArticleID) ?? null : null`
  unfoldable pub selected_summary_task : Option ℕ → List SummaryTask → Option SummaryTask
  selected_summary_task selected tasks =
      if positive_id selected
      then lookup (id_or_zero selected) (summary_task_by_article_id tasks)
      else none

  abbrev pub strip_order : SummaryTask → SummaryTask → ℤ
  strip_order = lexicographic (by_desc (λ t. pos (summary_task_status_priority t.status))) (
      lexicographic (by_desc (λ t. parse_timestamp host t.updated_at))
        (by_desc (λ t. pos (id_or_zero t.article_id))))

-- Whether a task belongs to the sources of the filter.
unfoldable pub in_scope : List ℕ → List ℕ → SummaryTask → Bool
in_scope source_ids visible_ids task =
    let of_briefing : Bool = elim task.source_ids [
      | none ↦ false
      | some ids ↦ any (λ id. includes source_ids id) ids
    ] in
    let of_article : Bool =
      if positive_id task.source_id
      then includes source_ids (id_or_zero task.source_id)
      else elim task.article_id [ none ↦ false | some id ↦ includes visible_ids id ] in
    if is_article_kind task.kind then of_article else of_briefing

unfoldable pub scoped_summary_tasks : List ℕ → List ℕ → List SummaryTask → List SummaryTask
scoped_summary_tasks [] visible_ids tasks = tasks
scoped_summary_tasks (id ∷ ids) visible_ids tasks = filter (in_scope (id ∷ ids) visible_ids) tasks

-- The strip shows eight tasks.
unfoldable pub visible_summary_tasks : Host → List SummaryTask → List SummaryTask
visible_summary_tasks host scoped = take 8 (sort (strip_order host) scoped)

pub record SummaryTaskStats : Type 0 where
  pub running : ℕ
  pub queued : ℕ
  pub failed : ℕ
  pub succeeded : ℕ

-- One round of the loop that counts.
unfoldable pub count_status : SummaryTaskStatus → SummaryTaskStats → SummaryTaskStats
count_status SummaryTaskStatus.running s = record s { running = s.running + 1 }
count_status SummaryTaskStatus.queued s = record s { queued = s.queued + 1 }
count_status SummaryTaskStatus.failed s = record s { failed = s.failed + 1 }
count_status SummaryTaskStatus.succeeded s = record s { succeeded = s.succeeded + 1 }
count_status SummaryTaskStatus.idle s = s

unfoldable pub count_all : SummaryTaskStats → List SummaryTask → SummaryTaskStats
count_all s [] = s
count_all s (task ∷ tasks) = count_all (count_status task.status s) tasks

unfoldable pub summary_task_stats : List SummaryTask → SummaryTaskStats
summary_task_stats = count_all (record { running = 0; queued = 0; failed = 0; succeeded = 0 })

unfoldable pub pending_article_summary_tasks : List SummaryTask → List SummaryTask
pending_article_summary_tasks =
    filter (λ t. is_pollable_article_summary_task t && is_summary_task_pending t.status)
