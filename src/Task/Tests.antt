-- ===== src/Task/Tests.antt =====
-- Concrete runs of the task queue, its views and its poll.
use urwhaturead.Prelude.Decimal.{decimal}
use urwhaturead.Prelude.{is_white_space}
use urwhaturead.Prelude.{trim_start}
use urwhaturead.Prelude.{
  min, not, is_some, ◌++◌, ℕ, ◌≡◌, refl, map, ◌↔◌, ◌≤◌, true, ◌&&◌, none, some, List, [], ◌∷◌,
  length, all, any, if◌then◌else◌, ◌==◌, All, Text, codes, text_eq, nat_eq, text_beq, pos, trim,
  join, lookup, includes, HasDistinctKeys, at_key, keep_if, IsSorted, Keeps, arith,
}
use urwhaturead.Prelude.Samples.{small_host}
use urwhaturead.Task.{
  SummaryTask, SummaryTaskStatus, running, queued, succeeded, failed, article_summary,
  feed_briefing, normalize_summary_task_status, normalize_model, build_summary_task_key,
  build_feed_briefing_task_key, resolve_feed_briefing_scope_label, is_same_model,
  upsert_summary_task_state, max_summary_task_entries, newest_first, is_retained,
  summary_task_status_label, summary_task_kind_label, is_summary_task_pending,
  is_pollable_article_summary_task,
}
use urwhaturead.Task.Queue.{task_key, upsert_invariant, upsert-at_key}
use urwhaturead.Task.Keys.{build_summary_task_key-eq}
use urwhaturead.Task.Store.{
  TaskStore, clear_completed_summary_tasks, prune_tick, remove_summary_task, upsert_summary_task,
  mark_notified,
}
use urwhaturead.Task.Store.Laws.{IsValid, Reach, here, next, upsert, mark}
use urwhaturead.Task.Store.Cleaned.{Holds, cleaning_lem}
use mathlib.Core.List.{Perm}
use urwhaturead.Task.View.{
  summary_task_by_article_id, scoped_summary_tasks, in_scope, visible_summary_tasks,
  pending_article_summary_tasks,
}
use urwhaturead.Task.View.Chosen.{
  is_known, is_for, belongs_to, pending_of, summary_task_by_article_id_lem,
}
use urwhaturead.Task.View.Strip.{shown_order, visible_summary_tasks_lem}

abbrev pub task_of : ℕ → SummaryTaskStatus → Text → SummaryTask
task_of id status updated_at = record {
  kind = article_summary;
  key = id ∷ [];
  article_id = some id;
  source_ids = none;
  title = codes "title";
  source_name = codes "source";
  source_id = some 3;
  model = codes "m";
  status = status;
  updated_at = updated_at;
  error = none;
}

abbrev briefing_task : SummaryTask
briefing_task = record {
  kind = feed_briefing;
  key = codes "briefing";
  article_id = none;
  source_ids = some (2 ∷ 5 ∷ []);
  title = codes "title";
  source_name = codes "source";
  source_id = none;
  model = codes "m";
  status = succeeded;
  updated_at = codes "900";
  error = none;
}

abbrev pub tasks : List SummaryTask
tasks = task_of 7 running (codes "1000") ∷ briefing_task ∷ task_of 8 succeeded (codes "500") ∷ []

labels :
    (summary_task_status_label running ≡ codes "生成中")
    × (summary_task_kind_label feed_briefing ≡ codes "AI 速览")
unfolding summary_task_status_label summary_task_kind_label
labels = (refl, refl)

status_of_reply : normalize_summary_task_status small_host (codes " Queued ") ≡ queued
unfolding normalize_summary_task_status normalize_model trim text_beq trim_start is_white_space
status_of_reply = refl

briefing_key :
    build_feed_briefing_task_key small_host (codes "M1") (4 ∷ 5 ∷ []) [] (codes "ai") true []
    ≡ codes "briefing|m1|4,5|-|ai|unread:1|-"
unfolding build_feed_briefing_task_key normalize_model trim join trim_start is_white_space decimal
briefing_key = refl

scope_label :
    resolve_feed_briefing_scope_label small_host (4 ∷ []) ((4, codes "site") ∷ []) [] ≡ codes "site"
unfolding resolve_feed_briefing_scope_label lookup
scope_label = refl

scoped_of_tasks : map task_key (scoped_summary_tasks (5 ∷ []) [] tasks) ≡ codes "briefing" ∷ []
unfolding scoped_summary_tasks in_scope includes
scoped_of_tasks = refl

pending_of_tasks : length (pending_article_summary_tasks tasks) ≡ 1
unfolding pending_article_summary_tasks is_summary_task_pending is_pollable_article_summary_task
pending_of_tasks = refl

distinct_tasks : HasDistinctKeys task_key tasks
unfolding text_beq
distinct_tasks = (refl, (refl, (refl, tt)))

upsert_invariant_example :
    HasDistinctKeys task_key
      (upsert_summary_task_state small_host (pos 2000) tasks (task_of 8 failed (codes "1500")))
    × (length
          (upsert_summary_task_state small_host (pos 2000) tasks (task_of 8 failed (codes "1500")))
        ≤ max_summary_task_entries)
    × IsSorted
        (newest_first small_host)
        (upsert_summary_task_state small_host (pos 2000) tasks (task_of 8 failed (codes "1500")))
    × (all
          (is_retained small_host (pos 2000))
          (upsert_summary_task_state small_host (pos 2000) tasks (task_of 8 failed (codes "1500")))
        ≡ true)
upsert_invariant_example =
    upsert_invariant small_host (pos 2000) tasks (task_of 8 failed (codes "1500")) distinct_tasks

upsert-at_key_example :
    at_key task_key
      (7 ∷ [])
      (upsert_summary_task_state small_host (pos 2000) tasks (task_of 8 failed (codes "1500")))
    ≡ keep_if (is_retained small_host (pos 2000)) (
        if ◌==◌ {A = Text} (8 ∷ []) (7 ∷ [])
        then some (task_of 8 failed (codes "1500"))
        else at_key task_key (7 ∷ []) tasks)
upsert-at_key_example =
    upsert-at_key small_host (pos 2000) tasks (task_of 8 failed (codes "1500")) distinct_tasks
      (omega arith) (7 ∷ [])

build_summary_task_key-eq_example :
    (build_summary_task_key small_host 7 (codes "M1")
      ≡ build_summary_task_key small_host 7 (codes " m1"))
    ↔ (◌≡◌ {A = ℕ} 7 7 × (is_same_model small_host (codes "M1") (codes " m1") ≡ true))
build_summary_task_key-eq_example =
    build_summary_task_key-eq small_host 7 7 (codes "M1") (codes " m1")

abbrev store : TaskStore
store = record { tasks = tasks; notified = (8 ∷ []) ∷ (9 ∷ []) ∷ [] }

store-IsValid : IsValid store
unfolding includes text_beq
store-IsValid = record {
  distinct_keys = distinct_tasks;
  bounded = omega arith;
  distinct_notified = (refl, (refl, tt));
}

abbrev marked : TaskStore
marked =
    mark_notified (7 ∷ [])
      (upsert_summary_task small_host (pos 2000) (task_of 8 failed (codes "1500")) store)

Reach-marked : Reach small_host store marked
Reach-marked =
    next (next here (upsert (pos 2000) (task_of 8 failed (codes "1500")))) (mark (7 ∷ []))

cleaning_lem_example :
    let task = at_key task_key (8 ∷ []) marked.tasks in
    let told = includes marked.notified (8 ∷ []) in
    let pending = keep_if (λ t. is_summary_task_pending t.status) task in
    let retained = keep_if (is_retained small_host (pos 9000)) task in
    Holds (clear_completed_summary_tasks marked) (8 ∷ []) pending (is_some pending && told)
    × Holds (prune_tick small_host (pos 9000) marked) (8 ∷ []) retained (is_some retained && told)
    × Holds
        (remove_summary_task (7 ∷ []) marked)
        (8 ∷ [])
        (if ◌==◌ {A = Text} (7 ∷ []) (8 ∷ []) then none else task)
        (not (◌==◌ {A = Text} (7 ∷ []) (8 ∷ [])) && told)
cleaning_lem_example = cleaning_lem (pos 9000) (7 ∷ []) (8 ∷ []) store-IsValid Reach-marked

summary_task_by_article_id_lem_example :
    (is_known (lookup 8 (summary_task_by_article_id small_host tasks)) ≡ any (is_for 8) tasks)
    × (belongs_to 8 (lookup 8 (summary_task_by_article_id small_host tasks)) ≡ true)
    × (pending_of (lookup 8 (summary_task_by_article_id small_host tasks))
        ≡ any (λ t. is_for 8 t && is_summary_task_pending t.status) tasks)
summary_task_by_article_id_lem_example = summary_task_by_article_id_lem small_host 8 tasks

visible_summary_tasks_lem_example :
    let shown = visible_summary_tasks small_host tasks in
    (length shown ≡ min 8 (length tasks))
    × IsSorted (shown_order small_host) shown
    × (hidden : List SummaryTask) × Perm (shown ++ hidden) tasks
    × All (λ t. All (Keeps (shown_order small_host) t) hidden) shown
visible_summary_tasks_lem_example = visible_summary_tasks_lem small_host tasks
