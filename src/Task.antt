-- ===== src/Task.antt =====
-- lib/summary-task-utils.ts and the task types of lib/app-domain.ts: the queue of AI summary tasks.
-- Article and source ids are natural numbers; a missing optional field is `none`.
pub mod Queue
pub mod Keys
pub mod Store
pub mod View
pub mod Summary
pub mod Poller
mod Tests
use urwhaturead.Prelude.{
  ℕ, zero, suc, Bool, true, false, not, ◌&&◌, ◌||◌, Option, none, some, List, [], ◌∷◌, ◌++◌, length,
  take, filter, ◌==◌, if◌then◌else◌, ltb, leb, Text, codes, trim, is_empty, join, sort, by_desc, ℤ,
  pos, ◌-ℤ◌, leb_ℤ, lookup, map, text_eq, nat_eq,
}
use urwhaturead.Prelude.Host.{Host}
use urwhaturead.Prelude.Decimal.{decimal}

pub data SummaryTaskStatus : Type 0 where
  idle queued running succeeded failed : SummaryTaskStatus

pub data SummaryTaskKind : Type 0 where
  article_summary feed_briefing : SummaryTaskKind

pub record SummaryTask : Type 0 where
  pub kind : SummaryTaskKind
  pub key : Text
  pub article_id : Option ℕ
  pub source_ids : Option (List ℕ)
  pub title : Text
  pub source_name : Text
  pub source_id : Option ℕ
  pub model : Text
  pub status : SummaryTaskStatus
  pub updated_at : Text
  pub error : Option Text

abbrev pub max_summary_task_entries : ℕ
max_summary_task_entries = 80

abbrev pub summary_task_retention_ms : ℤ
summary_task_retention_ms = pos 1800000

unfoldable pub is_summary_task_pending : SummaryTaskStatus → Bool
is_summary_task_pending queued = true
is_summary_task_pending running = true
is_summary_task_pending _ = false

unfoldable pub summary_task_status_priority : SummaryTaskStatus → ℕ
summary_task_status_priority running = 5
summary_task_status_priority queued = 4
summary_task_status_priority failed = 3
summary_task_status_priority succeeded = 2
summary_task_status_priority idle = 1

unfoldable pub summary_task_status_label : SummaryTaskStatus → Text
summary_task_status_label queued = codes "排队中"
summary_task_status_label running = codes "生成中"
summary_task_status_label succeeded = codes "已完成"
summary_task_status_label failed = codes "失败"
summary_task_status_label idle = codes "空闲"

unfoldable pub summary_task_kind_label : SummaryTaskKind → Text
summary_task_kind_label feed_briefing = codes "AI 速览"
summary_task_kind_label article_summary = codes "文章摘要"

-- `typeof id === 'number' && id > 0`
abbrev pub positive_id : Option ℕ → Bool
positive_id none = false
positive_id (some n) = ltb 0 n

abbrev pub is_article_kind : SummaryTaskKind → Bool
is_article_kind article_summary = true
is_article_kind feed_briefing = false

unfoldable pub is_pollable_article_summary_task : SummaryTask → Bool
is_pollable_article_summary_task task = is_article_kind task.kind && positive_id task.article_id

-- `text || fallback`
abbrev pub or_else : Text → Text → Text
or_else s fallback = if is_empty s then fallback else s

-- `previous.filter((entry) => entry.key !== task.key)`
abbrev pub without_key : Text → List SummaryTask → List SummaryTask
without_key key = filter (λ t. not (t.key == key))

module _ (host : Host) where
  open host use {to_lower_case, date_parse}

  unfoldable pub normalize_model : Text → Text
  normalize_model model = to_lower_case (trim model)

  unfoldable pub build_summary_task_key : ℕ → Text → Text
  unfolding normalize_model
  build_summary_task_key article_id model =
      decimal article_id ++ (codes "|" ++ normalize_model model)

  unfoldable pub is_same_model : Text → Text → Bool
  unfolding normalize_model
  is_same_model left right = normalize_model left == normalize_model right

  unfoldable pub build_feed_briefing_task_key :
      (model : Text) (source_ids : List ℕ) (tag keyword : Text) (unread_only : Bool)
      (muted_site_keys : List Text)
      → Text
  unfolding normalize_model join
  build_feed_briefing_task_key model source_ids tag keyword unread_only muted_site_keys =
      join (codes "|") (
        codes "briefing"
        ∷ normalize_model model
        ∷ (if ltb 0 (length source_ids)
            then join (codes ",") (map decimal source_ids)
            else codes "all")
        ∷ or_else (normalize_model tag) (codes "-")
        ∷ or_else (normalize_model keyword) (codes "-")
        ∷ (if unread_only then codes "unread:1" else codes "unread:0")
        ∷ (if ltb 0 (length muted_site_keys) then join (codes ",") muted_site_keys else codes "-")
        ∷ [])

  unfoldable pub normalize_summary_task_status : Text → SummaryTaskStatus
  unfolding normalize_model
  normalize_summary_task_status status =
      let normalized = normalize_model status in
      if normalized == codes "queued"
      then queued
      else if normalized == codes "running"
      then running
      else if normalized == codes "succeeded"
      then succeeded
      else if normalized == codes "failed"
      then failed
      else idle

  -- `source_names` gives the name of a known source.
  unfoldable pub resolve_feed_briefing_scope_label : List ℕ → List (ℕ × Text) → Text → Text
  resolve_feed_briefing_scope_label (id ∷ []) source_names tag =
      let fallback = codes "来源 #" ++ decimal id in
      elim (lookup id source_names) [ none ↦ fallback | some name ↦ or_else name fallback ]
  resolve_feed_briefing_scope_label (id ∷ other ∷ ids) source_names tag =
      decimal (length (id ∷ other ∷ ids)) ++ codes " 个来源"
  resolve_feed_briefing_scope_label [] source_names tag =
      let normalized_tag = trim tag in
      if is_empty normalized_tag then codes "当前阅读流" else codes "标签: " ++ normalized_tag

  -- An empty text is falsy, and `NaN` is not finite.
  unfoldable pub parse_timestamp : Text → ℤ
  parse_timestamp [] = pos 0
  parse_timestamp (c ∷ s) = elim (date_parse (c ∷ s)) [ none ↦ pos 0 | some t ↦ t ]

  unfoldable pub is_retained : ℤ → SummaryTask → Bool
  unfolding is_summary_task_pending
  is_retained now task =
      is_summary_task_pending task.status
      || leb_ℤ (now -ℤ parse_timestamp task.updated_at) summary_task_retention_ms

  unfoldable pub prune_summary_tasks : ℤ → List SummaryTask → List SummaryTask
  prune_summary_tasks now tasks =
      let kept = filter (is_retained now) tasks in
      if leb (length kept) max_summary_task_entries
      then kept
      else take max_summary_task_entries kept

  abbrev pub newest_first : SummaryTask → SummaryTask → ℤ
  newest_first = by_desc (λ t. parse_timestamp t.updated_at)

  unfoldable pub upsert_summary_task_state : ℤ → List SummaryTask → SummaryTask → List SummaryTask
  unfolding prune_summary_tasks
  upsert_summary_task_state now previous task =
      prune_summary_tasks now (sort newest_first (task ∷ without_key task.key previous))
