-- ===== src/Task/Summary.antt =====
-- The answers of the summary API (types.ts), `formatAIStopReason` of lib/app-utils.ts, and what
-- names an article in a task, `resolveSummaryTaskIdentity` of hooks/use-summary-article-state.ts.
use urwhaturead.Prelude.{
  ℕ, ◌++◌, Bool, ◌||◌, Option, none, some, List, find?, ◌==◌, if◌then◌else◌, Text, codes, is_empty,
  nat_beq, text_eq,
}
use urwhaturead.Prelude.Host.{Host}
use urwhaturead.Prelude.Decimal.{decimal}
use urwhaturead.Task.{normalize_model, positive_id}

pub record CachedSummary : Type 0 where
  pub summary : Text
  pub model : Text
  pub truncated : Bool
  pub stop_reason : Option Text
  pub provider : Text
  pub generated_at : Text
  pub cache_hit : Bool

pub record StatusReply : Type 0 where
  pub status : Text
  pub error : Option Text
  pub updated_at : Text

-- An awaited call: the error's message, or the answer.
pub data Reply (A : Type 0) : Type 0 where
  threw : Text → Reply A
  answered : A → Reply A

-- `text || fallback`, where the text may be missing
abbrev pub present_or : Option Text → Text → Text
present_or none fallback = fallback
present_or (some s) fallback = if is_empty s then fallback else s

unfoldable pub format_ai_stop_reason : Host → Option Text → Bool → Text
format_ai_stop_reason host reason truncated =
    let normalized = normalize_model host (present_or reason (codes "")) in
    if normalized == codes "max_tokens"
      || normalized == codes "length"
      || normalized == codes "max_output_tokens"
    then codes "输出触顶"
    else if normalized == codes "stop" || normalized == codes "end_turn"
    then codes "正常结束"
    else if is_empty normalized
    then if truncated then codes "可能截断" else codes "已完成"
    else normalized

abbrev separator : Text
separator = codes " · "

-- The line under a summary; `found` is the text for a cached or a new one.
unfoldable pub summary_meta : Host → Text → CachedSummary → Text
summary_meta host found c =
    found
    ++ (separator
        ++ (c.provider
            ++ (separator
                ++ (c.model
                    ++ (separator ++ format_ai_stop_reason host c.stop_reason c.truncated)))))

abbrev pub hit_label : Bool → Text
hit_label hit = if hit then codes "缓存命中" else codes "新生成"

-- The fields of `FeedItem` and `ArticleDetail` that name an article.
pub record ArticleHead : Type 0 where
  pub id : ℕ
  pub title : Text
  pub source_name : Text
  pub source_id : ℕ

pub record SummaryTaskIdentity : Type 0 where
  pub title : Text
  pub source_name : Text
  pub source_id : Option ℕ

abbrev identity_of : ArticleHead → SummaryTaskIdentity
identity_of a = record {
  title = a.title;
  source_name = a.source_name;
  source_id = some a.source_id;
}

abbrev unknown_article : Text → SummaryTaskIdentity
unknown_article title = record { title = title; source_name = codes "未知来源"; source_id = none }

abbrev selected_with_id : ℕ → Option ArticleHead → Option ArticleHead
selected_with_id id none = none
selected_with_id id (some a) = if nat_beq a.id id then some a else none

unfoldable pub resolve_summary_task_identity :
    Option ArticleHead → List ArticleHead → Option ℕ → SummaryTaskIdentity
resolve_summary_task_identity selected feed none = unknown_article (codes "未知文章")
resolve_summary_task_identity selected feed (some id) =
    let in_feed : SummaryTaskIdentity = elim (find? (λ (a : ArticleHead). nat_beq a.id id) feed) [
      | some a ↦ identity_of a
      | none ↦ unknown_article (codes "文章 #" ++ decimal id)
    ] in
    let known : SummaryTaskIdentity = elim (selected_with_id id selected) [
      | some a ↦ identity_of a
      | none ↦ in_feed
    ] in
    if positive_id (some id) then known else unknown_article (codes "未知文章")
