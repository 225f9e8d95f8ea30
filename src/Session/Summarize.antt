-- ===== src/Session/Summarize.antt =====
-- `onSummarizeArticle` of hooks/use-reader-article-actions.ts, cut at its await: the request, and the
-- handler of its answer, on the reader and the queue of tasks.
pub mod Answer
mod Tests
use urwhaturead.Prelude.{
  ℕ, suc, Bool, true, false, Option, none, some, List, [], ◌++◌, ◌==◌, if◌then◌else◌, ltb, nat_beq,
  text_eq, without, Text, codes, trim, ℤ,
}
use urwhaturead.Prelude.Host.{Host}
use urwhaturead.Task.{
  SummaryTask, SummaryTaskStatus, SummaryTaskKind, or_else, build_summary_task_key,
  normalize_summary_task_status,
}
use urwhaturead.Task.Store.{TaskStore, upsert_summary_task}
use urwhaturead.Task.Summary.{
  CachedSummary, Reply, threw, answered, SummaryTaskIdentity, summary_meta, hit_label, present_or,
}
use urwhaturead.Task.Poller.{Notice, NoticeKind}
use urwhaturead.Session.Open.{Reader}

pub record SummaryJob : Type 0 where
  pub status : Text
  pub model : Option Text
  pub error : Option Text
  pub updated_at : Text

-- The answer: the summary, or a job in the background.
pub data SummaryAnswer : Type 0 where
  ready : CachedSummary → SummaryAnswer
  job : SummaryJob → SummaryAnswer

pub record Workspace : Type 0 where
  pub reader : Reader
  pub store : TaskStore

pub record SummarizeEnv : Type 0 where
  pub host : Host
  pub ai_model : Text
  pub now : ℤ
  pub now_iso : Text
  pub identity : ℕ → SummaryTaskIdentity

pub record SummarizeCall : Type 0 where
  pub request_id : ℕ
  pub article_id : ℕ

abbrev notify : NoticeKind → Text → Reader → Reader
notify kind text r = record r { notice = some (record { kind = kind; text = text }) }

abbrev refuse : Workspace → Workspace
refuse s = record s { reader = notify NoticeKind.error (codes "当前文章不支持 AI 摘要。") s.reader }

abbrev begin_for : Option ℕ → Workspace → Workspace × Option SummarizeCall
begin_for none s = (refuse s, none)
begin_for (some id) s =
    let number = suc s.reader.summary_request_seq in
    let called = record s {
      reader = record s.reader {
        summary_request_seq = number;
        loading_article_summary = true;
        article_summary_error = none;
      };
    } in
    if ltb 0 id
    then (called, some (record { request_id = number; article_id = id }))
    else (refuse s, none)

-- Up to the call of the API.
unfoldable pub begin_summarize : Workspace → Workspace × Option SummarizeCall
begin_summarize s = begin_for s.reader.selected_article_id s

unfoldable pub is_newest : SummarizeCall → Workspace → Bool
is_newest c s = nat_beq c.request_id s.reader.summary_request_seq

module _ (env : SummarizeEnv) where
  open env use {host, ai_model, now, now_iso, identity}

  abbrev task_of : SummarizeCall → Text → SummaryTaskStatus → Text → Option Text → SummaryTask
  task_of c model status updated_at message =
      let who = identity c.article_id in
      record {
        kind = SummaryTaskKind.article_summary;
        key = build_summary_task_key host c.article_id model;
        article_id = some c.article_id;
        source_ids = none;
        title = who.title;
        source_name = who.source_name;
        source_id = who.source_id;
        model = model;
        status = status;
        updated_at = updated_at;
        error = message;
      }

  -- The `catch` block behind its guard, and `finally`.
  unfoldable pub on_failed : SummarizeCall → Text → Workspace → Workspace
  on_failed c message s = record {
    reader =
        notify NoticeKind.error (codes "AI 摘要失败: " ++ message) (record s.reader {
          article_summary_error = some message;
          loading_article_summary = false;
        });
    store =
        upsert_summary_task host now
          (task_of c ai_model SummaryTaskStatus.failed now_iso (some message)) s.store;
  }

  unfoldable pub on_ready : CachedSummary → Workspace → Workspace
  on_ready summary s = record s {
    reader =
        notify NoticeKind.info (if summary.cache_hit then codes "已加载缓存摘要。" else codes "AI 摘要已生成。")
          (record s.reader {
            article_summary = summary.summary;
            article_summary_meta = summary_meta host (hit_label summary.cache_hit) summary;
            loading_article_summary = false;
          });
  }

  -- `response.data.model?.trim() || aiModel`
  abbrev pub model_of : SummaryJob → Text
  model_of r = or_else (trim (present_or r.model [])) ai_model

  abbrev pub job_key : SummarizeCall → SummaryJob → Text
  job_key c r = build_summary_task_key host c.article_id (model_of r)

  -- A job in the background: its key is taken out of those announced, so its end is announced.
  unfoldable pub on_started : SummarizeCall → SummaryJob → Workspace → Workspace
  on_started c r s = record {
    reader = record s.reader {
      article_summary_meta = codes "后台生成中 · " ++ (r.status ++ (codes " · " ++ model_of r));
      loading_article_summary = false;
    };
    store =
        upsert_summary_task host now
          (task_of c (model_of r) (normalize_summary_task_status host r.status)
            (or_else r.updated_at now_iso) r.error)
          (record s.store { notified = without (job_key c r) s.store.notified });
  }

  abbrev pub has_failed : SummaryJob → Bool
  has_failed r = r.status == codes "failed"

  abbrev on_answer : SummarizeCall → Reply SummaryAnswer → Workspace → Workspace
  on_answer c (threw message) s = on_failed c message s
  on_answer c (answered (ready summary)) s = on_ready summary s
  on_answer c (answered (job r)) s =
      if has_failed r
      then on_failed c (present_or r.error (codes "AI 摘要生成失败")) s
      else on_started c r s

  unfoldable pub on_summarize_reply : SummarizeCall → Reply SummaryAnswer → Workspace → Workspace
  on_summarize_reply c reply s = if is_newest c s then on_answer c reply s else s
