-- ===== src/Task/Poller.antt =====
-- hooks/use-summary-task-poller.ts: one poll of the pending article tasks. The calls of the API are
-- given by their replies, and the clock by `now` (milliseconds) and `now_iso` (its text).
pub mod Laws
mod Tests
use urwhaturead.Prelude.{
  ℕ, Bool, true, false, not, ◌&&◌, ◌||◌, Option, none, some, List, [], ◌∷◌, ◌++◌, ◌==◌,
  if◌then◌else◌, Text, codes, is_empty, ℤ, nat_eq, text_eq, includes, nat_beq,
}
use urwhaturead.Prelude.Host.{Host}
use urwhaturead.Task.{
  SummaryTask, SummaryTaskStatus, positive_id, normalize_summary_task_status, is_same_model,
  or_else,
}
use urwhaturead.Task.View.{id_or_zero}
use urwhaturead.Task.Store.{TaskStore, upsert_summary_task, mark_notified}
use urwhaturead.Task.Summary.{
  CachedSummary, StatusReply, Reply, threw, answered, present_or, summary_meta, hit_label,
  SummaryTaskIdentity,
}

pub record PollResult : Type 0 where
  pub task : SummaryTask
  pub status : SummaryTaskStatus
  pub updated_at : Text
  pub error : Option Text
  pub cached : Option CachedSummary

pub data NoticeKind : Type 0 where
  info error : NoticeKind

pub record Notice : Type 0 where
  pub kind : NoticeKind
  pub text : Text

-- `cached?.data?.summary` is truthy.
abbrev pub has_summary : Option CachedSummary → Bool
has_summary none = false
has_summary (some c) = not (is_empty c.summary)

abbrev failure : SummaryTask → Text → Text → PollResult
failure task updated_at message = record {
  task = task;
  status = SummaryTaskStatus.failed;
  updated_at = updated_at;
  error = some message;
  cached = none;
}

-- The second call, once the status is `succeeded`.
unfoldable pub fetch_summary : SummaryTask → Text → Text → Reply (Option CachedSummary) → PollResult
fetch_summary task now_iso updated_at (threw message) = failure task now_iso message
fetch_summary task now_iso updated_at (answered none) = record {
  task = task;
  status = SummaryTaskStatus.running;
  updated_at = updated_at;
  error = some [];
  cached = none;
}
fetch_summary task now_iso updated_at (answered (some c)) =
    if is_empty c.summary
    then record {
      task = task;
      status = SummaryTaskStatus.running;
      updated_at = updated_at;
      error = some [];
      cached = none;
    }
    else record {
      task = task;
      status = SummaryTaskStatus.succeeded;
      updated_at = or_else c.generated_at updated_at;
      error = some [];
      cached = some c;
    }

-- What follows the first call, by the normalised status.
unfoldable pub after_status :
    SummaryTask
    → Text
    → Text
    → Option Text
    → Reply (Option CachedSummary)
    → SummaryTaskStatus
    → PollResult
after_status task now_iso updated_at message call SummaryTaskStatus.failed =
    failure task updated_at (present_or message (codes "AI 摘要生成失败"))
after_status task now_iso updated_at message call SummaryTaskStatus.idle =
    failure task updated_at (codes "任务状态已丢失，请重试")
after_status task now_iso updated_at message call SummaryTaskStatus.succeeded =
    fetch_summary task now_iso updated_at call
after_status task now_iso updated_at message call status = record {
  task = task;
  status = status;
  updated_at = updated_at;
  error = message;
  cached = none;
}

unfoldable pub poll_task :
    Host → SummaryTask → Text → Reply StatusReply → Reply (Option CachedSummary) → PollResult
poll_task host task now_iso (threw message) summary_call =
    failure task now_iso (if positive_id task.article_id then message else codes "任务状态无效，请重试")
poll_task host task now_iso (answered r) summary_call =
    if positive_id task.article_id
    then after_status task now_iso (or_else r.updated_at now_iso) r.error summary_call
        (normalize_summary_task_status host r.status)
    else failure task now_iso (codes "任务状态无效，请重试")

-- The state that the results are applied to; `next_notice` is local to one poll.
pub record PollState : Type 0 where
  pub store : TaskStore
  pub article_summary : Text
  pub article_summary_meta : Text
  pub article_summary_error : Option Text
  pub next_notice : Option Notice

pub record PollEnv : Type 0 where
  pub host : Host
  pub now : ℤ
  pub ai_model : Text
  pub selected_article_id : Option ℕ
  pub identity : ℕ → SummaryTaskIdentity

abbrev pub selects : Option ℕ → ℕ → Bool
selects none id = false
selects (some n) id = nat_beq n id

-- `if (!nextNotice) nextNotice = …`
abbrev first_notice : Option Notice → Notice → Option Notice
first_notice none n = some n
first_notice (some old) n = some old

module _ (env : PollEnv) where
  open env use {host, now, ai_model, selected_article_id, identity}

  updated_task : PollResult → SummaryTask
  updated_task r =
      let who = identity (id_or_zero r.task.article_id) in
      record r.task {
        title = who.title;
        source_name = who.source_name;
        source_id = who.source_id;
        status = r.status;
        updated_at = r.updated_at;
        error = r.error;
      }

  -- The summary is shown if its article is open, in the chosen model.
  unfoldable pub show_summary : PollResult → CachedSummary → PollState → PollState
  show_summary r c s =
      if selects selected_article_id (id_or_zero r.task.article_id)
        && is_same_model host r.task.model ai_model
      then record s {
        article_summary = c.summary;
        article_summary_meta = summary_meta host (hit_label c.cache_hit) c;
        article_summary_error = none;
      }
      else s

  -- The announcement of a key, once.
  unfoldable pub announce : Text → Notice → PollState → PollState
  announce key notice s = if includes s.store.notified key then s else record s {
    store = mark_notified key s.store;
    next_notice = first_notice s.next_notice notice;
  }

  abbrev pub done_notice : PollResult → Notice
  done_notice r = record {
    kind = NoticeKind.info;
    text = codes "AI 摘要已完成：" ++ (identity (id_or_zero r.task.article_id)).title;
  }

  abbrev failed_notice : PollResult → Notice
  failed_notice r = record {
    kind = NoticeKind.error;
    text =
        codes "AI 摘要失败："
        ++ ((identity (id_or_zero r.task.article_id)).title
            ++ (codes " · " ++ present_or r.error (codes "未知错误")));
  }

  -- The end of the loop's body, by status and cached summary.
  unfoldable pub conclude :
      PollResult → SummaryTaskStatus → Option CachedSummary → PollState → PollState
  conclude r SummaryTaskStatus.succeeded (some c) s =
      if is_empty c.summary then s else announce r.task.key (done_notice r) (show_summary r c s)
  conclude r SummaryTaskStatus.failed cached s = announce r.task.key (failed_notice r) s
  conclude r status cached s = s

  unfoldable pub apply_result : PollResult → PollState → PollState
  unfolding updated_task
  apply_result r s =
      if positive_id r.task.article_id
      then conclude r r.status r.cached
          (record s { store = upsert_summary_task host now (updated_task r) s.store })
      else s

  unfoldable pub apply_results : List PollResult → PollState → PollState
  apply_results [] s = s
  apply_results (r ∷ rs) s = apply_results rs (apply_result r s)

  -- `if (cancelled) return` after the calls; the last component is the argument of `setNotice`.
  unfoldable pub finish_poll : Bool → List PollResult → PollState → PollState × Option Notice
  finish_poll true results s = (s, none)
  finish_poll false results s =
      let s' = apply_results results (record s { next_notice = none }) in (s', s'.next_notice)
