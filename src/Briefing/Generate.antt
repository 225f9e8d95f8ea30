-- ===== src/Briefing/Generate.antt =====
-- `generateFeedBriefing`: up to its first call, the polling loop, and its two ends.
use urwhaturead.Prelude.{
  ℕ, zero, suc, Bool, true, false, Option, none, some, List, [], ◌∷◌, ◌++◌, if◌then◌else◌, Text,
  codes, text_eq, insert,
}
use urwhaturead.Task.{SummaryTaskStatus, SummaryTaskKind, or_else}
use urwhaturead.Task.Store.{upsert_summary_task}
use urwhaturead.Task.Summary.{Reply, threw, answered, present_or}
use urwhaturead.Task.Poller.{NoticeKind}
use urwhaturead.Briefing.{
  briefing_meta, feed_briefing_poll_attempts, Briefing, BriefingStatus, Accepted, finished, started,
  FeedBriefingSnapshot, FeedBriefingGenerationRequest, BriefingState, Instant, BriefingEnv, End,
  completed, thrown, only_one, items_or_none,
}

module _ {Item : Type 0} (env : BriefingEnv Item) (request : FeedBriefingGenerationRequest) where
  open env use {
    host, ai_model, requested, accepted, polled, ended, accept_reply, status_reply, result_reply,
  }
  open request use {article_ids, source_ids, scope_label, task_key, title, select_on_success}

  abbrev pub task_title : Text
  task_title = or_else title (codes "AI 聚合速览")

  abbrev pub put_task :
      Instant → Text → SummaryTaskStatus → Text → Text → BriefingState Item → BriefingState Item
  put_task at model status updated_at message s = record s {
    store =
        upsert_summary_task host at.now
          (record {
            kind = SummaryTaskKind.feed_briefing;
            key = task_key;
            article_id = none;
            source_ids = some source_ids;
            title = task_title;
            source_name = scope_label;
            source_id = only_one source_ids;
            model = model;
            status = status;
            updated_at = updated_at;
            error = some message;
          })
          s.store;
  }

  abbrev pub put_status : Instant → BriefingStatus → BriefingState Item → BriefingState Item
  put_status at r =
      put_task at (or_else r.model ai_model) r.status (or_else r.updated_at at.now_iso)
        (present_or r.error [])

  abbrev pub Outcome : Type 0
  Outcome = BriefingState Item × End Item

  -- What a round does with the briefing once the job has succeeded; `rest` is what follows.
  abbrev pub after_result : BriefingState Item → Outcome → Reply (Option (Briefing Item)) → Outcome
  after_result s rest (threw message) = (s, thrown message)
  after_result s rest (answered none) = rest
  after_result s rest (answered (some briefing)) = (s, completed briefing)

  -- What a round does by the status of the job.
  abbrev pub by_status :
      BriefingState Item → Outcome → Outcome → Option Text → SummaryTaskStatus → Outcome
  by_status s rest fetched message SummaryTaskStatus.failed =
      (s, thrown (present_or message (codes "AI 速览生成失败")))
  by_status s rest fetched message SummaryTaskStatus.succeeded = fetched
  by_status s rest fetched message _ = rest

  -- One round, where `next_round` runs the rounds that are left.
  unfoldable pub after_poll :
      ℕ → BriefingState Item → (BriefingState Item → Outcome) → Reply BriefingStatus → Outcome
  after_poll i s next_round (threw message) = (s, thrown message)
  after_poll i s next_round (answered r) =
      let s' = put_status (polled i) r s in
      let rest = next_round s' in
      by_status s' rest (after_result s' rest (result_reply i)) r.error r.status

  -- The polling loop, from the round `i` on, with a bound on the rounds that are left.
  unfoldable pub poll_briefing : ℕ → ℕ → BriefingState Item → Outcome
  poll_briefing zero i s = (s, thrown (codes "AI 速览生成超时，任务仍可能在后台继续执行"))
  poll_briefing (suc n) i s = after_poll i s (λ t. poll_briefing n (suc i) t) (status_reply i)

  unfoldable pub after_accept : BriefingState Item → Reply (Accepted Item) → Outcome
  after_accept s (threw message) = (s, thrown message)
  after_accept s (answered (finished briefing)) = (s, completed briefing)
  after_accept s (answered (started r)) =
      poll_briefing feed_briefing_poll_attempts 0 (put_status accepted r s)

  unfoldable pub await_briefing : BriefingState Item → Outcome
  await_briefing s = after_accept s accept_reply

  abbrev pub save_snapshot : FeedBriefingSnapshot Item → BriefingState Item → BriefingState Item
  save_snapshot snapshot s = record s { snapshots = insert snapshot.task_key snapshot s.snapshots }

  -- The rest of the `try` block, and `finally`.
  unfoldable pub on_completed : Briefing Item → BriefingState Item → BriefingState Item
  on_completed b s =
      let generated_at = or_else b.generated_at ended.now_iso in
      let snapshot : FeedBriefingSnapshot Item = record {
        task_key = task_key;
        summary = b.summary;
        meta = briefing_meta b;
        items = items_or_none b.input_items;
        article_count = b.article_count;
        scope_label = scope_label;
        generated_at = generated_at;
        anchor_article_ids = article_ids;
        error = none;
      } in
      let s' =
        put_task ended (or_else b.model ai_model) SummaryTaskStatus.succeeded generated_at []
          (save_snapshot snapshot s) in
      record s' {
        summary = b.summary;
        items = items_or_none b.input_items;
        article_count = b.article_count;
        task_key = task_key;
        generated_at = generated_at;
        meta = briefing_meta b;
        selected = if select_on_success then true else s.selected;
        loading = false;
        notice = some (record {
          kind = NoticeKind.info;
          text =
              if b.cache_hit
              then codes "已加载缓存" ++ (task_title ++ codes "。")
              else task_title ++ codes "已生成。";
        });
      }

  -- The `catch` block, and `finally`.
  unfoldable pub on_thrown : Text → BriefingState Item → BriefingState Item
  on_thrown message s =
      let snapshot : FeedBriefingSnapshot Item = record {
        task_key = task_key;
        summary = [];
        meta = [];
        items = [];
        article_count = 0;
        scope_label = scope_label;
        generated_at = ended.now_iso;
        anchor_article_ids = article_ids;
        error = some message;
      } in
      let s' =
        put_task ended ai_model SummaryTaskStatus.failed ended.now_iso message
          (save_snapshot snapshot s) in
      record s' {
        task_key = task_key;
        error = some message;
        loading = false;
        notice =
            some
              (record { kind = NoticeKind.error; text = task_title ++ (codes "失败: " ++ message) });
      }

  abbrev pub end_with : BriefingState Item × End Item → BriefingState Item × Bool
  end_with (s, completed b) = (on_completed b s, true)
  end_with (s, thrown message) = (on_thrown message s, false)

  -- Up to the call of the API.
  unfoldable pub begin_briefing : BriefingState Item → BriefingState Item
  begin_briefing s =
      record (put_task requested ai_model SummaryTaskStatus.queued requested.now_iso [] s) {
        task_key = task_key;
        scope_label = scope_label;
        anchor_article_ids = article_ids;
        loading = true;
        error = none;
      }

  abbrev pub generate_for : List ℕ → BriefingState Item → BriefingState Item × Bool
  generate_for [] s = (
    record s {
      notice = some (record { kind = NoticeKind.error; text = codes "当前没有可用文章，无法生成 AI 速览。" });
    },
    false,
  )
  generate_for (id ∷ ids) s = end_with (await_briefing (begin_briefing s))

  unfoldable pub generate_feed_briefing : BriefingState Item → BriefingState Item × Bool
  generate_feed_briefing = generate_for article_ids
