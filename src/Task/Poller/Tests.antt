-- ===== src/Task/Poller/Tests.antt =====
-- A concrete poll: one task has its summary, one has failed before and was announced.
use urwhaturead.Prelude.{is_white_space}
use urwhaturead.Prelude.{trim_start}
use urwhaturead.Prelude.{trim}
use urwhaturead.Task.{normalize_model}
use urwhaturead.Prelude.{text_beq}
use urwhaturead.Prelude.{
  ℕ, ◌≡◌, refl, true, false, ◌&&◌, ◌||◌, none, some, List, [], ◌∷◌, ◌==◌, any, includes, codes,
  text_eq, pos,
}
use urwhaturead.Prelude.Samples.{small_host}
use urwhaturead.Task.{SummaryTask, SummaryTaskStatus, article_summary}
use urwhaturead.Task.Summary.{
  CachedSummary, StatusReply, Reply, answered, ArticleHead, resolve_summary_task_identity,
  format_ai_stop_reason,
}
use urwhaturead.Task.Poller.{PollResult, PollState, PollEnv, has_summary, poll_task, finish_poll}
use urwhaturead.Task.Poller.Laws.{
  is_failed, reports_failure, is_succeeded, is_idle, is_given, is_final, is_news, poll_task_lem,
  finish_poll_lem,
}

abbrev task_of : ℕ → SummaryTask
task_of id = record {
  kind = article_summary;
  key = id ∷ [];
  article_id = some id;
  source_ids = none;
  title = codes "title";
  source_name = codes "source";
  source_id = some 3;
  model = codes "m";
  status = SummaryTaskStatus.running;
  updated_at = codes "1000";
  error = none;
}

abbrev cached : CachedSummary
cached = record {
  summary = codes "short";
  model = codes "m";
  truncated = false;
  stop_reason = some (codes "stop");
  provider = codes "p";
  generated_at = codes "1500";
  cache_hit = true;
}

abbrev heads : List ArticleHead
heads = record { id = 7; title = codes "seven"; source_name = codes "s"; source_id = 3 } ∷ []

identity_in_feed : (resolve_summary_task_identity none heads (some 7)).title ≡ codes "seven"
unfolding resolve_summary_task_identity
identity_in_feed = refl

stop_reason_text : format_ai_stop_reason small_host (some (codes "STOP")) false ≡ codes "正常结束"
unfolding format_ai_stop_reason text_beq normalize_model trim trim_start is_white_space
stop_reason_text = refl

abbrev env : PollEnv
env = record {
  host = small_host;
  now = pos 2000;
  ai_model = codes "M";
  selected_article_id = some 7;
  identity = λ id. resolve_summary_task_identity none heads (some id);
}

abbrev succeeded_reply : Reply StatusReply
succeeded_reply = answered (record { status = codes "succeeded"; error = none; updated_at = [] })

abbrev failed_reply : Reply StatusReply
failed_reply = answered (record { status = codes "failed"; error = none; updated_at = [] })

abbrev results : List PollResult
results =
    poll_task small_host (task_of 7) (codes "1600") succeeded_reply (answered (some cached))
    ∷ poll_task small_host (task_of 8) (codes "1600") failed_reply (answered none)
    ∷ []

abbrev before : PollState
before = record {
  store = record { tasks = task_of 7 ∷ task_of 8 ∷ []; notified = (8 ∷ []) ∷ [] };
  article_summary = [];
  article_summary_meta = [];
  article_summary_error = none;
  next_notice = none;
}

poll_task_lem_example :
    (is_succeeded
        (poll_task small_host
          (task_of 7)
          (codes "1600")
          succeeded_reply
          (answered (some cached))).status
      ≡ has_summary
          (poll_task small_host
            (task_of 7)
            (codes "1600")
            succeeded_reply
            (answered (some cached))).cached)
    × (is_failed
          (poll_task small_host
            (task_of 7)
            (codes "1600")
            succeeded_reply
            (answered (some cached))).status
        ≡ reports_failure small_host (task_of 7) succeeded_reply (answered (some cached)))
    × (is_idle
          (poll_task small_host
            (task_of 7)
            (codes "1600")
            succeeded_reply
            (answered (some cached))).status
        ≡ false)
poll_task_lem_example =
    poll_task_lem small_host (task_of 7) (codes "1600") succeeded_reply (answered (some cached))

finish_poll_lem_example :
    (is_given (finish_poll env false results before).1 ≡ any (is_news env before) results)
    × (includes (finish_poll env false results before).0.store.notified (7 ∷ []) ≡ (
        includes before.store.notified (7 ∷ [])
        || any (λ r. is_final r && (r.task.key == (7 ∷ []))) results))
finish_poll_lem_example = finish_poll_lem env results (7 ∷ []) before
