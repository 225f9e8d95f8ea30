-- ===== src/Session/Summarize/Tests.antt =====
-- A concrete request: article 7 is open, and the answer starts a job that was announced before.
use urwhaturead.Prelude.{
  if◌then◌else◌, ◌≡◌, refl, true, not, ◌&&◌, none, some, [], ◌∷◌, codes, pos, includes, text_eq,
  is_some, Text,
}
use urwhaturead.Prelude.Samples.{small_host}
use urwhaturead.Task.{build_summary_task_key}
use urwhaturead.Task.Summary.{Reply, answered, resolve_summary_task_identity}
use urwhaturead.Session.Tests.{closed}
use urwhaturead.Session.Summarize.{
  SummaryAnswer, job, Workspace, SummarizeEnv, SummarizeCall, begin_summarize, is_newest,
  on_summarize_reply,
}
use urwhaturead.Session.Summarize.Answer.{starts, on_summarize_reply_lem}

abbrev env : SummarizeEnv
env = record {
  host = small_host;
  ai_model = codes "M";
  now = pos 1000;
  now_iso = codes "1000";
  identity = λ id. resolve_summary_task_identity none [] (some id);
}

abbrev key : Text
key = build_summary_task_key small_host 7 (codes "M")

abbrev opened : Workspace
opened = record {
  reader = record closed { selected_article_id = some 7 };
  store = record { tasks = []; notified = key ∷ [] };
}

requests : is_some (begin_summarize opened).1 ≡ true
unfolding begin_summarize
requests = refl

abbrev call : SummarizeCall
call = record { request_id = 1; article_id = 7 }

abbrev reply : Reply SummaryAnswer
reply =
    answered (
      job
        (record { status = codes "queued"; model = none; error = none; updated_at = codes "990" }))

abbrev waiting : Workspace
waiting = record opened { reader = record opened.reader { summary_request_seq = 1 } }

on_summarize_reply_lem_example :
    ((on_summarize_reply env call reply waiting).reader.loading_article_summary
      ≡ (not (is_newest call waiting) && waiting.reader.loading_article_summary))
    × (includes (on_summarize_reply env call reply waiting).store.notified key ≡ (
        not (is_newest call waiting && starts env call reply key)
        && includes waiting.store.notified key))
    × ((if is_newest call waiting then waiting else on_summarize_reply env call reply waiting)
        ≡ waiting)
on_summarize_reply_lem_example = on_summarize_reply_lem env call reply key waiting
