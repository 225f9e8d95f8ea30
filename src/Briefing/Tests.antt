-- ===== src/Briefing/Tests.antt =====
-- A concrete generation: the job is running at the first poll and fails at the second.
use urwhaturead.Prelude.{
  ℕ, zero, suc, ◌≡◌, refl, true, false, lookup, insert, ◌-ℤ◌, none, some, [], ◌∷◌, codes, pos,
}
use urwhaturead.Prelude.Samples.{small_host}
use urwhaturead.Task.{SummaryTaskStatus}
use urwhaturead.Task.Summary.{Reply, threw, answered}
use urwhaturead.Briefing.{
  Briefing, BriefingStatus, started, FeedBriefingGenerationRequest, BriefingState, BriefingEnv,
  Instant, FeedBriefingSnapshot, apply_feed_briefing_snapshot, reset_feed_briefing_state,
}
use urwhaturead.Briefing.Generate.{generate_feed_briefing}
use urwhaturead.Briefing.Restore.{
  RestoreScope, begin_restore, on_restore_reply, restore_call, is_idle,
}
use urwhaturead.Briefing.Restored.{begin_restore_settles}
use urwhaturead.Briefing.Outcome.{IsSettledWith, generate_feed_briefing_lem}

abbrev instant : Instant
instant = record { now = pos 1000; now_iso = codes "1000" }

abbrev status_of : SummaryTaskStatus → BriefingStatus
status_of status = record {
  model = [];
  status = status;
  updated_at = [];
  error = some (codes "quota");
}

abbrev statuses : ℕ → Reply BriefingStatus
statuses zero = answered (status_of SummaryTaskStatus.running)
statuses (suc n) = answered (status_of SummaryTaskStatus.failed)

abbrev env : BriefingEnv ℕ
env = record {
  host = small_host;
  ai_model = codes "m";
  requested = instant;
  accepted = instant;
  polled = λ i. instant;
  ended = instant;
  accept_reply = answered (started (status_of SummaryTaskStatus.queued));
  status_reply = statuses;
  result_reply = λ i. threw (codes "offline");
}

abbrev request : FeedBriefingGenerationRequest
request = record {
  article_ids = 7 ∷ 8 ∷ [];
  source_ids = 3 ∷ [];
  scope_label = codes "scope";
  task_key = codes "briefing";
  title = [];
  select_on_success = false;
}

abbrev idle : BriefingState ℕ
idle = record {
  store = record { tasks = []; notified = [] };
  task_key = [];
  scope_label = [];
  anchor_article_ids = [];
  loading = false;
  error = none;
  summary = [];
  items = [];
  article_count = 0;
  generated_at = [];
  meta = [];
  selected = false;
  snapshots = [];
  notice = none;
}

abbrev snapshot : FeedBriefingSnapshot ℕ
snapshot = record {
  task_key = codes "briefing";
  summary = codes "short";
  meta = [];
  items = 4 ∷ [];
  article_count = 1;
  scope_label = codes "scope";
  generated_at = codes "1000";
  anchor_article_ids = 4 ∷ [];
  error = none;
}

applied : (apply_feed_briefing_snapshot snapshot idle).summary ≡ codes "short"
unfolding apply_feed_briefing_snapshot
applied = refl

reset_after : reset_feed_briefing_state (apply_feed_briefing_snapshot snapshot idle) ≡ idle
unfolding apply_feed_briefing_snapshot reset_feed_briefing_state
reset_after = refl

generate_feed_briefing_lem_example :
    IsSettledWith env request (generate_feed_briefing env request idle)
generate_feed_briefing_lem_example = generate_feed_briefing_lem env request idle 7 (8 ∷ []) refl

abbrev scope : RestoreScope
scope = record {
  on_reader_tab = true;
  loading_feed = false;
  task_key = codes "briefing|m";
  anchor_article_ids = 4 ∷ 5 ∷ [];
  source_ids = [];
  scope_label = codes "all";
  tag = [];
  keyword = [];
  ai_model = codes "m";
}

abbrev cached : Briefing ℕ
cached = record {
  summary = codes "s";
  input_items = none;
  article_count = 2;
  generated_at = [];
  cache_hit = true;
  provider = codes "p";
  model = codes "m";
}

begin_restore_settles_example :
    begin_restore
      (pos 41000)
      scope
      ((codes "briefing|m", pos 40000) ∷ [])
      (on_restore_reply small_host instant scope false (answered (some cached)) idle)
    ≡ (
      on_restore_reply small_host instant scope false (answered (some cached)) idle,
      (codes "briefing|m", pos 40000) ∷ [],
      none,
    )
unfolding begin_restore is_idle lookup ◌-ℤ◌ insert
begin_restore_settles_example =
    begin_restore_settles scope small_host instant false (answered (some cached)) (pos 40000)
      (pos 41000) [] ((codes "briefing|m", pos 40000) ∷ []) (restore_call scope) idle idle refl refl
