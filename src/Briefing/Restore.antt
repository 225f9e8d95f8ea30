-- ===== src/Briefing/Restore.antt =====
-- hooks/use-feed-briefing-cache-restore.ts: the effect that shows a stored briefing for the present
-- scope, or asks the service for a cached one. It is cut at its await.
use urwhaturead.Prelude.{
  ℕ, Bool, false, not, ◌&&◌, ◌||◌, Option, none, some, List, [], ◌∷◌, length, if◌then◌else◌, ◌==◌,
  text_eq, lookup, insert, Text, codes, is_empty, ℤ, pos, ◌-ℤ◌, leb_ℤ, min,
}
use urwhaturead.Prelude.Host.{Host}
use urwhaturead.Stream.{is_nil}
use urwhaturead.Task.{SummaryTask, SummaryTaskStatus, SummaryTaskKind, or_else}
use urwhaturead.Task.Store.{upsert_summary_task}
use urwhaturead.Task.Summary.{Reply, threw, answered}
use urwhaturead.Briefing.{
  Briefing, BriefingState, FeedBriefingSnapshot, Instant, apply_feed_briefing_snapshot, only_one,
  items_or_none, briefing_meta,
}

-- What the effect reads of the present scope.
pub record RestoreScope : Type 0 where
  pub on_reader_tab : Bool
  pub loading_feed : Bool
  pub task_key : Text
  pub anchor_article_ids : List ℕ
  pub source_ids : List ℕ
  pub scope_label : Text
  pub tag : Text
  pub keyword : Text
  pub ai_model : Text

-- The request for a cached briefing; what is `none` is not sent.
pub record RestoreCall : Type 0 where
  pub limit : ℕ
  pub tag : Option Text
  pub keyword : Option Text
  pub model : Text
  pub source_ids : Option (List ℕ)
  pub article_ids : List ℕ

abbrev some_text : Text → Option Text
some_text [] = none
some_text (c ∷ s) = some (c ∷ s)

abbrev some_ids : List ℕ → Option (List ℕ)
some_ids [] = none
some_ids (id ∷ ids) = some (id ∷ ids)

abbrev has_text : Option Text → Bool
has_text none = false
has_text (some s) = not (is_empty s)

unfoldable pub restore_call : RestoreScope → RestoreCall
restore_call scope = record {
  limit = min (length scope.anchor_article_ids) 30;
  tag = some_text scope.tag;
  keyword = some_text scope.keyword;
  model = scope.ai_model;
  source_ids = some_ids scope.source_ids;
  article_ids = scope.anchor_article_ids;
}

-- `attempted.get(key) ?? 0`
abbrev pub or_epoch : Option ℤ → ℤ
or_epoch none = pos 0
or_epoch (some last) = last

abbrev pub since_attempt : Text → ℤ → List (Text × ℤ) → ℤ
since_attempt key now attempted = now -ℤ or_epoch (lookup key attempted)

abbrev pub Restored : Type 0 → Type 0
Restored Item = BriefingState Item × List (Text × ℤ) × Option RestoreCall

module _ {Item : Type 0} where
  -- `Boolean(feedBriefing || feedBriefingError || loadingFeedBriefing)`
  unfoldable pub has_feed_briefing_entry : BriefingState Item → Bool
  has_feed_briefing_entry s = not (is_empty s.summary) || (has_text s.error || s.loading)

  -- The early returns in front of the look for a snapshot.
  unfoldable pub is_idle : RestoreScope → BriefingState Item → Bool
  unfolding has_feed_briefing_entry
  is_idle scope s =
      not scope.on_reader_tab
      || ((scope.loading_feed || s.loading)
          || (is_nil scope.anchor_article_ids
              || (has_feed_briefing_entry s
                  && (s.task_key == scope.task_key || not (is_empty s.task_key)))))

  -- Less than 30 seconds behind the last attempt nothing is asked.
  abbrev pub ask : ℤ → RestoreScope → List (Text × ℤ) → BriefingState Item → Restored Item
  ask now scope attempted s =
      if leb_ℤ (pos 30000) (since_attempt scope.task_key now attempted)
      then (s, insert scope.task_key now attempted, some (restore_call scope))
      else (s, attempted, none)

  abbrev pub use_snapshot :
      Option (FeedBriefingSnapshot Item)
      → ℤ
      → RestoreScope
      → List (Text × ℤ)
      → BriefingState Item
      → Restored Item
  use_snapshot none now scope attempted s = ask now scope attempted s
  use_snapshot (some snapshot) now scope attempted s =
      (apply_feed_briefing_snapshot snapshot s, attempted, none)

  unfoldable pub begin_restore :
      ℤ → RestoreScope → List (Text × ℤ) → BriefingState Item → Restored Item
  begin_restore now scope attempted s =
      if is_idle scope s
      then (s, attempted, none)
      else use_snapshot (lookup scope.task_key s.snapshots) now scope attempted s

  unfoldable pub cached_snapshot :
      Instant → RestoreScope → Briefing Item → FeedBriefingSnapshot Item
  cached_snapshot at scope b = record {
    task_key = scope.task_key;
    summary = b.summary;
    meta = briefing_meta b;
    items = items_or_none b.input_items;
    article_count = b.article_count;
    scope_label = scope.scope_label;
    generated_at = or_else b.generated_at at.now_iso;
    anchor_article_ids = scope.anchor_article_ids;
    error = none;
  }

  abbrev cached_task : Instant → RestoreScope → Briefing Item → SummaryTask
  cached_task at scope b = record {
    kind = SummaryTaskKind.feed_briefing;
    key = scope.task_key;
    article_id = none;
    source_ids = some scope.source_ids;
    title = codes "AI 聚合速览";
    source_name = scope.scope_label;
    source_id = only_one scope.source_ids;
    model = or_else b.model scope.ai_model;
    status = SummaryTaskStatus.succeeded;
    updated_at = or_else b.generated_at at.now_iso;
    error = some [];
  }

  unfoldable pub show_cached :
      Host → Instant → RestoreScope → Briefing Item → BriefingState Item → BriefingState Item
  unfolding apply_feed_briefing_snapshot cached_snapshot
  show_cached host at scope b s =
      let snapshot = cached_snapshot at scope b in
      let shown =
        apply_feed_briefing_snapshot snapshot
          (record s { snapshots = insert scope.task_key snapshot s.snapshots }) in
      record shown { store = upsert_summary_task host at.now (cached_task at scope b) shown.store }

  -- The answer, which is `none` without data, and whether the effect has been cleaned up since.
  unfoldable pub on_restore_reply :
      Host
      → Instant
      → RestoreScope
      → Bool
      → Reply (Option (Briefing Item))
      → BriefingState Item
      → BriefingState Item
  unfolding show_cached
  on_restore_reply host at scope cancelled (threw message) s = s
  on_restore_reply host at scope cancelled (answered none) s = s
  on_restore_reply host at scope cancelled (answered (some b)) s =
      if cancelled || is_empty b.summary then s else show_cached host at scope b s
