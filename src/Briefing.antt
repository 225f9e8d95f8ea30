-- ===== src/Briefing.antt =====
-- hooks/use-feed-briefing-actions.ts: the generation of a briefing. The replies of the API and the
-- clock are given: `polled i` is the instant of the round `i` of the polling loop. `Item` stands for
-- the type of the input items, which the code only passes on.
pub mod Generate
pub mod Outcome
pub mod Restore
pub mod Restored
pub mod Derived
mod Tests
use urwhaturead.Prelude.{
  ℕ, zero, suc, Bool, true, false, Option, none, some, List, [], ◌∷◌, ◌++◌, if◌then◌else◌, Text,
  codes, text_eq, insert, ℤ,
}
use urwhaturead.Prelude.Host.{Host}
use urwhaturead.Prelude.Decimal.{decimal}
use urwhaturead.Task.{SummaryTask, SummaryTaskStatus, SummaryTaskKind, or_else}
use urwhaturead.Task.Store.{TaskStore, upsert_summary_task}
use urwhaturead.Task.Summary.{Reply, threw, answered, hit_label, present_or}
use urwhaturead.Task.Poller.{Notice, NoticeKind}

abbrev pub feed_briefing_poll_attempts : ℕ
feed_briefing_poll_attempts = 120

pub record Briefing (Item : Type 0) : Type 0 where
  pub summary : Text
  pub input_items : Option (List Item)
  pub article_count : ℕ
  pub generated_at : Text
  pub cache_hit : Bool
  pub provider : Text
  pub model : Text

pub record BriefingStatus : Type 0 where
  pub model : Text
  pub status : SummaryTaskStatus
  pub updated_at : Text
  pub error : Option Text

-- The answer to the request: the briefing, or a job in the background.
pub data Accepted (Item : Type 0) : Type 0 where
  finished : Briefing Item → Accepted Item
  started : BriefingStatus → Accepted Item

pub record FeedBriefingSnapshot (Item : Type 0) : Type 0 where
  pub task_key : Text
  pub summary : Text
  pub meta : Text
  pub items : List Item
  pub article_count : ℕ
  pub scope_label : Text
  pub generated_at : Text
  pub anchor_article_ids : List ℕ
  pub error : Option Text

pub record FeedBriefingGenerationRequest : Type 0 where
  pub article_ids : List ℕ
  pub source_ids : List ℕ
  pub scope_label : Text
  pub task_key : Text
  pub title : Text
  pub select_on_success : Bool

pub record BriefingState (Item : Type 0) : Type 0 where
  pub store : TaskStore
  pub task_key : Text
  pub scope_label : Text
  pub anchor_article_ids : List ℕ
  pub loading : Bool
  pub error : Option Text
  pub summary : Text
  pub items : List Item
  pub article_count : ℕ
  pub generated_at : Text
  pub meta : Text
  pub selected : Bool
  pub snapshots : List (Text × FeedBriefingSnapshot Item)
  pub notice : Option Notice

pub record Instant : Type 0 where
  pub now : ℤ
  pub now_iso : Text

pub record BriefingEnv (Item : Type 0) : Type 0 where
  pub host : Host
  pub ai_model : Text
  pub requested : Instant
  pub accepted : Instant
  pub polled : ℕ → Instant
  pub ended : Instant
  pub accept_reply : Reply (Accepted Item)
  pub status_reply : ℕ → Reply BriefingStatus
  pub result_reply : ℕ → Reply (Option (Briefing Item))

-- How the calls end: with a briefing, or with an error's message.
pub data End (Item : Type 0) : Type 0 where
  completed : Briefing Item → End Item
  thrown : Text → End Item

abbrev pub only_one : List ℕ → Option ℕ
only_one (id ∷ []) = some id
only_one _ = none

abbrev pub items_or_none {ℓ} : {A : Type ℓ} → Option (List A) → List A
items_or_none none = []
items_or_none (some items) = items

module _ {Item : Type 0} where
  abbrev pub briefing_meta : Briefing Item → Text
  briefing_meta b =
      hit_label b.cache_hit
      ++ (codes " · "
          ++ (b.provider
              ++ (codes " · "
                  ++ (b.model ++ (codes " · " ++ (decimal b.article_count ++ codes " 篇"))))))

  unfoldable pub apply_feed_briefing_snapshot :
      FeedBriefingSnapshot Item → BriefingState Item → BriefingState Item
  apply_feed_briefing_snapshot snapshot s = record s {
    summary = snapshot.summary;
    meta = snapshot.meta;
    items = snapshot.items;
    article_count = snapshot.article_count;
    task_key = snapshot.task_key;
    scope_label = snapshot.scope_label;
    generated_at = snapshot.generated_at;
    anchor_article_ids = snapshot.anchor_article_ids;
    error = snapshot.error;
    selected = false;
  }

  unfoldable pub reset_feed_briefing_state : BriefingState Item → BriefingState Item
  reset_feed_briefing_state s = record s {
    summary = [];
    meta = [];
    items = [];
    article_count = 0;
    task_key = [];
    scope_label = [];
    generated_at = [];
    anchor_article_ids = [];
    error = none;
    loading = false;
    selected = false;
  }
