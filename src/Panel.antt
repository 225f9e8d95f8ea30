-- ===== src/Panel.antt =====
-- hooks/use-source-management-actions.ts: the handlers of the source management panel, with the edit
-- form of use-source-management-state.ts. `Params` is what a handler reads of the render that made
-- it, `Panel` what its setters change, and `calls` the requests and reloads, newest first.
pub mod Action
pub mod Single
pub mod Bulk
pub mod Create
pub mod Profile
pub mod Operations
pub mod Outcomes
pub mod Batch
pub mod Effects
pub mod Flags
pub mod Settles
pub mod Selected
pub mod Released
pub mod Tests
use urwhaturead.Prelude.{ℕ, Bool, Option, none, List, [], ◌++◌, join, Text, codes}
use urwhaturead.Prelude.Host.{Host}
use urwhaturead.Prelude.Decimal.{decimal}
use urwhaturead.Task.Poller.{Notice}
use urwhaturead.Task.Summary.{Reply}
use urwhaturead.Sources.{Source, source_tag_list}

pub data BulkSourceAction : Type 0 where
  enable disable refresh test add_tags remove_tags set_poll enable_ai disable_ai : BulkSourceAction

unfoldable pub bulk_action_label : BulkSourceAction → Text
bulk_action_label enable = codes "启用"
bulk_action_label disable = codes "停用"
bulk_action_label refresh = codes "强制刷新"
bulk_action_label set_poll = codes "更新抓取间隔"
bulk_action_label enable_ai = codes "开启 AI 速览"
bulk_action_label disable_ai = codes "关闭 AI 速览"
bulk_action_label add_tags = codes "添加标签"
bulk_action_label remove_tags = codes "移除标签"
bulk_action_label test = codes "测试"

-- The body of a `PATCH` of a source; what is `none` is not sent.
pub record SourcePatch : Type 0 where
  pub name : Option Text
  pub rss_url : Option Text
  pub tags : Option (List Text)
  pub poll_interval_sec : Option ℕ
  pub enabled : Option Bool
  pub ai_briefing_enabled : Option Bool
  pub ai_briefing_interval_min : Option ℕ

abbrev pub empty_patch : SourcePatch
empty_patch = record {
  name = none;
  rss_url = none;
  tags = none;
  poll_interval_sec = none;
  enabled = none;
  ai_briefing_enabled = none;
  ai_briefing_interval_min = none;
}

pub record NewSource : Type 0 where
  pub name : Option Text
  pub rss_url : Text
  pub tags : Option (List Text)

-- What a handler asks of the service, and the reloads of the page.
pub data Call : Type 0 where
  update_source : ℕ → SourcePatch → Call
  create_source : NewSource → Call
  delete_source refresh_source test_source : ℕ → Call
  discover_sources : Text → Call
  bulk_update_source_tags : List ℕ → Bool → List Text → Call
  reclassify_sources : Call
  export_sources : Call
  import_sources : Call
  load_sources : Call
  load_feed : Option Text → Call
  refresh_status : Call

pub record TestResult : Type 0 where
  pub title : Text
  pub item_count : ℕ

pub record DiscoverSourceCandidate : Type 0 where
  pub name : Text
  pub rss_url : Text
  pub suggested_tag : Option Text
  pub existing : Bool
  pub source_name : Option Text

pub record ReclassifyMeta : Type 0 where
  pub changed : ℕ
  pub errors : ℕ
  pub count : ℕ

pub record ImportMeta : Type 0 where
  pub created : ℕ
  pub updated : ℕ
  pub skipped : ℕ
  pub failed : ℕ

pub record BulkTagsResult : Type 0 where
  pub updated : ℕ
  pub total : ℕ

-- How the service answers the calls of one handler.
pub record Service : Type 0 where
  pub host : Host
  pub update : ℕ → SourcePatch → Reply Source
  pub create : NewSource → Reply (Unit {0})
  pub delete : ℕ → Reply (Unit {0})
  pub refresh : ℕ → Reply (Unit {0})
  pub test : ℕ → Reply TestResult
  pub discover : Text → Reply (List DiscoverSourceCandidate)
  pub bulk_tags : Reply BulkTagsResult
  pub reclassify : Reply ReclassifyMeta
  pub exported : Reply ℕ
  pub imported : Reply ImportMeta

pub record EditForm : Type 0 where
  pub editing_source_id : Option ℕ
  pub name : Text
  pub url : Text
  pub tags : Text
  pub poll_sec : Text

pub record BatchCreateResult : Type 0 where
  pub success : List Text
  pub failed : List (Text × Text)

pub record Params : Type 0 where
  pub new_source_name : Text
  pub new_source_url : Text
  pub new_source_tags : Text
  pub batch_source_urls : Text
  pub batch_source_tags : Text
  pub discover_url : Text
  pub edit : EditForm
  pub source_filter : Text
  pub selected_source_ids : List ℕ
  pub bulk_tag_input : Text
  pub bulk_poll_sec : Text
  pub source_profile_source : Option Source
  pub source_profile_tags : List Text
  pub pending_delete_source : Option Source
  pub source_by_id : List (ℕ × Source)

pub record Panel : Type 0 where
  pub notice : Option Notice
  pub creating_source : Bool
  pub new_source_name : Text
  pub new_source_url : Text
  pub new_source_tags : Text
  pub batch_creating_sources : Bool
  pub batch_create_result : Option BatchCreateResult
  pub discovering_sources : Bool
  pub discovered_sources : List DiscoverSourceCandidate
  pub busy_source_id : Option ℕ
  pub reclassifying_sources : Bool
  pub exporting_sources : Bool
  pub importing_sources : Bool
  pub bulk_source_action : Option BulkSourceAction
  pub edit : EditForm
  pub sources : List Source
  pub source_profile_source : Option Source
  pub source_profile_tag_input : Text
  pub shows_context_menu : Bool
  pub deleted : List (ℕ × Bool)
  pub calls : List Call
