-- ===== src/Panel/Tests.antt =====
-- Concrete runs of the panel.
use urwhaturead.Prelude.{
  ℕ, ◌≡◌, refl, Bool, true, false, none, some, [], ◌∷◌, ◌++◌, filter, any, Text, codes, text_eq,
  nat_eq, lookup, trim, trim_start, is_white_space, text_beq, includes, distinct_from,
  if◌then◌else◌, nat_beq,
}
use urwhaturead.Prelude.Samples.{small_host}
use urwhaturead.Feed.{split_from}
use urwhaturead.Task.Summary.{threw, answered}
use urwhaturead.Sources.{Source}
use urwhaturead.Panel.{
  Panel, Params, Service, empty_patch, update_source, delete_source, load_sources, load_feed,
  refresh_status,
}
use urwhaturead.Panel.Single.{no_edit, filters_on, delete_source_and_refresh}
use urwhaturead.Panel.Bulk.{SourceAction, for_all, on_run_bulk_source_action}
use urwhaturead.Panel.Create.{on_batch_create_sources, parse_rss_lines}
use urwhaturead.Panel.Operations.{Operation, run}
use urwhaturead.Panel.Flags.{IsIdle}
use urwhaturead.Panel.Released.{run-IsIdle}
use urwhaturead.Panel.Batch.{
  created, creations, refused, batch_reloads, urls, tags, on_batch_create_sources_lem,
}
use urwhaturead.Panel.Effects.{delete_source_and_refresh_lem}

abbrev pub source : ℕ → Bool → Source
source id enabled = record {
  id = id;
  name = codes "Alpha";
  rss_url = codes "https:x";
  kind = none;
  tags = codes "news" ∷ [];
  new_articles_24h = none;
  click_count = none;
  last_fetched_at = none;
  last_clicked_at = none;
  ai_briefing_enabled = false;
  ai_briefing_interval_min = none;
  ai_briefing_last_generated_at = none;
  enabled = enabled;
  hidden_in_sidebar = false;
  updated_at = none;
}

abbrev busy : Text
busy = codes "busy"

-- It deletes no source 7, and creates no source whose address is `b`.
abbrev service : Service
service = record {
  host = small_host;
  update = λ id patch. if nat_beq id 3 then threw busy else answered (source id true);
  create = λ new. if text_beq new.rss_url (codes "b") then threw busy else answered tt;
  delete = λ id. if nat_beq id 7 then threw busy else answered tt;
  refresh = λ id. answered tt;
  test = λ id. threw busy;
  discover = λ url. threw busy;
  bulk_tags = threw busy;
  reclassify = threw busy;
  exported = answered 2;
  imported = threw busy;
}

abbrev params : Params
params = record {
  new_source_name = [];
  new_source_url = [];
  new_source_tags = [];
  batch_source_urls = codes " a \nb\na";
  batch_source_tags = codes "news";
  discover_url = [];
  edit = record no_edit { editing_source_id = some 2 };
  source_filter = codes "2";
  selected_source_ids = 1 ∷ 2 ∷ 3 ∷ 9 ∷ [];
  bulk_tag_input = [];
  bulk_poll_sec = codes "60";
  source_profile_source = some (source 1 false);
  source_profile_tags = codes "news" ∷ [];
  pending_delete_source = none;
  source_by_id = (1, source 1 false) ∷ (2, source 2 true) ∷ (3, source 3 false) ∷ [];
}

abbrev panel : Panel
panel = record {
  notice = none;
  creating_source = false;
  new_source_name = [];
  new_source_url = [];
  new_source_tags = [];
  batch_creating_sources = false;
  batch_create_result = none;
  discovering_sources = false;
  discovered_sources = [];
  busy_source_id = none;
  reclassifying_sources = false;
  exporting_sources = false;
  importing_sources = false;
  bulk_source_action = none;
  edit = record no_edit { editing_source_id = some 2 };
  sources = source 1 false ∷ source 2 true ∷ source 3 false ∷ [];
  source_profile_source = some (source 1 false);
  source_profile_tag_input = [];
  shows_context_menu = false;
  deleted = [];
  calls = [];
}

-- Source 1 is enabled, source 2 is so already, source 3 fails, source 9 is not known.
enable_calls :
    (on_run_bulk_source_action service params SourceAction.enable panel).1.calls
    ≡ refresh_status
      ∷ load_feed none
      ∷ load_sources
      ∷ update_source 3 (record empty_patch { enabled = some true })
      ∷ update_source 1 (record empty_patch { enabled = some true })
      ∷ []
unfolding on_run_bulk_source_action for_all lookup
enable_calls = refl

run-IsIdle_example :
    ((run service params (Operation.delete_source true (source 7 true)) panel).0 ≡ answered tt)
    × IsIdle (run service params (Operation.delete_source true (source 7 true)) panel).1
run-IsIdle_example =
    run-IsIdle service params (Operation.delete_source true (source 7 true)) panel refl

on_batch_create_sources_lem_example :
    ((on_batch_create_sources service params panel).0 ≡ answered tt)
    × ((on_batch_create_sources service params panel).1.calls
        ≡ batch_reloads (any (created service (tags service params)) (urls service params))
          ++ (creations (tags service params) (urls service params) ++ []))
    × ((on_batch_create_sources service params panel).1.batch_create_result
        ≡ some (record {
          success = filter (created service (tags service params)) (urls service params);
          failed = refused service (tags service params) (urls service params);
        }))
unfolding parse_rss_lines distinct_from split_from trim trim_start is_white_space includes text_beq
on_batch_create_sources_lem_example = on_batch_create_sources_lem service params panel refl

batch_urls : urls service params ≡ codes "a" ∷ codes "b" ∷ []
unfolding parse_rss_lines distinct_from split_from trim trim_start is_white_space includes text_beq
batch_urls = refl

delete_source_and_refresh_lem_example :
    let after = (delete_source_and_refresh service params (source 2 true) panel).1 in
    (after.deleted ≡ (2, filters_on service params 2) ∷ [])
    × (after.calls
        ≡ refresh_status
          ∷ load_feed (if filters_on service params 2 then some [] else none)
          ∷ load_sources
          ∷ delete_source 2
          ∷ [])
    × (after.sources ≡ panel.sources)
    × (after.edit ≡ no_edit)
delete_source_and_refresh_lem_example =
    delete_source_and_refresh_lem service params panel (source 2 true)
