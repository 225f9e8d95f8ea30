-- ===== src/Panel/Operations.antt =====
-- What the hook returns: its asynchronous handlers, as one type and one function.
use urwhaturead.Prelude.{ℕ, Bool, Option, List, [], ◌∷◌, Text}
use urwhaturead.Sources.{Source}
use urwhaturead.Panel.{Panel, Params, Service, DiscoverSourceCandidate}
use urwhaturead.Panel.Action.{Action}
use urwhaturead.Panel.Single.{
  on_test_source, on_refresh_source, on_save_source_edit, on_toggle_source_enabled,
  on_delete_source, on_confirm_delete_source, on_quick_set_source_enabled,
}
use urwhaturead.Panel.Bulk.{
  SourceAction, on_run_bulk_source_action, on_run_bulk_tag_action, on_run_bulk_poll_interval_update,
  on_run_bulk_ai_briefing_action, on_reclassify_sources,
}
use urwhaturead.Panel.Create.{
  on_create_source, on_discover_sources, on_batch_create_sources, on_add_discovered_source,
  on_export_sources, on_import_sources_file,
}
use urwhaturead.Panel.Profile.{
  on_remove_source_profile_tag, on_add_source_profile_tags, on_set_source_profile_ai_briefing,
}

pub data Operation : Type 0 where
  create_source discover_sources batch_create_sources export_sources : Operation
  add_discovered_source : DiscoverSourceCandidate → Operation
  import_sources_file : Bool → Operation
  test_source refresh_source save_source_edit : ℕ → Operation
  toggle_source_enabled : Source → Operation
  delete_source : Bool → Source → Operation
  reclassify_sources confirm_delete_source run_bulk_poll_interval_update : Operation
  run_bulk_source_action : SourceAction → Operation
  run_bulk_tag_action : Bool → Operation
  run_bulk_ai_briefing_action set_source_profile_ai_briefing : Bool → Option ℕ → Operation
  quick_set_source_enabled : Source → Bool → Operation
  remove_source_profile_tag : Text → Operation
  add_source_profile_tags : List Text → Operation

unfoldable pub run : Service → Params → Operation → Action (Unit {0})
run s p create_source = on_create_source s p
run s p discover_sources = on_discover_sources s p
run s p batch_create_sources = on_batch_create_sources s p
run s p export_sources = on_export_sources s p
run s p (add_discovered_source c) = on_add_discovered_source s p c
run s p (import_sources_file is_json) = on_import_sources_file s p is_json
run s p (test_source id) = on_test_source s p id
run s p (refresh_source id) = on_refresh_source s p id
run s p (save_source_edit id) = on_save_source_edit s p id
run s p (toggle_source_enabled source) = on_toggle_source_enabled s p source
run s p (delete_source confirmed source) = on_delete_source s p confirmed source
run s p reclassify_sources = on_reclassify_sources s p
run s p confirm_delete_source = on_confirm_delete_source s p
run s p run_bulk_poll_interval_update = on_run_bulk_poll_interval_update s p
run s p (run_bulk_source_action action) = on_run_bulk_source_action s p action
run s p (run_bulk_tag_action is_add) = on_run_bulk_tag_action s p is_add
run s p (run_bulk_ai_briefing_action enabled interval) =
    on_run_bulk_ai_briefing_action s p enabled interval
run s p (set_source_profile_ai_briefing enabled interval) =
    on_set_source_profile_ai_briefing s p enabled interval
run s p (quick_set_source_enabled source enabled) = on_quick_set_source_enabled s p source enabled
run s p (remove_source_profile_tag tag) = on_remove_source_profile_tag s p tag
run s p (add_source_profile_tags tags) = on_add_source_profile_tags s p tags

-- An operation with what it finds: the answers of the service, and the render that it was made in.
pub record Request : Type 0 where
  pub service : Service
  pub params : Params
  pub operation : Operation

unfoldable pub run_all : List Request → Panel → Panel
run_all [] s = s
run_all (r ∷ rs) s = run_all rs (run r.service r.params r.operation s).1
