-- ===== src/Panel/Released.antt =====
-- Every handler of the panel ends, and releases what it marked as busy.
use urwhaturead.Prelude.{without, text_eq, ◌≡◌, List, [], ◌∷◌}
use urwhaturead.Task.Summary.{answered}
use urwhaturead.Panel.{Panel, Params, Service}
use urwhaturead.Panel.Profile.{on_remove_source_profile_tag}
use urwhaturead.Panel.Operations.{
  Operation, create_source, discover_sources, batch_create_sources, export_sources,
  add_discovered_source, import_sources_file, test_source, refresh_source, save_source_edit,
  toggle_source_enabled, delete_source, reclassify_sources, confirm_delete_source,
  run_bulk_poll_interval_update, run_bulk_source_action, run_bulk_tag_action,
  run_bulk_ai_briefing_action, set_source_profile_ai_briefing, quick_set_source_enabled,
  remove_source_profile_tag, add_source_profile_tags, run, Request, run_all,
}
use urwhaturead.Panel.Flags.{IsIdle}
use urwhaturead.Panel.Settles.{
  add-Settles, add_tags-Settles, confirm-Settles, create-Settles, delete_asked-Settles,
  discover-Settles, export-Settles, import-Settles, profile_ai-Settles, quick_set-Settles,
  reclassify-Settles, refresh-Settles, save-Settles, save_tags-Settles, tag-Settles, test-Settles,
  toggle-Settles,
}
use urwhaturead.Panel.Selected.{ai-Settles, batch-Settles, bulk-Settles, poll-Settles}

-- Every handler of the panel returns, whatever the service answers or throws and whatever the forms
-- hold; started while nothing is marked as running, it leaves nothing marked as running.
pub run-IsIdle :
    (service : Service) (params : Params) (operation : Operation) (s : Panel)
    → IsIdle s
    → ((run service params operation s).0 ≡ answered tt) × IsIdle (run service params operation s).1
unfolding run
run-IsIdle s p create_source t i = create-Settles s p t i
run-IsIdle s p discover_sources t i = discover-Settles s p t i
run-IsIdle s p batch_create_sources t i = batch-Settles s p t i
run-IsIdle s p export_sources t i = export-Settles s p t i
run-IsIdle s p (add_discovered_source c) t i = add-Settles s p c t i
run-IsIdle s p (import_sources_file is_json) t i = import-Settles s p is_json t i
run-IsIdle s p (test_source id) t i = test-Settles s p id t i
run-IsIdle s p (refresh_source id) t i = refresh-Settles s p id t i
run-IsIdle s p (save_source_edit id) t i = save-Settles s p id t i
run-IsIdle s p (toggle_source_enabled source) t i = toggle-Settles s p source t i
run-IsIdle s p (delete_source confirmed source) t i = delete_asked-Settles s p confirmed source t i
run-IsIdle s p reclassify_sources t i = reclassify-Settles s p t i
run-IsIdle s p confirm_delete_source t i = confirm-Settles s p t i
run-IsIdle s p run_bulk_poll_interval_update t i = poll-Settles s p t i
run-IsIdle s p (run_bulk_source_action action) t i = bulk-Settles s p action t i
run-IsIdle s p (run_bulk_tag_action is_add) t i = tag-Settles s p is_add t i
run-IsIdle s p (run_bulk_ai_briefing_action enabled interval) t i =
    ai-Settles s p enabled interval t i
run-IsIdle s p (set_source_profile_ai_briefing enabled interval) t i =
    profile_ai-Settles s p enabled interval t i
run-IsIdle s p (quick_set_source_enabled source enabled) t i =
    quick_set-Settles s p source enabled t i
run-IsIdle s p (remove_source_profile_tag tag) t i =
    unfold on_remove_source_profile_tag in
    save_tags-Settles s p (without tag p.source_profile_tags) t i
run-IsIdle s p (add_source_profile_tags given) t i = add_tags-Settles s p given t i

-- A sequence of handlers, each with its own answers of the service and its own render, leaves nothing
-- marked as running.
pub run_all-IsIdle : (requests : List Request) (s : Panel) → IsIdle s → IsIdle (run_all requests s)
unfolding run_all
run_all-IsIdle [] s i = i
run_all-IsIdle (r ∷ rs) s i =
    run_all-IsIdle rs (run r.service r.params r.operation s).1
      (run-IsIdle r.service r.params r.operation s i).1
