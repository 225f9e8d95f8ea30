-- ===== src/Panel/Settles.antt =====
-- The handlers of one source, of creation and of files end and leave nothing running.
use urwhaturead.Prelude.{
  ℕ, text_eq, ◌≡◌, refl, Bool, true, false, Option, none, some, List, ◌++◌, Text, arith,
}
use urwhaturead.Task.Summary.{answered}
use urwhaturead.Sources.{Source, normalize_source_tags}
use urwhaturead.Panel.{DiscoverSourceCandidate, Params, Service}
use urwhaturead.Panel.Single.{
  on_test_source, on_refresh_source, on_save_source_edit, on_toggle_source_enabled,
  on_delete_source, on_confirm_delete_source, on_quick_set_source_enabled,
  delete_source_and_refresh, delete_given, on_cancel_edit,
}
use urwhaturead.Panel.Bulk.{on_run_bulk_tag_action, on_reclassify_sources}
use urwhaturead.Panel.Create.{
  on_create_source, on_discover_sources, on_add_discovered_source, on_export_sources,
  on_import_sources_file,
}
use urwhaturead.Panel.Batch.{tags}
use urwhaturead.Panel.Profile.{
  on_add_source_profile_tags, on_set_source_profile_ai_briefing, save_source_profile_tags,
}
use urwhaturead.Panel.Flags.{IsIdle, Settles}

module _ (service : Service) (params : Params) where
  pub test-Settles : (id : ℕ) → Settles (on_test_source service params id)
  unfolding on_test_source
  test-Settles id s i = ground arith

  pub refresh-Settles : (id : ℕ) → Settles (on_refresh_source service params id)
  unfolding on_refresh_source
  refresh-Settles id s i = ground arith

  pub save-Settles : (id : ℕ) → Settles (on_save_source_edit service params id)
  unfolding on_save_source_edit
  save-Settles id s i = ground arith

  pub toggle-Settles : (source : Source) → Settles (on_toggle_source_enabled service params source)
  unfolding on_toggle_source_enabled
  toggle-Settles source s i = ground arith

  pub delete-Settles : (source : Source) → Settles (delete_source_and_refresh service params source)
  unfolding delete_source_and_refresh on_cancel_edit
  delete-Settles source s i = ground arith

  pub quick_set-Settles :
      (source : Source) (enabled : Bool)
      → Settles (on_quick_set_source_enabled service params source enabled)
  unfolding on_quick_set_source_enabled
  quick_set-Settles source enabled s i = ground arith

  pub create-Settles : Settles (on_create_source service params)
  unfolding on_create_source
  create-Settles s i = ground arith

  pub discover-Settles : Settles (on_discover_sources service params)
  unfolding on_discover_sources
  discover-Settles s i = ground arith

  pub add-Settles :
      (c : DiscoverSourceCandidate) → Settles (on_add_discovered_source service params c)
  unfolding on_add_discovered_source
  add-Settles c s i = ground arith

  pub export-Settles : Settles (on_export_sources service params)
  unfolding on_export_sources
  export-Settles s i = ground arith

  pub import-Settles : (is_json : Bool) → Settles (on_import_sources_file service params is_json)
  unfolding on_import_sources_file
  import-Settles is_json s i = ground arith

  pub tag-Settles : (is_add : Bool) → Settles (on_run_bulk_tag_action service params is_add)
  unfolding on_run_bulk_tag_action
  tag-Settles is_add s i = ground arith

  pub reclassify-Settles : Settles (on_reclassify_sources service params)
  unfolding on_reclassify_sources
  reclassify-Settles s i = ground arith

  pub save_tags-Settles :
      (tags : List Text) → Settles (save_source_profile_tags service params tags)
  unfolding save_source_profile_tags
  save_tags-Settles tags s i = ground arith

  pub profile_ai-Settles :
      (enabled : Bool) (interval : Option ℕ)
      → Settles (on_set_source_profile_ai_briefing service params enabled interval)
  unfolding on_set_source_profile_ai_briefing
  profile_ai-Settles enabled interval s i = ground arith

  pub confirm-Settles : Settles (on_confirm_delete_source service params)
  unfolding on_confirm_delete_source
  confirm-Settles s i =
      elim params.pending_delete_source
        as (λ o.
          ((delete_given service params o s).0 ≡ answered tt)
          × IsIdle (delete_given service params o s).1) [
            | none ↦ (refl, i)
            | some source ↦ delete-Settles source s i
          ]

  pub delete_asked-Settles :
      (confirmed : Bool) (source : Source)
      → Settles (on_delete_source service params confirmed source)
  unfolding on_delete_source
  delete_asked-Settles true source s i = delete-Settles source s i
  delete_asked-Settles false source s i = (refl, i)

  pub add_tags-Settles :
      (given : List Text) → Settles (on_add_source_profile_tags service params given)
  unfolding on_add_source_profile_tags
  add_tags-Settles given s i = ground (
    arith,
    save_tags-Settles (normalize_source_tags service.host (params.source_profile_tags ++ given)) s,
  )
