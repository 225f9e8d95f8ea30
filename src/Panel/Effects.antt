-- ===== src/Panel/Effects.antt =====
-- What a deletion and a change of tags do to the page, by the answer of the service.
use urwhaturead.Prelude.{
  ◌≡◌, ◌↔◌, refl, true, Option, none, some, List, [], ◌∷◌, if◌then◌else◌, Text, text_eq, arith,
}
use urwhaturead.Task.Summary.{Reply, threw, answered}
use urwhaturead.Sources.{Source, source_tag_list, normalize_source_tags}
use urwhaturead.Panel.{
  Panel, Params, Service, Call, delete_source, load_sources, load_feed, refresh_status,
}
use urwhaturead.Panel.Single.{
  delete_source_and_refresh, on_cancel_edit, no_edit, filters_on, is_source,
}
use urwhaturead.Panel.Profile.{equal_string_list, replace_source, save_source_profile_tags}
use urwhaturead.Panel.Batch.{accepts}

eq_of-equal : (left right : List Text) → equal_string_list left right ≡ true → left ≡ right
unfolding equal_string_list
eq_of-equal [] [] h = refl
eq_of-equal [] (b ∷ right) h = cc
eq_of-equal (a ∷ left) [] h = cc
eq_of-equal (a ∷ left) (b ∷ right) h = ground (arith, eq_of-equal left right, text_eq.beq_iff a b)

equal_of-eq : (left right : List Text) → left ≡ right → equal_string_list left right ≡ true
unfolding equal_string_list
equal_of-eq [] [] h = refl
equal_of-eq [] (b ∷ right) h = cc
equal_of-eq (a ∷ left) [] h = cc
equal_of-eq (a ∷ left) (b ∷ right) h = ground (arith, equal_of-eq left right, text_eq.beq_iff a b)

-- `equalStringList` decides whether two lists are the same.
pub equal_string_list_iff :
    (left right : List Text) → (equal_string_list left right ≡ true) ↔ (left ≡ right)
unfolding equal_string_list
equal_string_list_iff left right = (eq_of-equal left right, equal_of-eq left right)

module _ (service : Service) (params : Params) (s : Panel) where
  -- If the service deletes the source, the page is told so once, with whether the source was in the
  -- filter, and the sources, the feed and the status are reloaded in this order, the feed without a
  -- source filter exactly if the source was in it. If the service throws, nothing is reloaded and the
  -- page is not told. In both cases the sources stay until a reload, an open edit of the deleted
  -- source is closed, and an edit of another one stays.
  pub delete_source_and_refresh_lem :
      (source : Source)
      → let after = (delete_source_and_refresh service params source s).1 in
        let in_filter = filters_on service params source.id in
        let deletes = accepts (service.delete source.id) in
        (after.deleted ≡ (if deletes then (source.id, in_filter) ∷ s.deleted else s.deleted))
        × (after.calls ≡ (
            if deletes
            then refresh_status
              ∷ load_feed (if in_filter then some [] else none)
              ∷ load_sources
              ∷ delete_source source.id
              ∷ s.calls
            else delete_source source.id ∷ s.calls))
        × (after.sources ≡ s.sources)
        × (after.edit
            ≡ (if is_source source.id params.edit.editing_source_id then no_edit else s.edit))
  unfolding delete_source_and_refresh on_cancel_edit
  delete_source_and_refresh_lem source = ground arith

  -- Of the answer to an update of a source: the list of sources, the source of the profile, and the
  -- reloads that follow.
  abbrev pub sources_after : Reply Source → List Source
  sources_after (answered updated) = replace_source updated s.sources
  sources_after (threw message) = s.sources

  abbrev pub profile_after : Reply Source → Option Source
  profile_after (answered updated) = some updated
  profile_after (threw message) = s.source_profile_source

  abbrev pub reloads_after : Reply Source → List Call
  reloads_after (answered updated) = refresh_status ∷ load_feed none ∷ []
  reloads_after (threw message) = []

  -- Tags for the source of the profile that normalise to the ones it has change nothing and ask
  -- nothing.
  pub save_source_profile_tags-same :
      (source : Source) (given : List Text)
      → params.source_profile_source ≡ some source
      → source_tag_list service.host source ≡ normalize_source_tags service.host given
      → save_source_profile_tags service params given s ≡ (answered tt, s)
  unfolding save_source_profile_tags
  save_source_profile_tags-same source given h same = rw (h, equal_of-eq _ _ same) refl
