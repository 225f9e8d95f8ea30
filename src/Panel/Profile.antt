-- ===== src/Panel/Profile.antt =====
-- The handlers of the profile of one source: its tags and its scheduled briefing.
use urwhaturead.Prelude.{
  ℕ, Bool, true, false, Option, none, some, List, [], ◌∷◌, ◌++◌, map, if◌then◌else◌, ◌==◌, ◌&&◌,
  nat_beq, text_eq, without, Text, codes,
}
use urwhaturead.Task.Poller.{NoticeKind}
use urwhaturead.Sources.{Source, source_tag_list, normalize_source_tags}
use urwhaturead.Panel.{Panel, Params, Service, SourcePatch, empty_patch, update_source}
use urwhaturead.Panel.Action.{
  Action, ◌>>=◌, ◌>>◌, done, modify, request, set_notice, reload_feed, reload_status,
}
use urwhaturead.Panel.Single.{while_busy}
use urwhaturead.Panel.Bulk.{interval_or}

-- By the length first, and then by index.
unfoldable pub equal_string_list : List Text → List Text → Bool
equal_string_list [] [] = true
equal_string_list (a ∷ left) (b ∷ right) = (a == b) && equal_string_list left right
equal_string_list _ _ = false

-- `previous.map((source) => (source.id === updated.id ? updated : source))`
abbrev pub replace_source : Source → List Source → List Source
replace_source updated =
    map (λ (source : Source). if nat_beq source.id updated.id then updated else source)

abbrev pub take_updated : Source → Panel → Panel
take_updated updated s = record s {
  sources = replace_source updated s.sources;
  source_profile_source = some updated;
}

module _ (service : Service) (params : Params) where
  open service use {host, update}

  abbrev pub tags_patch : List Text → SourcePatch
  tags_patch tags = record empty_patch { tags = some tags }

  abbrev save_tags_of : Source → List Text → Action (Unit {0})
  save_tags_of source tags =
      if equal_string_list (source_tag_list host source) tags
      then done
      else while_busy service params source.id
          (do
            updated ←
                request (update_source source.id (tags_patch tags))
                  (update source.id (tags_patch tags))
            modify (take_updated updated)
            reload_feed none
            reload_status)
          (codes "更新标签失败: ")

  abbrev save_tags : Option Source → List Text → Action (Unit {0})
  save_tags none tags = done
  save_tags (some source) tags = save_tags_of source (normalize_source_tags host tags)

  unfoldable pub save_source_profile_tags : List Text → Action (Unit {0})
  save_source_profile_tags = save_tags params.source_profile_source

  unfoldable pub on_remove_source_profile_tag : Text → Action (Unit {0})
  unfolding save_source_profile_tags
  on_remove_source_profile_tag tag =
      save_source_profile_tags (without tag params.source_profile_tags)

  unfoldable pub on_add_source_profile_tags : List Text → Action (Unit {0})
  unfolding save_source_profile_tags
  on_add_source_profile_tags tags = do
    save_source_profile_tags (normalize_source_tags host (params.source_profile_tags ++ tags))
    modify (λ s. record s { source_profile_tag_input = [] })

  abbrev profile_ai_patch : Bool → ℕ → SourcePatch
  profile_ai_patch enabled interval = record empty_patch {
    ai_briefing_enabled = some enabled;
    ai_briefing_interval_min = some interval;
  }

  abbrev ai_text : Bool → Source → Text
  ai_text enabled updated =
      if enabled
      then codes "已为 " ++ (updated.name ++ codes " 开启定时 AI 速览（每天一次）。")
      else codes "已关闭 " ++ (updated.name ++ codes " 的定时 AI 速览。")

  abbrev set_ai : Bool → Option ℕ → Option Source → Action (Unit {0})
  set_ai enabled interval_min none = done
  set_ai enabled interval_min (some source) =
      let patch =
        profile_ai_patch enabled (interval_or interval_min source.ai_briefing_interval_min 360) in
      while_busy service params source.id
        (do
          updated ← request (update_source source.id patch) (update source.id patch)
          modify (take_updated updated)
          set_notice NoticeKind.info (ai_text enabled updated)
          reload_status)
        (codes "更新定时 AI 速览失败: ")

  unfoldable pub on_set_source_profile_ai_briefing : Bool → Option ℕ → Action (Unit {0})
  on_set_source_profile_ai_briefing enabled interval_min =
      set_ai enabled interval_min params.source_profile_source
