-- ===== src/Briefing/Derived.antt =====
-- hooks/use-feed-briefing-derived.ts: the scope of a briefing, from the filters of the reader.
use urwhaturead.Prelude.{
  ℕ, Bool, true, false, not, ◌||◌, Option, none, some, List, [], ◌∷◌, ◌++◌, map, filter, find?,
  length, take, if◌then◌else◌, nat_beq, Text, codes, trim, is_empty, starts_with, sort, by_asc, pos,
}
use urwhaturead.Prelude.Host.{Host}
use urwhaturead.Prelude.Decimal.{decimal}
use urwhaturead.Task.{build_feed_briefing_task_key, resolve_feed_briefing_scope_label}
use urwhaturead.Stream.{FeedItem}
use urwhaturead.Feed.{parse_source_id_filter}
use urwhaturead.Sources.{Source}
use urwhaturead.Sidebar.Controls.{AppliedSourceGroupFilter, AppliedKind, compare_texts}

pub record DerivedParams : Type 0 where
  pub source_filter : Text
  pub source_group_filter : Option AppliedSourceGroupFilter
  pub reader_sources : List Source
  pub visible_feed : List FeedItem
  pub ai_model : Text
  pub tag_filter : Text
  pub keyword : Text
  pub unread_only : Bool
  pub muted_site_keys : List Text
  pub source_names : List (ℕ × Text)

module _ (host : Host) (params : DerivedParams) where
  open params use {
    source_filter, source_group_filter, reader_sources, visible_feed, ai_model, tag_filter, keyword,
    unread_only, muted_site_keys, source_names,
  }

  unfoldable pub source_filter_ids : List ℕ
  source_filter_ids = parse_source_id_filter source_filter

  unfoldable pub active_feed_briefing_source_ids : List ℕ
  unfolding source_filter_ids
  active_feed_briefing_source_ids = sort (by_asc (λ id. pos id)) source_filter_ids

  unfoldable pub active_feed_briefing_keyword : Text
  active_feed_briefing_keyword = trim keyword

  unfoldable pub active_feed_briefing_muted_site_keys : List Text
  active_feed_briefing_muted_site_keys = sort compare_texts (
      filter (λ key. not (is_empty key))
        (map (λ key. host.to_lower_case (trim key)) muted_site_keys))

  unfoldable pub active_feed_briefing_task_key : Text
  unfolding active_feed_briefing_source_ids active_feed_briefing_keyword
      active_feed_briefing_muted_site_keys
  active_feed_briefing_task_key =
      build_feed_briefing_task_key host ai_model active_feed_briefing_source_ids tag_filter
        active_feed_briefing_keyword unread_only active_feed_briefing_muted_site_keys

  unfoldable pub active_feed_briefing_scope_label : Text
  unfolding active_feed_briefing_source_ids
  active_feed_briefing_scope_label =
      resolve_feed_briefing_scope_label host active_feed_briefing_source_ids source_names tag_filter

  abbrev ids_of_items : List FeedItem → List ℕ
  ids_of_items = map (λ (item : FeedItem). item.id)

  unfoldable pub visible_feed_article_ids : List ℕ
  visible_feed_article_ids = ids_of_items visible_feed

  unfoldable pub active_feed_briefing_anchor_article_ids : List ℕ
  active_feed_briefing_anchor_article_ids = ids_of_items (take 30 visible_feed)

  abbrev only_id : List ℕ → Text
  only_id (id ∷ []) = decimal id
  only_id _ = []

  abbrev is_site : AppliedKind → Bool
  is_site AppliedKind.site = true
  is_site AppliedKind.tag = false

  abbrev select_value : Option AppliedSourceGroupFilter → Text
  select_value (some group) = []
  select_value none = only_id source_filter_ids

  unfoldable pub source_filter_select_value : Text
  unfolding source_filter_ids
  source_filter_select_value = select_value source_group_filter

  abbrev named : ℕ → Option Source → Text
  named id none = codes "来源: " ++ decimal id
  named id (some source) = codes "来源: " ++ source.name

  abbrev chip_of_ids : List ℕ → Text
  chip_of_ids (id ∷ []) = named id (find? (λ (s : Source). nat_beq s.id id) reader_sources)
  chip_of_ids ids = codes "来源: " ++ (decimal (length ids) ++ codes " 个来源")

  abbrev chip_label : Option AppliedSourceGroupFilter → Text
  chip_label none = chip_of_ids source_filter_ids
  chip_label (some group) =
      (if is_site group.kind || starts_with group.key (codes "site:")
        then codes "站点"
        else codes "标签")
      ++ (codes ": " ++ group.label)

  unfoldable pub source_filter_chip_label : Text
  unfolding source_filter_ids
  source_filter_chip_label = if is_empty source_filter then [] else chip_label source_group_filter
