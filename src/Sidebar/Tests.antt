-- ===== src/Sidebar/Tests.antt =====
-- Concrete runs of the sidebar.
use urwhaturead.Prelude.{
  is_empty, ℕ, ◌≡◌, refl, true, false, none, some, List, [], ◌∷◌, filter, any, All, text_eq, nat_eq,
  Text, codes, includes, has_key, HasDistinctKeys, sort, sort_insert, distinct_from, ◌-ℤ◌, IsSorted,
  trim, trim_start, is_white_space, text_beq, pos, arith,
}
use mathlib.Core.List.{Perm}
use urwhaturead.Prelude.Samples.{small_host, lower}
use urwhaturead.Feed.{parse_source_id_filter}
use urwhaturead.Sources.{Source, ids_of}
use urwhaturead.Sidebar.{
  or, and, reader_feed_sources, sidebar_visible_feed_sources, source_groups, is_feed_shown,
}
use urwhaturead.Sidebar.Controls.{
  Controls, load_feed, reset_feed_briefing_state, no_overrides, source_id_value, normalize_tag_keys,
  apply_sidebar_tag_filters, toggle_sidebar_tag_filter,
}
use urwhaturead.Sidebar.Ids.{parse_source_id_filter-value}
use urwhaturead.Sidebar.Scope.{apply_sidebar_tag_filters_lem, includes-toggle_tag}
use urwhaturead.Sidebar.Ordered.{reader_feed_sources-IsSorted, click_order}
use urwhaturead.Sidebar.Groups.{source_groups_lem, IsGroupOf, IsLowering, group_key, has_tag}

abbrev source : ℕ → Text → ℕ → Source
source id tag clicks = record {
  id = id;
  name = codes "Alpha";
  rss_url = codes "https:x";
  kind = none;
  tags = tag ∷ [];
  new_articles_24h = none;
  click_count = some clicks;
  last_fetched_at = none;
  last_clicked_at = none;
  ai_briefing_enabled = false;
  ai_briefing_interval_min = none;
  ai_briefing_last_generated_at = none;
  enabled = true;
  hidden_in_sidebar = false;
  updated_at = none;
}

abbrev sources : List Source
sources = source 12 (codes "News") 1 ∷ source 3 (codes "news") 5 ∷ source 4 (codes "ai") 5 ∷ []

abbrev controls : Controls
controls = record {
  source_group_filter = none;
  sidebar_tag_filters = codes "ai" ∷ [];
  sidebar_tag_filter_mode = or;
  show_subscription_sidebar = true;
  keyword = [];
  tag_filter = [];
  source_filter = [];
  unread_only = false;
  favorite_only = false;
  muted_site_keys = [];
  selected_article_id = none;
  shows_article = false;
  feed_cursor = [];
  ai_model = codes "m";
  show_manage_model_picker = false;
  summary_request_seq = 0;
  article_summary = [];
  article_summary_meta = [];
  article_summary_error = none;
  notice = none;
  source_profile_source = none;
  source_profile_tag_picker_open = false;
  source_profile_tag_input = [];
  pending_delete_source = none;
  effects = [];
}

parse_source_id_filter-value_example :
    parse_source_id_filter (source_id_value (12 ∷ 3 ∷ 12 ∷ [])) ≡ 3 ∷ 12 ∷ []
unfolding sort sort_insert distinct_from includes ◌-ℤ◌
parse_source_id_filter-value_example = parse_source_id_filter-value (12 ∷ 3 ∷ 12 ∷ []) (omega arith)

abbrev chosen : Controls
chosen =
    apply_sidebar_tag_filters small_host (reader_feed_sources small_host sources) []
      (codes " News " ∷ []) and controls

apply_sidebar_tag_filters_lem_example :
    (includes (parse_source_id_filter chosen.source_filter) 12
      ≡ includes
          (ids_of (
            sidebar_visible_feed_sources small_host chosen.sidebar_tag_filter_mode
              chosen.sidebar_tag_filters sources))
          12)
    × (is_empty chosen.source_filter ≡ false)
    × (chosen.effects
        ≡ load_feed
            (record no_overrides { source_id = some chosen.source_filter; cursor = some [] })
          ∷ reset_feed_briefing_state
          ∷ [])
unfolding normalize_tag_keys sort distinct_from trim trim_start is_white_space includes
apply_sidebar_tag_filters_lem_example =
    apply_sidebar_tag_filters_lem small_host sources [] (omega arith) (codes " News " ∷ []) and
      controls 12 refl

includes-toggle_tag_example :
    includes
      (toggle_sidebar_tag_filter small_host sources [] (codes "news") controls).sidebar_tag_filters
      (codes "news")
    ≡ true
unfolding trim includes trim_start is_white_space text_beq
includes-toggle_tag_example =
    includes-toggle_tag small_host sources [] (codes "news") (codes "news") controls
      ((refl, refl), tt) (refl, refl)

reader_feed_sources-IsSorted_example :
    Perm (reader_feed_sources small_host sources) (filter (is_feed_shown small_host) sources)
    × IsSorted (click_order small_host) (reader_feed_sources small_host sources)
reader_feed_sources-IsSorted_example =
    reader_feed_sources-IsSorted small_host sources (refl, (refl, (refl, tt)))

lower-lower : (c : ℕ) → lower (lower c) ≡ lower c
lower-lower c = ground arith

lower_twice :
    (s : Text) → small_host.to_lower_case (small_host.to_lower_case s) ≡ small_host.to_lower_case s
lower_twice [] = refl
lower_twice (c ∷ s) = rw (lower-lower c, lower_twice s) refl

small_host-IsLowering : IsLowering small_host
small_host-IsLowering = record { twice = lower_twice; general = refl }

source_groups_lem_example :
    All
      (IsGroupOf small_host (reader_feed_sources small_host sources))
      (source_groups small_host (λ a b. pos 0) sources)
    × HasDistinctKeys group_key (source_groups small_host (λ a b. pos 0) sources)
    × (has_key group_key (codes "news") (source_groups small_host (λ a b. pos 0) sources)
        ≡ any (has_tag small_host (codes "news")) (reader_feed_sources small_host sources))
source_groups_lem_example =
    source_groups_lem small_host small_host-IsLowering (λ a b. pos 0) sources (codes "news")
