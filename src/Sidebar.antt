-- ===== src/Sidebar.antt =====
-- hooks/use-reader-sidebar-state.ts: the sources, tags and groups that the sidebar shows, with the
-- comparators of lib/app-utils.ts; the children have the handlers of use-reader-sidebar-controls.ts and
-- use-reader-filter-controls.ts. `localeCompare` is an argument.
pub mod Controls
pub mod Filters
pub mod Ids
pub mod Scope
pub mod Ordered
pub mod Groups
pub mod Laws
mod Tests
use urwhaturead.Prelude.{
  ℕ, ◌+◌, Bool, true, false, not, ◌&&◌, Option, none, some, List, [], ◌∷◌, ◌++◌, map, filter, any,
  all, length, take, if◌then◌else◌, ltb, ◌==◌, text_eq, Text, codes, trim, is_empty, includes, sort,
  lexicographic, then_by, by_desc, by_asc, ℤ, pos, negsuc, ◌-ℤ◌,
}
use urwhaturead.Prelude.Host.{Host}
use urwhaturead.Stream.{is_nil}
use urwhaturead.Sources.{Source, or_zero, text_or_empty, source_tag_list}

pub data SourceKind : Type 0 where
  feed thread : SourceKind

pub data SidebarTagFilterMode : Type 0 where
  or and : SidebarTagFilterMode

pub record SourceGroup : Type 0 where
  pub key : Text
  pub label : Text
  pub click_total : ℕ
  pub sources : List Source

abbrev tracked_sidebar_preview_limit : ℕ
tracked_sidebar_preview_limit = 10

abbrev sidebar_tag_collapse_count : ℕ
sidebar_tag_collapse_count = 8

unfoldable pub source_click_count : Source → ℕ
source_click_count source = or_zero source.click_count

-- The second time minus the first, where `none` is `NaN`: a comparison with it is unequal, and the
-- comparator returns `NaN`, which a sort reads as 0.
unfoldable pub time_gap : Option ℤ → Option ℤ → ℤ → ℤ
time_gap (some left) (some right) rest = then_by (right -ℤ left) rest
time_gap _ _ rest = pos 0

abbrev max_ℤ : ℤ → ℤ → ℤ
max_ℤ (pos a) (pos b) = if ltb a b then pos b else pos a
max_ℤ (pos a) (negsuc b) = pos a
max_ℤ (negsuc a) (pos b) = pos b
max_ℤ (negsuc a) (negsuc b) = if ltb b a then negsuc b else negsuc a

-- `Number.isFinite(time) ? time : 0`
abbrev pub finite_or_zero : Option ℤ → ℤ
finite_or_zero none = pos 0
finite_or_zero (some t) = t

module _ (host : Host) where
  unfoldable pub normalize_source_kind : Option Text → SourceKind
  normalize_source_kind kind =
      if host.to_lower_case (trim (text_or_empty kind)) == codes "thread"
      then SourceKind.thread
      else SourceKind.feed

  abbrev pub is_of_thread : Source → Bool
  is_of_thread source = elim (normalize_source_kind source.kind) [ feed ↦ false | thread ↦ true ]

  -- `text ? Date.parse(text) : 0`
  abbrev pub date_or_zero : Option Text → Option ℤ
  date_or_zero none = some (pos 0)
  date_or_zero (some text) = if is_empty text then some (pos 0) else host.date_parse text

  unfoldable pub compare_sources_by_clicks_desc : Source → Source → ℤ
  compare_sources_by_clicks_desc left right =
      then_by (pos (source_click_count right) -ℤ pos (source_click_count left)) (
        time_gap (date_or_zero left.last_clicked_at) (date_or_zero right.last_clicked_at)
          (pos right.id -ℤ pos left.id))

  unfoldable pub source_activity_timestamp : Source → ℤ
  source_activity_timestamp source = max_ℤ (finite_or_zero (date_or_zero source.last_fetched_at)) (
      max_ℤ (finite_or_zero (date_or_zero source.last_clicked_at))
        (finite_or_zero (date_or_zero source.updated_at)))

  unfoldable pub compare_tracked_sources_by_activity_desc : Source → Source → ℤ
  compare_tracked_sources_by_activity_desc left right =
      then_by (source_activity_timestamp right -ℤ source_activity_timestamp left)
        (compare_sources_by_clicks_desc left right)

  abbrev pub is_feed_shown : Source → Bool
  is_feed_shown source = not (is_of_thread source) && not source.hidden_in_sidebar

  abbrev pub is_thread_shown : Source → Bool
  is_thread_shown source = is_of_thread source && not source.hidden_in_sidebar

  unfoldable pub reader_feed_sources : List Source → List Source
  reader_feed_sources sources = sort compare_sources_by_clicks_desc (filter is_feed_shown sources)

  unfoldable pub reader_tracked_sources : List Source → List Source
  reader_tracked_sources sources =
      sort compare_tracked_sources_by_activity_desc (filter is_thread_shown sources)

  unfoldable pub reader_sources : List Source → List Source
  reader_sources sources = reader_feed_sources sources ++ reader_tracked_sources sources

  abbrev pub has_more_tracked : List Source → Bool
  has_more_tracked sources =
      ltb tracked_sidebar_preview_limit (length (reader_tracked_sources sources))

  unfoldable pub shows_all_tracked : Bool → Bool → List Source → Bool
  shows_all_tracked show_tracked show_all sources =
      show_tracked && (has_more_tracked sources && show_all)

  unfoldable pub visible_tracked_sidebar_sources : Bool → Bool → List Source → List Source
  visible_tracked_sidebar_sources show_tracked show_all sources =
      if shows_all_tracked show_tracked show_all sources
      then reader_tracked_sources sources
      else take tracked_sidebar_preview_limit (reader_tracked_sources sources)

  -- `new Set(sourceTagList(source).map((tag) => tag.toLowerCase()))`
  abbrev pub tag_keys : Source → List Text
  tag_keys source = map host.to_lower_case (source_tag_list host source)

  abbrev pub new_group : Text → Source → SourceGroup
  new_group label source = record {
    key = host.to_lower_case label;
    label = label;
    click_total = source_click_count source;
    sources = source ∷ [];
  }

  -- The bucket of the label with the source pushed, in the order in which the map got its keys.
  unfoldable pub add_to_groups : Source → List SourceGroup → Text → List SourceGroup
  add_to_groups source [] label = new_group label source ∷ []
  add_to_groups source (g ∷ groups) label =
      let later = g ∷ add_to_groups source groups label in
      if g.key == host.to_lower_case label
      then record g {
        click_total = g.click_total + source_click_count source;
        sources = g.sources ++ source ∷ [];
      }
        ∷ groups
      else later

  abbrev pub add_labels : Source → List SourceGroup → List Text → List SourceGroup
  add_labels source groups [] = groups
  add_labels source groups (label ∷ labels) =
      add_labels source (add_to_groups source groups label) labels

  unfoldable pub group_map : List SourceGroup → List Source → List SourceGroup
  group_map groups [] = groups
  group_map groups (source ∷ sources) =
      group_map (add_labels source groups (source_tag_list host source)) sources

  abbrev pub with_sorted_sources : SourceGroup → SourceGroup
  with_sorted_sources g = record g { sources = sort compare_sources_by_clicks_desc g.sources }

  abbrev pub group_order : (Text → Text → ℤ) → SourceGroup → SourceGroup → ℤ
  group_order locale_compare =
      lexicographic (by_desc (λ g. pos g.click_total)) (λ a b. locale_compare a.label b.label)

  unfoldable pub source_groups : (Text → Text → ℤ) → List Source → List SourceGroup
  source_groups locale_compare sources =
      sort (group_order locale_compare)
        (map with_sorted_sources (group_map [] (reader_feed_sources sources)))

  -- `mode === 'and' ? filters.every(has) : filters.some(has)`
  unfoldable pub matches_tags : SidebarTagFilterMode → List Text → Source → Bool
  matches_tags and filters source = all (includes (tag_keys source)) filters
  matches_tags or filters source = any (includes (tag_keys source)) filters

  unfoldable pub sidebar_visible_feed_sources :
      SidebarTagFilterMode → List Text → List Source → List Source
  sidebar_visible_feed_sources mode filters sources =
      if is_nil filters
      then reader_feed_sources sources
      else filter (matches_tags mode filters) (reader_feed_sources sources)

  unfoldable pub shows_all_sidebar_tags : (Text → Text → ℤ) → List Text → Bool → List Source → Bool
  shows_all_sidebar_tags locale_compare filters show_all sources =
      if not (is_nil filters)
      then true
      else ltb sidebar_tag_collapse_count (length (source_groups locale_compare sources))
        && show_all
