-- ===== src/Sources.antt =====
-- hooks/use-source-management-state.ts: which sources the management panel lists, in which order, and
-- which are selected; with the helpers on tags, kinds and health of lib/app-utils.ts. `localeCompare`
-- is an argument, and a map of statuses is given by the health of each id.
pub mod Selection
pub mod Listing
mod Tests
use urwhaturead.Prelude.{
  ℕ, suc, ◌+◌, Bool, true, false, not, ◌&&◌, ◌||◌, Option, none, some, List, [], ◌∷◌, ◌++◌, map,
  filter, length, if◌then◌else◌, ltb, nat_beq, nat_eq, text_eq, ◌==◌, Text, codes, trim, is_empty,
  starts_with, includes, lookup, join, sort, lexicographic, ℤ, pos, negsuc, ◌-ℤ◌, distinct_from,
  without,
}
use urwhaturead.Prelude.Host.{Host}

pub data SourceHealth : Type 0 where
  ok warn error stale disabled new : SourceHealth

pub data SourceHealthFilter : Type 0 where
  every : SourceHealthFilter
  only : SourceHealth → SourceHealthFilter

pub data SourceQuickView : Type 0 where
  all attention ai disabled thread active : SourceQuickView

pub data SourceSortKey : Type 0 where
  health name new_articles clicks last_fetched last_clicked ai_generated : SourceSortKey

-- The fields of `Source` that the list reads.
pub record Source : Type 0 where
  pub id : ℕ
  pub name : Text
  pub rss_url : Text
  pub kind : Option Text
  pub tags : List Text
  pub new_articles_24h : Option ℕ
  pub click_count : Option ℕ
  pub last_fetched_at : Option Text
  pub last_clicked_at : Option Text
  pub ai_briefing_enabled : Bool
  pub ai_briefing_interval_min : Option ℕ
  pub ai_briefing_last_generated_at : Option Text
  pub enabled : Bool
  pub hidden_in_sidebar : Bool
  pub updated_at : Option Text

unfoldable pub resolve_source_health : List (ℕ × SourceHealth) → Source → SourceHealth
resolve_source_health statuses source = elim (lookup source.id statuses) [
  | some h ↦ h
  | none ↦ if source.enabled then SourceHealth.new else SourceHealth.disabled
]

unfoldable pub source_health_priority : SourceHealth → ℕ
source_health_priority SourceHealth.error = 6
source_health_priority SourceHealth.warn = 5
source_health_priority SourceHealth.stale = 4
source_health_priority SourceHealth.new = 3
source_health_priority SourceHealth.ok = 2
source_health_priority SourceHealth.disabled = 1

abbrev pub same_health : SourceHealth → SourceHealth → Bool
same_health a b = nat_beq (source_health_priority a) (source_health_priority b)

unfoldable pub health_label : SourceHealth → Text
health_label SourceHealth.ok = codes "健康"
health_label SourceHealth.warn = codes "警告"
health_label SourceHealth.error = codes "错误"
health_label SourceHealth.stale = codes "陈旧"
health_label SourceHealth.disabled = codes "停用"
health_label SourceHealth.new = codes "新来源"

pub record HealthCounts : Type 0 where
  pub ok : ℕ
  pub warn : ℕ
  pub error : ℕ
  pub stale : ℕ
  pub disabled : ℕ
  pub new : ℕ

abbrev no_counts : HealthCounts
no_counts = record { ok = 0; warn = 0; error = 0; stale = 0; disabled = 0; new = 0 }

-- `counts[health] += 1`
abbrev pub count_health : SourceHealth → HealthCounts → HealthCounts
count_health SourceHealth.ok c = record c { ok = c.ok + 1 }
count_health SourceHealth.warn c = record c { warn = c.warn + 1 }
count_health SourceHealth.error c = record c { error = c.error + 1 }
count_health SourceHealth.stale c = record c { stale = c.stale + 1 }
count_health SourceHealth.disabled c = record c { disabled = c.disabled + 1 }
count_health SourceHealth.new c = record c { new = c.new + 1 }

unfoldable pub count_sources : List (ℕ × SourceHealth) → HealthCounts → List Source → HealthCounts
count_sources statuses c [] = c
count_sources statuses c (source ∷ sources) =
    count_sources statuses (count_health (resolve_source_health statuses source) c) sources

unfoldable pub source_health_counts : List (ℕ × SourceHealth) → List Source → HealthCounts
source_health_counts statuses = count_sources statuses no_counts

-- `text.includes(part)`
unfoldable pub contains_text : Text → Text → Bool
contains_text [] part = is_empty part
contains_text (c ∷ s) part = starts_with (c ∷ s) part || contains_text s part

abbrev pub or_zero : Option ℕ → ℕ
or_zero none = 0
or_zero (some n) = n

abbrev pub text_or_empty : Option Text → Text
text_or_empty none = []
text_or_empty (some s) = s

pub record SourceFilters : Type 0 where
  pub keyword : Text
  pub tag_filter : Text
  pub health_filter : SourceHealthFilter
  pub quick_view : SourceQuickView
  pub sort_key : SourceSortKey
  pub sort_desc : Bool

module _ (host : Host) where
  unfoldable pub normalize_source_tag_value : Text → Text
  normalize_source_tag_value value = host.to_lower_case (trim value)

  -- The loop of `normalizeSourceTags`, over the tags kept so far.
  unfoldable pub tags_from : List Text → List Text → List Text
  tags_from output [] = output
  tags_from output (value ∷ values) =
      let normalized = normalize_source_tag_value value in
      let skipped = tags_from output values in
      let kept = tags_from (output ++ normalized ∷ []) values in
      if is_empty normalized || includes output normalized then skipped else kept

  unfoldable pub normalize_source_tags : List Text → List Text
  normalize_source_tags = tags_from []

  -- `input.split(/[,\n，]/g)`, where `front` is read of a part.
  unfoldable pub split_tags : Text → Text → List Text
  split_tags front [] = front ∷ []
  split_tags front (c ∷ s) =
      let parted = front ∷ split_tags [] s in
      let joined = split_tags (front ++ c ∷ []) s in
      if nat_beq c b',' || nat_beq c 10 || nat_beq c 0xff0c then parted else joined

  unfoldable pub parse_source_tag_input : Text → List Text
  parse_source_tag_input input =
      if is_empty (trim input) then [] else normalize_source_tags (split_tags [] input)

  -- `tags.length > 0 ? tags : ['general']`
  abbrev pub or_general : List Text → List Text
  or_general [] = codes "general" ∷ []
  or_general (tag ∷ tags) = tag ∷ tags

  unfoldable pub source_tag_list : Source → List Text
  source_tag_list source = or_general (normalize_source_tags source.tags)

  module _ (statuses : List (ℕ × SourceHealth)) where
    abbrev health_of : Source → SourceHealth
    health_of = resolve_source_health statuses

    abbrev passes_health : SourceHealthFilter → Source → Bool
    passes_health every source = true
    passes_health (only h) source = same_health (health_of source) h

    unfoldable pub needs_attention : SourceHealth → Bool
    needs_attention SourceHealth.error = true
    needs_attention SourceHealth.warn = true
    needs_attention SourceHealth.stale = true
    needs_attention _ = false

    unfoldable pub passes_quick_view : SourceQuickView → Source → Bool
    passes_quick_view SourceQuickView.all source = true
    passes_quick_view SourceQuickView.attention source = needs_attention (health_of source)
    passes_quick_view SourceQuickView.ai source = source.ai_briefing_enabled
    passes_quick_view SourceQuickView.disabled source = not source.enabled
    passes_quick_view SourceQuickView.thread source = text_or_empty source.kind == codes "thread"
    passes_quick_view SourceQuickView.active source = not (ltb (or_zero source.new_articles_24h) 5)

    unfoldable pub haystack : List (ℕ × Text) → Source → Text
    haystack site_keys source = host.to_lower_case (
        source.name
        ++ (codes " "
            ++ (source.rss_url
                ++ (codes " "
                    ++ (join (codes " ") (source_tag_list source)
                        ++ (codes " " ++ text_or_empty (lookup source.id site_keys)))))))

    unfoldable pub passes_filters : List (ℕ × Text) → SourceFilters → Source → Bool
    passes_filters site_keys filters source =
        let normalized_keyword = host.to_lower_case (trim filters.keyword) in
        if not (is_empty filters.tag_filter)
          && not (includes (source_tag_list source) filters.tag_filter)
        then false
        else if not (passes_health filters.health_filter source)
        then false
        else if not (passes_quick_view filters.quick_view source)
        then false
        else if is_empty normalized_keyword
        then true
        else contains_text (haystack site_keys source) normalized_keyword

    -- `Date.parse(text ?? '') || 0`
    abbrev time_of : Option Text → ℤ
    time_of text = elim (host.date_parse (text_or_empty text)) [ none ↦ pos 0 | some t ↦ t ]

    -- `compareNumber` of the values of a key.
    abbrev pub directed : Bool → (Source → ℤ) → Source → Source → ℤ
    directed desc key left right = if desc then key right -ℤ key left else key left -ℤ key right

    -- `compareString` of the names.
    abbrev pub directed_by_name : (Text → Text → ℤ) → Bool → Source → Source → ℤ
    directed_by_name locale_compare desc left right =
        if desc then locale_compare right.name left.name else locale_compare left.name right.name

    unfoldable pub compare_by_key : (Text → Text → ℤ) → Bool → SourceSortKey → Source → Source → ℤ
    compare_by_key locale_compare desc SourceSortKey.name = directed_by_name locale_compare desc
    compare_by_key locale_compare desc SourceSortKey.new_articles =
        directed desc (λ s. pos (or_zero s.new_articles_24h))
    compare_by_key locale_compare desc SourceSortKey.clicks =
        directed desc (λ s. pos (or_zero s.click_count))
    compare_by_key locale_compare desc SourceSortKey.last_fetched =
        directed desc (λ s. time_of s.last_fetched_at)
    compare_by_key locale_compare desc SourceSortKey.last_clicked =
        directed desc (λ s. time_of s.last_clicked_at)
    compare_by_key locale_compare desc SourceSortKey.ai_generated =
        directed desc (λ s. time_of s.ai_briefing_last_generated_at)
    compare_by_key locale_compare desc SourceSortKey.health =
        directed desc (λ s. pos (source_health_priority (health_of s)))

    abbrev pub enabled_first : Source → Source → ℤ
    enabled_first left right =
        (if left.enabled then pos 0 else pos 1) -ℤ (if right.enabled then pos 0 else pos 1)

    abbrev pub source_order : (Text → Text → ℤ) → SourceFilters → Source → Source → ℤ
    source_order locale_compare filters =
        lexicographic (compare_by_key locale_compare filters.sort_desc filters.sort_key)
          (lexicographic enabled_first (directed filters.sort_desc (λ s. pos s.id)))

    unfoldable pub filtered_sources :
        (Text → Text → ℤ) → List (ℕ × Text) → SourceFilters → List Source → List Source
    filtered_sources locale_compare site_keys filters sources =
        sort (source_order locale_compare filters)
          (filter (passes_filters site_keys filters) sources)

unfoldable pub clear_source_manage_filters : SourceFilters → SourceFilters
clear_source_manage_filters filters = record filters {
  keyword = [];
  tag_filter = [];
  health_filter = every;
}

abbrev pub ids_of : List Source → List ℕ
ids_of = map (λ (s : Source). s.id)

unfoldable pub selected_source_ids : List Source → List ℕ → List ℕ
selected_source_ids sources = filter (includes (ids_of sources))

unfoldable pub selected_visible_count : List ℕ → List ℕ → ℕ
selected_visible_count visible selected = length (filter (includes selected) visible)

unfoldable pub all_visible_selected : List ℕ → List ℕ → Bool
all_visible_selected visible selected =
    ltb 0 (length visible) && nat_beq (selected_visible_count visible selected) (length visible)

unfoldable pub toggle_source_selection : ℕ → List ℕ → List ℕ
toggle_source_selection id previous =
    if includes previous id then without id previous else previous ++ id ∷ []

abbrev delete_each : List ℕ → List ℕ → List ℕ
delete_each [] set = set
delete_each (id ∷ ids) set = delete_each ids (without id set)

-- The set of the previous ids, to which each visible one is added, or from which it is deleted.
unfoldable pub toggle_select_all_visible_sources : List ℕ → Bool → List ℕ → List ℕ
toggle_select_all_visible_sources visible next_selected previous =
    let set = distinct_from [] previous in
    if next_selected then distinct_from set visible else delete_each visible set
