-- ===== src/Sources/Tests.antt =====
-- Concrete runs of the source list.
use urwhaturead.Prelude.{then_by}
use urwhaturead.Prelude.{
  trim, trim_start, is_white_space, text_beq, starts_with, ◌-ℤ◌, lookup, sort_insert, join, ℕ, ◌≡◌,
  refl, true, false, not, Bool, none, some, List, [], ◌∷◌, length, if◌then◌else◌, nat_beq, nat_eq,
  text_eq, codes, includes, ℤ, pos, negsuc, Text, sort,
}
use urwhaturead.Prelude.Samples.{small_host}
use urwhaturead.Sources.{
  source_tag_list, tags_from, normalize_source_tag_value, passes_quick_view, contains_text,
  haystack, compare_by_key, needs_attention, source_health_priority, Source, SourceHealth,
  SourceFilters, every, SourceQuickView, SourceSortKey, filtered_sources, passes_filters,
  resolve_source_health, normalize_source_tags, toggle_source_selection,
  toggle_select_all_visible_sources, clear_source_manage_filters, health_label, ids_of,
}
use urwhaturead.Sources.Selection.{includes-toggle_source_selection, includes-toggle_all}

abbrev source : ℕ → Text → Bool → Source
source id name enabled = record {
  id = id;
  name = name;
  rss_url = codes "https:x";
  kind = none;
  tags = codes " News " ∷ codes "news" ∷ [];
  new_articles_24h = some 6;
  click_count = none;
  last_fetched_at = none;
  last_clicked_at = none;
  ai_briefing_enabled = false;
  ai_briefing_interval_min = none;
  ai_briefing_last_generated_at = none;
  enabled = enabled;
  hidden_in_sidebar = false;
  updated_at = none;
}

abbrev sources : List Source
sources =
    source 1 (codes "Alpha") false
    ∷ source 2 (codes "Beta") true
    ∷ source 3 (codes "Gamma") true
    ∷ []

abbrev statuses : List (ℕ × SourceHealth)
statuses = (2, SourceHealth.error) ∷ (3, SourceHealth.ok) ∷ []

-- Names are compared by their lengths.
abbrev by_length : Text → Text → ℤ
by_length a b = if nat_beq (length a) (length b) then pos 0 else negsuc 0

abbrev filters : SourceFilters
filters = record {
  keyword = codes " a ";
  tag_filter = codes "news";
  health_filter = every;
  quick_view = SourceQuickView.active;
  sort_key = SourceSortKey.health;
  sort_desc = true;
}

listed : ids_of (filtered_sources small_host statuses by_length [] filters sources) ≡ 2 ∷ 3 ∷ 1 ∷ []
unfolding filtered_sources sort passes_filters includes source_tag_list normalize_source_tags
    tags_from normalize_source_tag_value trim trim_start is_white_space text_beq passes_quick_view
    contains_text haystack starts_with compare_by_key ◌-ℤ◌ lookup sort_insert join needs_attention
    resolve_source_health source_health_priority then_by
listed = refl

cleared : (clear_source_manage_filters filters).keyword ≡ []
unfolding clear_source_manage_filters
cleared = refl

label : health_label SourceHealth.stale ≡ codes "陈旧"
unfolding health_label
label = refl

includes-toggle_source_selection_example :
    includes {A = ℕ} (toggle_source_selection 2 (3 ∷ [])) 3
    ≡ (if nat_beq 2 3 then not (includes {A = ℕ} (3 ∷ []) 2) else includes {A = ℕ} (3 ∷ []) 3)
includes-toggle_source_selection_example = includes-toggle_source_selection 2 3 (3 ∷ [])

includes-toggle_all_example :
    includes {A = ℕ} (toggle_select_all_visible_sources (2 ∷ 3 ∷ []) false (1 ∷ 2 ∷ [])) 2
    ≡ (if includes {A = ℕ} (2 ∷ 3 ∷ []) 2 then false else includes {A = ℕ} (1 ∷ 2 ∷ []) 2)
includes-toggle_all_example = includes-toggle_all (2 ∷ 3 ∷ []) (1 ∷ 2 ∷ []) false 2
