-- ===== src/Sources/Listing.antt =====
-- Which sources the panel lists, how it counts their health, and the tags of a source.
use urwhaturead.Prelude.{
  ℕ, ◌+◌, ◌≡◌, refl, ◌∙◌, false, ◌&&◌, List, [], ◌∷◌, ◌++◌, filter, any, length, All, if◌then◌else◌,
  nat_beq, nat_eq, text_eq, Text, is_empty, includes, IsDistinct, append-IsDistinct, has_key-sort,
  any-filter, ℤ, arith, Bool-cases, inl, inr,
}
use urwhaturead.Prelude.Host.{Host}
use urwhaturead.Sources.{
  Source, SourceHealth, SourceFilters, HealthCounts, same_health, resolve_source_health,
  source_health_priority, count_health, no_counts, count_sources, source_health_counts,
  passes_filters, source_order, filtered_sources, tags_from, normalize_source_tags,
  normalize_source_tag_value,
}

abbrev source_key : Source → ℕ
source_key s = s.id

-- Whatever the order of the list, a source is listed exactly if one with its id passes the filters.
pub filtered_sources_lem :
    (host : Host) (statuses : List (ℕ × SourceHealth)) (locale_compare : Text → Text → ℤ)
    (site_keys : List (ℕ × Text)) (filters : SourceFilters) (sources : List Source) (id : ℕ)
    → any
        (λ (s : Source). nat_beq s.id id)
        (filtered_sources host statuses locale_compare site_keys filters sources)
      ≡ any
          (λ (s : Source). nat_beq s.id id && passes_filters host statuses site_keys filters s)
          sources
unfolding filtered_sources
filtered_sources_lem host statuses locale_compare site_keys filters sources id =
    has_key-sort source_key (source_order host statuses locale_compare filters) id
      (filter (passes_filters host statuses site_keys filters) sources)
    ∙ any-filter (λ (s : Source). nat_beq s.id id) (passes_filters host statuses site_keys filters)
        sources

abbrev pub count_of : SourceHealth → HealthCounts → ℕ
count_of SourceHealth.ok c = c.ok
count_of SourceHealth.warn c = c.warn
count_of SourceHealth.error c = c.error
count_of SourceHealth.stale c = c.stale
count_of SourceHealth.disabled c = c.disabled
count_of SourceHealth.new c = c.new

count_of-count_health :
    (h k : SourceHealth) (c : HealthCounts)
    → count_of h (count_health k c) ≡ count_of h c + (if same_health k h then 1 else 0)
unfolding source_health_priority
count_of-count_health h SourceHealth.ok c = ground arith
count_of-count_health h SourceHealth.warn c = ground arith
count_of-count_health h SourceHealth.error c = ground arith
count_of-count_health h SourceHealth.stale c = ground arith
count_of-count_health h SourceHealth.disabled c = ground arith
count_of-count_health h SourceHealth.new c = ground arith

count_sources_lem :
    (statuses : List (ℕ × SourceHealth)) (c : HealthCounts) (h : SourceHealth)
    (sources : List Source)
    → count_of h (count_sources statuses c sources)
      ≡ count_of h c
        + length (filter (λ s. same_health (resolve_source_health statuses s) h) sources)
unfolding count_sources
count_sources_lem statuses c h [] = omega arith
count_sources_lem statuses c h (s ∷ sources) =
    let k = resolve_source_health statuses s in
    ground
      (arith, count_sources_lem statuses (count_health k c) h sources, count_of-count_health h k c)

count_of-no_counts : (h : SourceHealth) → count_of h no_counts ≡ 0
count_of-no_counts SourceHealth.ok = refl
count_of-no_counts SourceHealth.warn = refl
count_of-no_counts SourceHealth.error = refl
count_of-no_counts SourceHealth.stale = refl
count_of-no_counts SourceHealth.disabled = refl
count_of-no_counts SourceHealth.new = refl

-- Each of the six counts is the number of sources with that health.
pub source_health_counts_lem :
    (statuses : List (ℕ × SourceHealth)) (h : SourceHealth) (sources : List Source)
    → count_of h (source_health_counts statuses sources)
      ≡ length (filter (λ s. same_health (resolve_source_health statuses s) h) sources)
unfolding source_health_counts
source_health_counts_lem statuses h sources =
    omega (arith, count_sources_lem statuses no_counts h sources, count_of-no_counts h)

abbrev pub IsTag : Text → Type 0
IsTag tag = is_empty tag ≡ false

append-IsTag :
    (tags : List Text) (tag : Text) → All IsTag tags → IsTag tag → All IsTag (tags ++ tag ∷ [])
append-IsTag [] tag h t = (t, tt)
append-IsTag (x ∷ tags) tag h t = (h.0, append-IsTag tags tag h.1 t)

tags_from_lem :
    (host : Host) (output values : List Text)
    → IsDistinct output
    → All IsTag output
    → IsDistinct (tags_from host output values) × All IsTag (tags_from host output values)
unfolding tags_from
tags_from_lem host output [] d t = (d, t)
tags_from_lem host output (value ∷ values) d t =
    let tag = normalize_source_tag_value host value in
    elim (Bool-cases (is_empty tag)) [
      | inl e ↦ rw e (tags_from_lem host output values d t)
      | inr e ↦ elim (Bool-cases (includes output tag)) [
        | inl f ↦ rw (e, f) (tags_from_lem host output values d t)
        | inr f ↦
            rw (e, f)
              (tags_from_lem host (output ++ tag ∷ []) values (append-IsDistinct output tag d f)
                (append-IsTag output tag t e))
      ]
    ]

-- Whatever the tags of a source, the normalized ones differ from each other and none is empty.
pub normalize_source_tags_lem :
    (host : Host) (values : List Text)
    → IsDistinct (normalize_source_tags host values) × All IsTag (normalize_source_tags host values)
unfolding normalize_source_tags
normalize_source_tags_lem host values = tags_from_lem host [] values tt tt
