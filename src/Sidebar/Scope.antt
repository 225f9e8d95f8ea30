-- ===== src/Sidebar/Scope.antt =====
-- What the tag filters of the sidebar select, in the list and in the feed.
use urwhaturead.Prelude.{
  ℕ, ◌≡◌, refl, ap, ◌∙◌, Bool, false, not, ◌||◌, some, List, [], ◌∷◌, ◌++◌, map, filter,
  if◌then◌else◌, Bool-cases, inl, inr, All, Eq, ◌==◌, nat_eq, text_eq, Text, trim, is_empty,
  includes, includes-append, includes-without, includes-distinct_from, distinct_from, without, sort,
  sort_insert, sort-All, All-filter, by_asc, ℤ, pos, arith,
}
use urwhaturead.Prelude.Host.{Host}
use urwhaturead.Stream.{is_nil}
use urwhaturead.Article.Stored.{IsPositive}
use urwhaturead.Feed.{parse_source_id_filter}
use urwhaturead.Sources.{Source, ids_of}
use urwhaturead.Sidebar.{
  SidebarTagFilterMode, or, and, SourceGroup, reader_feed_sources, matches_tags,
  sidebar_visible_feed_sources, is_feed_shown, compare_sources_by_clicks_desc,
}
use urwhaturead.Sidebar.Controls.{
  Controls, load_feed, reset_feed_briefing_state, no_overrides, source_id_value, normalize_tag_keys,
  compare_texts, matches_keys, matching_ids, apply_sidebar_tag_filters, toggle_sidebar_tag_filter,
}
use urwhaturead.Sidebar.Ids.{parse_source_id_filter-value, source_id_value-filled}

module _ {A : Type 0} ⦃e : Eq A⦄ (compare : A → A → ℤ) where
  includes-sort_insert :
      (x : A) (xs : List A) (a : A)
      → includes (sort_insert compare x xs) a ≡ (x == a || includes xs a)
  unfolding sort_insert includes
  includes-sort_insert x [] a = refl
  includes-sort_insert x (y ∷ ys) a = ground (arith, includes-sort_insert x ys a)

  -- Sorting changes no membership.
  includes-sort : (xs : List A) (a : A) → includes (sort compare xs) a ≡ includes xs a
  unfolding sort includes
  includes-sort [] a = refl
  includes-sort (x ∷ xs) a =
      ground (arith, includes-sort_insert x (sort compare xs) a, includes-sort xs a)

abbrev pub HasPositiveId : Source → Type 0
HasPositiveId source = IsPositive source.id

ids_of-IsPositive :
    (sources : List Source) → All HasPositiveId sources → All IsPositive (ids_of sources)
ids_of-IsPositive [] h = tt
ids_of-IsPositive (source ∷ sources) h = (h.0, ids_of-IsPositive sources h.1)

-- Reading a filter that was written from positive ids gives exactly these ids.
includes-value :
    (ids : List ℕ) (id : ℕ)
    → All IsPositive ids
    → includes (parse_source_id_filter (source_id_value ids)) id ≡ includes ids id
unfolding includes
includes-value ids id h = rw (parse_source_id_filter-value ids h) (
    includes-distinct_from [] (sort (by_asc (λ n. pos n)) ids) id
    ∙ includes-sort (by_asc (λ n. pos n)) ids id)

module _ {A : Type 0} (p q : A → Bool) (same : (a : A) → p a ≡ q a) where
  filter-same : (xs : List A) → filter p xs ≡ filter q xs
  filter-same [] = refl
  filter-same (x ∷ xs) = rw (same x, filter-same xs) refl

module _ (host : Host) where
  -- The filter of the handler and the one of the list agree.
  matches_keys-eq :
      (mode : SidebarTagFilterMode) (keys : List Text) (source : Source)
      → matches_keys host mode keys source ≡ matches_tags host mode keys source
  unfolding matches_keys matches_tags
  matches_keys-eq or keys source = refl
  matches_keys-eq and keys source = refl

  reader_feed-positive :
      (sources : List Source)
      → All HasPositiveId sources
      → All HasPositiveId (reader_feed_sources host sources)
  unfolding reader_feed_sources
  reader_feed-positive sources h =
      sort-All (compare_sources_by_clicks_desc host) HasPositiveId
        (filter (is_feed_shown host) sources)
        (All-filter HasPositiveId (is_feed_shown host) sources h)

  module _ (sources : List Source) (groups : List SourceGroup)
      (positive : All HasPositiveId sources) where
    -- Choosing tags, at least one of them not blank, asks for the feed of exactly the sources that the
    -- sidebar then lists, from its start: the ids read back from the new source filter are those of
    -- the listed sources, and the one load that is started has this filter and no cursor. The filter is
    -- not empty, even if no source is listed: the request would not be restricted by an empty one.
    pub apply_sidebar_tag_filters_lem :
        (next_keys : List Text) (mode : SidebarTagFilterMode) (s : Controls) (id : ℕ)
        → is_nil (normalize_tag_keys host next_keys) ≡ false
        → let after =
            apply_sidebar_tag_filters host
              (reader_feed_sources host sources)
              groups
              next_keys
              mode
              s in
          (includes (parse_source_id_filter after.source_filter) id
            ≡ includes
                (ids_of (
                  sidebar_visible_feed_sources host after.sidebar_tag_filter_mode
                    after.sidebar_tag_filters sources))
                id)
          × (is_empty after.source_filter ≡ false)
          × (after.effects
              ≡ load_feed
                  (record no_overrides { source_id = some after.source_filter; cursor = some [] })
                ∷ reset_feed_briefing_state
                ∷ s.effects)
    unfolding apply_sidebar_tag_filters sidebar_visible_feed_sources
    apply_sidebar_tag_filters_lem next_keys mode s id chosen =
        let keys = normalize_tag_keys host next_keys in
        let feed = reader_feed_sources host sources in
        let ids = matching_ids host feed groups mode keys in
        let positive_ids : All IsPositive ids = ids_of-IsPositive _ (
          All-filter HasPositiveId (matches_keys host mode keys) feed
            (reader_feed-positive sources positive)) in
        rw chosen (
          rw chosen (
              includes-value ids id positive_ids
              ∙ ap (λ (found : List Source). includes (ids_of found) id)
                  (filter-same (matches_keys host mode keys) (matches_tags host mode keys)
                    (matches_keys-eq mode keys) feed)),
          source_id_value-filled ids positive_ids,
          refl,
        )

  -- A key as the tag filters hold it: trimming and lowering it changes nothing, and it is not empty.
  abbrev pub IsKey : Text → Type 0
  IsKey key = (host.to_lower_case (trim key) ≡ key) × (is_empty key ≡ false)

  includes-keys :
      (keys : List Text) (key : Text)
      → All IsKey keys
      → includes (filter (λ k. not (is_empty k)) (map (λ k. host.to_lower_case (trim k)) keys)) key
        ≡ includes keys key
  unfolding includes
  includes-keys [] key h = refl
  includes-keys (k ∷ keys) key h =
      rw (h.0.0, h.0.1) (ap (λ b. (k == key) || b) (includes-keys keys key h.1))

  includes-normalize_tag_keys :
      (keys : List Text) (key : Text)
      → All IsKey keys
      → includes (normalize_tag_keys host keys) key ≡ includes keys key
  unfolding normalize_tag_keys includes
  includes-normalize_tag_keys keys key h =
      includes-sort compare_texts
        (distinct_from []
          (filter (λ k. not (is_empty k)) (map (λ k. host.to_lower_case (trim k)) keys)))
        key
      ∙ includes-distinct_from [] _ key
      ∙ includes-keys keys key h

  filters-apply :
      (feed_sources : List Source) (groups : List SourceGroup) (keys : List Text)
      (mode : SidebarTagFilterMode) (s : Controls)
      → (apply_sidebar_tag_filters host feed_sources groups keys mode s).sidebar_tag_filters
        ≡ normalize_tag_keys host keys
  unfolding apply_sidebar_tag_filters
  filters-apply feed_sources groups keys mode s = ground arith

  keys-without : (key : Text) (keys : List Text) → All IsKey keys → All IsKey (without key keys)
  unfolding without
  keys-without key keys h = All-filter IsKey (λ k. not (k == key)) keys h

  keys-append :
      (key : Text) (keys : List Text) → All IsKey keys → IsKey key → All IsKey (keys ++ key ∷ [])
  keys-append key [] h k = (k, tt)
  keys-append key (first ∷ keys) h k = (h.0, keys-append key keys h.1 k)

  -- Toggling a tag turns its membership in the tag filters round, and leaves that of every other tag.
  pub includes-toggle_tag :
      (feed_sources : List Source) (groups : List SourceGroup) (key other : Text) (s : Controls)
      → All IsKey s.sidebar_tag_filters
      → IsKey key
      → includes
          (toggle_sidebar_tag_filter host feed_sources groups key s).sidebar_tag_filters
          other
        ≡ (if key == other
            then not (includes s.sidebar_tag_filters key)
            else includes s.sidebar_tag_filters other)
  unfolding toggle_sidebar_tag_filter
  includes-toggle_tag feed_sources groups key other s h k =
      elim (Bool-cases (includes s.sidebar_tag_filters key)) [
        | inl e ↦
            rw
              (
                e,
                filters-apply,
                includes-normalize_tag_keys (without key s.sidebar_tag_filters) other
                    (keys-without key _ h),
              )
              (ground (arith, includes-without key other s.sidebar_tag_filters))
        | inr e ↦
            rw
              (
                e,
                filters-apply,
                includes-normalize_tag_keys (s.sidebar_tag_filters ++ key ∷ []) other
                    (keys-append key _ h k),
              )
              (includes-append s.sidebar_tag_filters (key ∷ []) other
                ∙ (unfold includes in ground (arith, text_eq.beq_iff key other)))
      ]
