-- ===== src/Sidebar/Groups.antt =====
-- The groups of the sidebar: one for each tag.
use urwhaturead.Prelude.{
  ℕ, ◌+◌, ◌≡◌, refl, sym, ap, ◌∙◌, Bool, false, ◌||◌, List, [], ◌∷◌, ◌++◌, map, filter, any,
  if◌then◌else◌, Bool-cases, inl, inr, All, ◌==◌, text_eq, Text, codes, trim, is_empty, includes,
  IsDistinct, append-IsDistinct, has_key, has_key-sort, HasDistinctKeys, sort-HasDistinctKeys, sort,
  sort-All, ℤ, arith,
}
use mathlib.Core.List.{append_assoc, append-nil}
use mathlib.Core.Path.{subst}
use urwhaturead.Prelude.Host.{Host}
use urwhaturead.Sources.{
  Source, or_general, source_tag_list, normalize_source_tags, tags_from, normalize_source_tag_value,
}
use urwhaturead.Sources.Listing.{normalize_source_tags_lem}
use urwhaturead.Sidebar.{
  SourceGroup, source_click_count, compare_sources_by_clicks_desc, reader_feed_sources, tag_keys,
  add_to_groups, add_labels, group_map, with_sorted_sources, group_order, source_groups,
}

-- What JavaScript promises of `toLowerCase`: a text in lower case stays, as one of ASCII letters does.
pub record IsLowering (host : Host) : Type 0 where
  pub twice : (s : Text) → host.to_lower_case (host.to_lower_case s) ≡ host.to_lower_case s
  pub general : host.to_lower_case (codes "general") ≡ codes "general"

abbrev pub clicks_of : List Source → ℕ
clicks_of [] = 0
clicks_of (source ∷ sources) = source_click_count source + clicks_of sources

clicks_of-append :
    (xs : List Source) (source : Source)
    → clicks_of (xs ++ source ∷ []) ≡ clicks_of xs + source_click_count source
clicks_of-append [] source = omega arith
clicks_of-append (x ∷ xs) source = omega (arith, clicks_of-append xs source)

-- The sources of the group with a key.
abbrev bucket : Text → List SourceGroup → List Source
bucket key [] = []
bucket key (g ∷ groups) = if g.key == key then g.sources else bucket key groups

abbrev pub group_key : SourceGroup → Text
group_key g = g.key

abbrev keys_of : List SourceGroup → List Text
keys_of = map group_key

abbrev CountsClicks : SourceGroup → Type 0
CountsClicks g = g.click_total ≡ clicks_of g.sources

bucket-none :
    (key : Text) (groups : List SourceGroup)
    → includes (keys_of groups) key ≡ false
    → bucket key groups ≡ []
unfolding includes
bucket-none key [] h = refl
bucket-none key (g ∷ groups) h = ground (arith, bucket-none key groups)

bucket-behind :
    (g : SourceGroup) (all_groups groups : List SourceGroup)
    → includes (keys_of groups) g.key ≡ false
    → All (λ (h : SourceGroup). bucket h.key all_groups ≡ h.sources) groups
    → All (λ (h : SourceGroup). bucket h.key (g ∷ all_groups) ≡ h.sources) groups
unfolding includes
bucket-behind g all_groups [] d h = tt
bucket-behind g all_groups (x ∷ groups) d h = (
  ground (arith, h.0, text_eq.beq_iff g.key x.key, text_eq.beq_iff x.key g.key),
  bucket-behind g all_groups groups (ground arith) h.1,
)

-- In groups with different keys each group is found by its key.
bucket_self :
    (groups : List SourceGroup)
    → IsDistinct (keys_of groups)
    → All (λ g. bucket g.key groups ≡ g.sources) groups
unfolding includes
bucket_self [] d = tt
bucket_self (g ∷ groups) d = (
  ground (arith, text_eq.beq_iff g.key g.key),
  bucket-behind g groups groups d.0 (bucket_self groups d.1),
)

module _ (host : Host) where
  abbrev pub has_tag : Text → Source → Bool
  has_tag key source = includes (tag_keys host source) key

  bucket-add :
      (source : Source) (groups : List SourceGroup) (label key : Text)
      → bucket key (add_to_groups host source groups label) ≡ (
          if host.to_lower_case label == key
          then bucket key groups ++ source ∷ []
          else bucket key groups)
  unfolding add_to_groups
  bucket-add source [] label key = ground arith
  bucket-add source (g ∷ groups) label key = ground (
    arith,
    bucket-add source groups label key,
    text_eq.beq_iff g.key key,
    text_eq.beq_iff (host.to_lower_case label) key,
    text_eq.beq_iff g.key (host.to_lower_case label),
  )

  keys-add :
      (source : Source) (groups : List SourceGroup) (label : Text)
      → keys_of (add_to_groups host source groups label) ≡ (
          if includes (keys_of groups) (host.to_lower_case label)
          then keys_of groups
          else keys_of groups ++ host.to_lower_case label ∷ [])
  unfolding add_to_groups includes
  keys-add source [] label = refl
  keys-add source (g ∷ groups) label =
      ground (arith, keys-add source groups label, text_eq.beq_iff g.key (host.to_lower_case label))

  clicks-add :
      (source : Source) (groups : List SourceGroup) (label : Text)
      → All CountsClicks groups
      → All CountsClicks (add_to_groups host source groups label)
  unfolding add_to_groups
  clicks-add source [] label h = (omega arith, tt)
  clicks-add source (g ∷ groups) label h = elim (Bool-cases (g.key == host.to_lower_case label)) [
    | inl e ↦ rw e (omega (arith, h.0, clicks_of-append g.sources source), h.1)
    | inr e ↦ rw e (h.0, clicks-add source groups label h.1)
  ]

  bucket-labels :
      (source : Source) (groups : List SourceGroup) (labels : List Text) (key : Text)
      → IsDistinct (map host.to_lower_case labels)
      → bucket key (add_labels host source groups labels) ≡ (
          if includes (map host.to_lower_case labels) key
          then bucket key groups ++ source ∷ []
          else bucket key groups)
  unfolding includes
  bucket-labels source groups [] key d = refl
  bucket-labels source groups (label ∷ labels) key d = ground (
    arith,
    bucket-labels source (add_to_groups host source groups label) labels key d.1,
    bucket-add source groups label key,
    d.0,
    text_eq.beq_iff (host.to_lower_case label) key,
  )

  keys-labels :
      (source : Source) (groups : List SourceGroup) (labels : List Text)
      → IsDistinct (keys_of groups)
      → IsDistinct (keys_of (add_labels host source groups labels))
  keys-labels source groups [] d = d
  keys-labels source groups (label ∷ labels) d =
      keys-labels source (add_to_groups host source groups label) labels (
        rw (keys-add source groups label)
          (elim (Bool-cases (includes (keys_of groups) (host.to_lower_case label))) [
            | inl e ↦ rw e d
            | inr e ↦ rw e (append-IsDistinct (keys_of groups) (host.to_lower_case label) d e)
          ]))

  clicks-labels :
      (source : Source) (groups : List SourceGroup) (labels : List Text)
      → All CountsClicks groups
      → All CountsClicks (add_labels host source groups labels)
  clicks-labels source groups [] h = h
  clicks-labels source groups (label ∷ labels) h =
      clicks-labels source (add_to_groups host source groups label) labels
        (clicks-add source groups label h)

  has-add :
      (source : Source) (groups : List SourceGroup) (label key : Text)
      → includes (keys_of (add_to_groups host source groups label)) key
        ≡ (includes (keys_of groups) key || host.to_lower_case label == key)
  unfolding add_to_groups includes
  has-add source [] label key = ground arith
  has-add source (g ∷ groups) label key =
      ground
        (arith, has-add source groups label key, text_eq.beq_iff g.key (host.to_lower_case label))

  has-labels :
      (source : Source) (groups : List SourceGroup) (labels : List Text) (key : Text)
      → includes (keys_of (add_labels host source groups labels)) key
        ≡ (includes (keys_of groups) key || includes (map host.to_lower_case labels) key)
  unfolding includes
  has-labels source groups [] key = ground arith
  has-labels source groups (label ∷ labels) key = ground (
    arith,
    has-labels source (add_to_groups host source groups label) labels key,
    has-add source groups label key,
  )

  module _ (distinct : (source : Source) → IsDistinct (tag_keys host source)) where
    bucket-map :
        (groups : List SourceGroup) (sources : List Source) (key : Text)
        → bucket key (group_map host groups sources)
          ≡ bucket key groups ++ filter (has_tag key) sources
    unfolding group_map
    bucket-map groups [] key = sym (append-nil (bucket key groups))
    bucket-map groups (source ∷ sources) key =
        bucket-map (add_labels host source groups (source_tag_list host source)) sources key
        ∙ ap (λ (b : List Source). b ++ filter (has_tag key) sources)
            (bucket-labels source groups (source_tag_list host source) key (distinct source))
        ∙ elim (Bool-cases (has_tag key source)) [
          | inl e ↦
              rw e (append_assoc (bucket key groups) (source ∷ []) (filter (has_tag key) sources))
          | inr e ↦ rw e refl
        ]

  map-laws :
      (groups : List SourceGroup) (sources : List Source)
      → IsDistinct (keys_of groups)
      → All CountsClicks groups
      → IsDistinct (keys_of (group_map host groups sources))
        × All CountsClicks (group_map host groups sources)
  unfolding group_map
  map-laws groups [] d c = (d, c)
  map-laws groups (source ∷ sources) d c =
      map-laws (add_labels host source groups (source_tag_list host source)) sources
        (keys-labels source groups (source_tag_list host source) d)
        (clicks-labels source groups (source_tag_list host source) c)

  has-map :
      (groups : List SourceGroup) (sources : List Source) (key : Text)
      → includes (keys_of (group_map host groups sources)) key
        ≡ (includes (keys_of groups) key || any (has_tag key) sources)
  unfolding group_map
  has-map groups [] key = ground arith
  has-map groups (source ∷ sources) key = ground (
    arith,
    has-map (add_labels host source groups (source_tag_list host source)) sources key,
    has-labels source groups (source_tag_list host source) key,
  )

-- What the code promises of a group, over the sources that it groups.
abbrev pub IsGroupOf : Host → List Source → SourceGroup → Type 0
IsGroupOf host feed g =
    (g.sources ≡ sort (compare_sources_by_clicks_desc host) (filter (has_tag host g.key) feed))
    × (g.click_total ≡ clicks_of (filter (has_tag host g.key) feed))

module _ (host : Host) (lowering : IsLowering host) where
  open lowering use {twice, general}

  abbrev IsLow : Text → Type 0
  IsLow tag = host.to_lower_case tag ≡ tag

  append-IsLow :
      (tags : List Text) (tag : Text) → All IsLow tags → IsLow tag → All IsLow (tags ++ tag ∷ [])
  append-IsLow [] tag h t = (t, tt)
  append-IsLow (x ∷ tags) tag h t = (h.0, append-IsLow tags tag h.1 t)

  tags_from-IsLow :
      (output values : List Text) → All IsLow output → All IsLow (tags_from host output values)
  unfolding tags_from normalize_source_tag_value
  tags_from-IsLow output [] h = h
  tags_from-IsLow output (value ∷ values) h =
      elim (Bool-cases (
        is_empty (host.to_lower_case (trim value))
        || includes output (host.to_lower_case (trim value)))) [
          | inl e ↦ rw e (tags_from-IsLow output values h)
          | inr e ↦ rw e (
              tags_from-IsLow (output ++ host.to_lower_case (trim value) ∷ []) values
                (append-IsLow output _ h (twice (trim value))))
        ]

  map-low : (tags : List Text) → All IsLow tags → map host.to_lower_case tags ≡ tags
  map-low [] h = refl
  map-low (tag ∷ tags) h = rw (h.0, map-low tags h.1) refl

  or_general-IsDistinct :
      (tags : List Text)
      → All IsLow tags
      → IsDistinct tags
      → IsDistinct (map host.to_lower_case (or_general host tags))
  unfolding includes
  or_general-IsDistinct [] h d = (refl, tt)
  or_general-IsDistinct (tag ∷ tags) h d = subst IsDistinct (sym (map-low (tag ∷ tags) h)) d

  tag_keys-IsDistinct : (source : Source) → IsDistinct (tag_keys host source)
  unfolding source_tag_list normalize_source_tags
  tag_keys-IsDistinct source =
      or_general-IsDistinct (tags_from host [] source.tags) (tags_from-IsLow [] source.tags tt)
        (normalize_source_tags_lem host source.tags).0

  groups-from :
      (feed : List Source) (all_groups groups : List SourceGroup)
      → ((key : Text) → bucket key all_groups ≡ filter (has_tag host key) feed)
      → All (λ (g : SourceGroup). bucket g.key all_groups ≡ g.sources) groups
      → All CountsClicks groups
      → All (IsGroupOf host feed) (map (with_sorted_sources host) groups)
  groups-from feed all_groups [] b h c = tt
  groups-from feed all_groups (g ∷ groups) b h c =
      let e : g.sources ≡ filter (has_tag host g.key) feed = sym h.0 ∙ b g.key in
      (
        (ap (sort (compare_sources_by_clicks_desc host)) e, c.0 ∙ ap clicks_of e),
        groups-from feed all_groups groups b h.1 c.1,
      )

  has_key-sorted :
      (groups : List SourceGroup) (key : Text)
      → has_key group_key key (map (with_sorted_sources host) groups)
        ≡ includes (keys_of groups) key
  unfolding includes
  has_key-sorted [] key = refl
  has_key-sorted (g ∷ groups) key = rw (has_key-sorted groups key) refl

  distinct-sorted :
      (groups : List SourceGroup)
      → IsDistinct (keys_of groups)
      → HasDistinctKeys group_key (map (with_sorted_sources host) groups)
  distinct-sorted [] d = tt
  distinct-sorted (g ∷ groups) d = (has_key-sorted groups g.key ∙ d.0, distinct-sorted groups d.1)

  -- The sidebar has exactly one group for each lower-case tag of a listed feed source; it holds what
  -- sorting the listed feed sources with this tag by their clicks, as the list itself is sorted, gives,
  -- and the sum of their clicks.
  pub source_groups_lem :
      (locale_compare : Text → Text → ℤ) (sources : List Source) (key : Text)
      → let feed = reader_feed_sources host sources in
        let groups = source_groups host locale_compare sources in
        All (IsGroupOf host feed) groups
        × HasDistinctKeys group_key groups
        × (has_key group_key key groups ≡ any (has_tag host key) feed)
  unfolding source_groups
  source_groups_lem locale_compare sources key =
      let feed : List Source = reader_feed_sources host sources in
      let groups : List SourceGroup = group_map host [] feed in
      let laws = map-laws host [] feed tt tt in
      (
        sort-All (group_order host locale_compare) (IsGroupOf host feed)
            (map (with_sorted_sources host) groups)
            (groups-from feed groups groups (λ k. bucket-map host tag_keys-IsDistinct [] feed k)
              (bucket_self groups laws.0) laws.1),
        sort-HasDistinctKeys {K = Text} group_key (group_order host locale_compare)
            (map (with_sorted_sources host) groups) (distinct-sorted groups laws.0),
        has_key-sort {K = Text} group_key (group_order host locale_compare) key
              (map (with_sorted_sources host) groups)
            ∙ has_key-sorted groups key
            ∙ (unfold includes in has-map host [] feed key),
      )
