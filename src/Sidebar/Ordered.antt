-- ===== src/Sidebar/Ordered.antt =====
-- The order of the sources in the sidebar.
use urwhaturead.Prelude.{
  ◌≡◌, refl, ap, ◌∙◌, true, false, Option, none, some, List, [], ◌∷◌, filter, All, All-filter, sort,
  sort_insert, sort-perm, sort-All, sort-IsSorted, IsSorted, IsSorted-cut, ◌-ℤ◌, Keeps, drop,
  lexicographic, by_desc, IsWeakOrder, by_desc-IsWeakOrder, lexicographic-IsWeakOrder,
  IsWeakOrder-IsComparator, then_by, ℤ, pos, is_some,
}
use mathlib.Core.List.{Perm}
use urwhaturead.Prelude.Host.{Host}
use urwhaturead.Sources.{Source}
use urwhaturead.Sidebar.{
  source_click_count, date_or_zero, finite_or_zero, time_gap, compare_sources_by_clicks_desc,
  compare_tracked_sources_by_activity_desc, source_activity_timestamp, reader_feed_sources,
  reader_tracked_sources, visible_tracked_sidebar_sources, shows_all_tracked, is_feed_shown,
  is_thread_shown,
}

module _ {A : Type 0} (P : A → Type 0) (f g : A → A → ℤ)
    (agree : (a b : A) → P a → P b → f a b ≡ g a b) where
  sort_insert-agree :
      (a : A) (xs : List A) → P a → All P xs → sort_insert f a xs ≡ sort_insert g a xs
  unfolding sort_insert
  sort_insert-agree a [] p h = refl
  sort_insert-agree a (x ∷ xs) p h = rw (agree a x p h.0, sort_insert-agree a xs p h.1) refl

  -- Two comparators that agree on the items sort them alike.
  sort-agree : (xs : List A) → All P xs → sort f xs ≡ sort g xs
  unfolding sort
  sort-agree [] h = refl
  sort-agree (x ∷ xs) h =
      ap (sort_insert f x) (sort-agree xs h.1)
      ∙ sort_insert-agree x (sort g xs) h.0 (sort-All g P xs h.1)

module _ (host : Host) where
  -- The time of its last click, if it has one, is a date.
  abbrev pub HasDate : Source → Type 0
  HasDate source = is_some (date_or_zero host source.last_clicked_at) ≡ true

  abbrev pub last_click : Source → ℤ
  last_click source = finite_or_zero (date_or_zero host source.last_clicked_at)

  -- More clicks first, then the later last click, then the higher id.
  abbrev pub click_order : Source → Source → ℤ
  click_order =
      lexicographic (by_desc (λ s. pos (source_click_count s)))
        (lexicographic (by_desc last_click) (by_desc (λ s. pos s.id)))

  -- The later activity first, then the order of clicks.
  abbrev pub activity_order : Source → Source → ℤ
  activity_order = lexicographic (by_desc (source_activity_timestamp host)) click_order

  gap-agree :
      (left right : Option ℤ) (rest : ℤ)
      → is_some left ≡ true
      → is_some right ≡ true
      → time_gap left right rest ≡ then_by (finite_or_zero right -ℤ finite_or_zero left) rest
  unfolding time_gap
  gap-agree none right rest p q = cc
  gap-agree (some left) none rest p q = cc
  gap-agree (some left) (some right) rest p q = refl

  clicks-agree :
      (a b : Source)
      → HasDate a
      → HasDate b
      → compare_sources_by_clicks_desc host a b ≡ click_order a b
  unfolding compare_sources_by_clicks_desc
  clicks-agree a b p q =
      rw
        (gap-agree (date_or_zero host a.last_clicked_at) (date_or_zero host b.last_clicked_at)
          (pos b.id -ℤ pos a.id) p q)
        refl

  activity-agree :
      (a b : Source)
      → HasDate a
      → HasDate b
      → compare_tracked_sources_by_activity_desc host a b ≡ activity_order a b
  unfolding compare_tracked_sources_by_activity_desc
  activity-agree a b p q = rw (clicks-agree a b p q) refl

  click_order-IsWeakOrder : IsWeakOrder click_order
  click_order-IsWeakOrder =
      lexicographic-IsWeakOrder (by_desc-IsWeakOrder (λ (s : Source). pos (source_click_count s))) (
        lexicographic-IsWeakOrder (by_desc-IsWeakOrder last_click)
          (by_desc-IsWeakOrder (λ (s : Source). pos s.id)))

  activity_order-IsWeakOrder : IsWeakOrder activity_order
  activity_order-IsWeakOrder =
      lexicographic-IsWeakOrder (by_desc-IsWeakOrder (source_activity_timestamp host))
        click_order-IsWeakOrder

  module _ (sources : List Source) (dated : All HasDate sources) where
    -- If the last click of every source is a date, the sidebar lists exactly the feed sources that are
    -- not hidden, those with more clicks first, then the ones clicked later, then the higher ids.
    pub reader_feed_sources-IsSorted :
        Perm (reader_feed_sources host sources) (filter (is_feed_shown host) sources)
        × IsSorted click_order (reader_feed_sources host sources)
    unfolding reader_feed_sources
    reader_feed_sources-IsSorted = (
      sort-perm (compare_sources_by_clicks_desc host) (filter (is_feed_shown host) sources),
      rw
          (sort-agree HasDate (compare_sources_by_clicks_desc host) click_order clicks-agree
            (filter (is_feed_shown host) sources)
            (All-filter HasDate (is_feed_shown host) sources dated))
          (sort-IsSorted click_order (IsWeakOrder-IsComparator click_order-IsWeakOrder)
            (filter (is_feed_shown host) sources)),
    )

    -- If the last click of every source is a date, the tracked threads are in the order of activity, and
    -- the preview of ten shows the most active ones: no thread that it leaves out comes before one
    -- that it shows.
    pub reader_tracked_sources-IsSorted :
        Perm (reader_tracked_sources host sources) (filter (is_thread_shown host) sources)
        × IsSorted activity_order (reader_tracked_sources host sources)
        × All
            (λ a. All (Keeps activity_order a) (drop 10 (reader_tracked_sources host sources)))
            (visible_tracked_sidebar_sources host false false sources)
    unfolding reader_tracked_sources visible_tracked_sidebar_sources shows_all_tracked
    reader_tracked_sources-IsSorted =
        let agree =
          sort-agree HasDate (compare_tracked_sources_by_activity_desc host) activity_order
            activity-agree (filter (is_thread_shown host) sources)
            (All-filter HasDate (is_thread_shown host) sources dated) in
        let sorted =
          sort-IsSorted activity_order (IsWeakOrder-IsComparator activity_order-IsWeakOrder)
            (filter (is_thread_shown host) sources) in
        (
          sort-perm (compare_tracked_sources_by_activity_desc host)
              (filter (is_thread_shown host) sources),
          rw agree sorted,
          rw agree (IsSorted-cut activity_order 10 _ sorted),
        )
