-- ===== src/Stream/Laws.antt =====
-- The place of the briefing in the stream, and what the filters leave.
use urwhaturead.Prelude.{
  ℕ, zero, suc, ◌≤◌, ◌<◌, min, ◌≡◌, refl, sym, ap, ◌∙◌, Bool, true, false, not, ◌||◌, Option, none,
  some, List, [], ◌∷◌, map, filter, length, take, drop, all, any, find_index?, insert_at, get_elem?,
  if◌then◌else◌, nat_beq, nat_eq, includes, arith, Option-cases, inl, inr, is_some,
  is_some-find_index?, find_index?-lt, find_index?-first, find_index?-none, find_index?-absent,
  any-take, any-take-true, any-drop, get_elem?-insert_at, any-insert_at,
}
use urwhaturead.Stream.{
  FeedItem, ReaderStreamItem, article, briefing, StreamParams, is_briefing, is_article,
  index_or_zero, visible_feed, is_anchor, is_nil, feed_briefing_insert_index,
  feed_briefing_new_article_count, article_of, reader_stream_items, selected_feed_index,
}

filter-insert_briefing :
    (i : ℕ) (items : List ReaderStreamItem)
    → filter (λ x. not (is_briefing x)) (insert_at i briefing items)
      ≡ filter (λ x. not (is_briefing x)) items
filter-insert_briefing zero items = refl
filter-insert_briefing (suc i) [] = refl
filter-insert_briefing (suc i) (briefing ∷ items) = filter-insert_briefing i items
filter-insert_briefing (suc i) (article id ∷ items) =
    ap (λ l. article id ∷ l) (filter-insert_briefing i items)

briefing-insert_briefing :
    (i : ℕ) (items : List ReaderStreamItem)
    → filter is_briefing (insert_at i briefing items) ≡ briefing ∷ filter is_briefing items
briefing-insert_briefing zero items = refl
briefing-insert_briefing (suc i) [] = refl
briefing-insert_briefing (suc i) (briefing ∷ items) =
    ap (λ l. briefing ∷ l) (briefing-insert_briefing i items)
briefing-insert_briefing (suc i) (article id ∷ items) = briefing-insert_briefing i items

-- The item at an index, if there is one.
abbrev pub items_at : Option ℕ → List ReaderStreamItem → List ReaderStreamItem
items_at none items = []
items_at (some i) items = take 1 (drop i items)

item-found :
    (p : ReaderStreamItem → Bool) (items : List ReaderStreamItem)
    → any p (items_at (find_index? p items) items) ≡ is_some (find_index? p items)
item-found p items = elim (Option-cases (find_index? p items)) [
  | inl e ↦ rw e
  | inr (i, e) ↦ rw e ((find_index?-first p items i e).1)
]

index-eq :
    (entry : Bool) (items : List FeedItem) (anchors : List ℕ) (p : FeedItem → Bool)
    → (anchors ≡ [] → find_index? p items ≡ none)
    → entry ≡ true
    → index_or_zero (
        if not entry
        then none
        else if is_nil items || is_nil anchors
        then some 0
        else some (index_or_zero (find_index? p items)))
      ≡ index_or_zero (find_index? p items)
index-eq false items anchors p h e = cc
index-eq true [] anchors p h e = refl
index-eq true (x ∷ xs) [] p h e = rw (h refl)
index-eq true (x ∷ xs) (a ∷ as') p h e = refl

module _ (params : StreamParams) where
  articles : List FeedItem → List ReaderStreamItem
  articles = map (article_of params)

  articles-kept :
      (items : List FeedItem)
      → (filter (λ x. not (is_briefing x)) (map (article_of params) items)
          ≡ map (article_of params) items)
        × (filter is_briefing (map (article_of params) items) ≡ [])
  articles-kept [] = (refl, refl)
  articles-kept (x ∷ xs) = (ap (λ l. article x.id ∷ l) ((articles-kept xs).0), (articles-kept xs).1)

  parts :
      (entry : Bool) (i : ℕ) (items : List FeedItem)
      → (filter
            (λ x. not (is_briefing x))
            (if entry
              then insert_at i briefing (map (article_of params) items)
              else map (article_of params) items)
          ≡ map (article_of params) items)
        × (filter is_briefing (
              if entry
              then insert_at i briefing (map (article_of params) items)
              else map (article_of params) items)
            ≡ (if entry then briefing ∷ [] else []))
  parts true i items = (
    filter-insert_briefing i (map (article_of params) items) ∙ (articles-kept items).0,
    briefing-insert_briefing i (map (article_of params) items)
        ∙ ap (λ l. briefing ∷ l) ((articles-kept items).1),
  )
  parts false i items = articles-kept items

  -- The stream is the visible feed in its order, and one briefing exactly if there is an entry.
  pub reader_stream_items_lem :
      (filter (λ x. not (is_briefing x)) (reader_stream_items params)
        ≡ map (article_of params) (visible_feed params))
      × (filter is_briefing (reader_stream_items params)
          ≡ (if params.has_feed_briefing_entry then briefing ∷ [] else []))
  unfolding reader_stream_items
  reader_stream_items_lem = parts params.has_feed_briefing_entry _ (visible_feed params)

  length-articles : (items : List FeedItem) → length (map (article_of params) items) ≡ length items
  length-articles [] = refl
  length-articles (x ∷ xs) = ap suc (length-articles xs)

  -- The number of visible articles in front of the first anchor.
  abbrev first_anchor : ℕ
  first_anchor = index_or_zero (find_index? (is_anchor params) (visible_feed params))

  first_anchor-le : first_anchor ≤ length (visible_feed params)
  first_anchor-le = elim (Option-cases (find_index? (is_anchor params) (visible_feed params))) [
    | inl e ↦ rw e (omega arith)
    | inr (i, e) ↦ rw e (omega (arith, find_index?-lt (is_anchor params) (visible_feed params) i e))
  ]

  any-no_anchor :
      (items : List FeedItem)
      → params.feed_briefing_anchor_article_ids ≡ []
      → any (is_anchor params) items ≡ false
  unfolding is_anchor includes
  any-no_anchor [] h = refl
  any-no_anchor (x ∷ xs) h = rw h (any-no_anchor xs h)

  insert_index-eq :
      params.has_feed_briefing_entry ≡ true
      → index_or_zero (feed_briefing_insert_index params) ≡ first_anchor
  unfolding feed_briefing_insert_index
  insert_index-eq h =
      index-eq params.has_feed_briefing_entry (visible_feed params)
        params.feed_briefing_anchor_article_ids (is_anchor params)
        (λ e.
          find_index?-absent (is_anchor params) (visible_feed params)
            (any-no_anchor (visible_feed params) e))
        h

  count-eq :
      feed_briefing_new_article_count params ≡ index_or_zero (feed_briefing_insert_index params)
  unfolding feed_briefing_new_article_count
  count-eq = ground arith

  new_article_count-eq :
      params.has_feed_briefing_entry ≡ true → feed_briefing_new_article_count params ≡ first_anchor
  new_article_count-eq h = count-eq ∙ insert_index-eq h

  get-briefing :
      (entry : Bool) (i : ℕ)
      → entry ≡ true
      → i ≤ length (visible_feed params)
      → get_elem?
          (if entry
            then insert_at
                (min i (length (map (article_of params) (visible_feed params))))
                briefing
                (map (article_of params) (visible_feed params))
            else map (article_of params) (visible_feed params))
          i
        ≡ some briefing
  get-briefing false i e h = cc
  get-briefing true i e h =
      ap (λ n. get_elem? (insert_at n briefing (map (article_of params) (visible_feed params))) i)
        (omega (arith, length-articles (visible_feed params)))
      ∙ get_elem?-insert_at i briefing (map (article_of params) (visible_feed params))
          (omega (arith, length-articles (visible_feed params)))

  anchors_around :
      (all (λ item. not (is_anchor params item)) (take first_anchor (visible_feed params)) ≡ true)
      × (any (is_anchor params) (take 1 (drop first_anchor (visible_feed params)))
          ≡ any (is_anchor params) (visible_feed params))
  anchors_around = elim (Option-cases (find_index? (is_anchor params) (visible_feed params))) [
    | inl e ↦
        let n = find_index?-none (is_anchor params) (visible_feed params) e in
        rw e (refl, any-take (is_anchor params) 1 (visible_feed params) n ∙ sym n)
    | inr (i, e) ↦
        let (before, at) = find_index?-first (is_anchor params) (visible_feed params) i e in
        rw e (
          before,
          at
              ∙ sym (
                  any-drop (is_anchor params) i (visible_feed params)
                    (any-take-true (is_anchor params) 1 (drop i (visible_feed params)) at)),
        )
  ]

  get-in_stream :
      params.has_feed_briefing_entry ≡ true
      → get_elem? (reader_stream_items params) (index_or_zero (feed_briefing_insert_index params))
        ≡ some briefing
  unfolding reader_stream_items
  get-in_stream h =
      get-briefing params.has_feed_briefing_entry _ h
        (omega (arith, insert_index-eq h, first_anchor-le))

  index-of_article :
      (id : ℕ)
      → params.selected_feed_briefing ≡ false
      → params.selected_article_id ≡ some id
      → 0 < id
      → selected_feed_index params ≡ find_index? (is_article id) (reader_stream_items params)
  unfolding selected_feed_index
  index-of_article id b s p = ground arith

  -- With an entry the briefing stands behind as many articles as are counted as new. None of those
  -- is an anchor of the briefing, and the article behind it is one if the visible feed has any.
  pub briefing_place :
      params.has_feed_briefing_entry ≡ true
      → (get_elem? (reader_stream_items params) (feed_briefing_new_article_count params)
          ≡ some briefing)
        × (all
              (λ item. not (is_anchor params item))
              (take (feed_briefing_new_article_count params) (visible_feed params))
            ≡ true)
        × (any
              (is_anchor params)
              (take 1 (drop (feed_briefing_new_article_count params) (visible_feed params)))
            ≡ any (is_anchor params) (visible_feed params))
  briefing_place h = (
    ap (get_elem? (reader_stream_items params)) count-eq ∙ get-in_stream h,
    rw (new_article_count-eq h) (anchors_around.0),
    rw (new_article_count-eq h) (anchors_around.1),
  )

  any-articles :
      (id : ℕ) (items : List FeedItem)
      → any (is_article id) (map (article_of params) items)
        ≡ any (λ (item : FeedItem). nat_beq item.id id) items
  any-articles id [] = refl
  any-articles id (x ∷ xs) = ap (λ b. nat_beq x.id id || b) (any-articles id xs)

  any-article :
      (id : ℕ) (entry : Bool) (i : ℕ) (items : List FeedItem)
      → any (is_article id) (
          if entry
          then insert_at i briefing (map (article_of params) items)
          else map (article_of params) items)
        ≡ any (λ (item : FeedItem). nat_beq item.id id) items
  any-article id true i items = any-insert_at (is_article id) i briefing _ ∙ any-articles id items
  any-article id false i items = any-articles id items

  stream-article :
      (id : ℕ)
      → any (is_article id) (reader_stream_items params)
        ≡ any (λ (item : FeedItem). nat_beq item.id id) (visible_feed params)
  unfolding reader_stream_items
  stream-article id = any-article id params.has_feed_briefing_entry _ (visible_feed params)

  -- With an article selected, and not the briefing, there is a selected index exactly if the
  -- article is visible, and then the article stands at it.
  pub selected_feed_index_lem :
      (id : ℕ)
      → params.selected_feed_briefing ≡ false
      → params.selected_article_id ≡ some id
      → 0 < id
      → (is_some (selected_feed_index params)
          ≡ any (λ (item : FeedItem). nat_beq item.id id) (visible_feed params))
        × (any (is_article id) (items_at (selected_feed_index params) (reader_stream_items params))
            ≡ is_some (selected_feed_index params))
  selected_feed_index_lem id b s p = (
    ap is_some (index-of_article id b s p)
        ∙ is_some-find_index? (is_article id) (reader_stream_items params)
        ∙ stream-article id,
    rw (index-of_article id b s p) (item-found (is_article id) (reader_stream_items params)),
  )
