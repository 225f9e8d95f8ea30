-- ===== src/Stream/Tests.antt =====
-- A concrete stream: four articles, one of a muted site, and a briefing made when 12 was the newest.
use urwhaturead.Prelude.{text_beq}
use urwhaturead.Prelude.{
  ℕ, ◌≡◌, refl, true, false, not, some, [], ◌∷◌, map, filter, codes, any, all, take, drop,
  get_elem?, nat_eq, includes, lookup,
}
use urwhaturead.Stream.{
  FeedItem, StreamParams, briefing, is_briefing, visible_feed, is_anchor,
  feed_briefing_new_article_count, reader_stream_items, article_of, unread_visible_count,
  favorite_visible_count, visible_feed_base, passes_filters, is_unmuted,
}
use urwhaturead.Stream.Laws.{reader_stream_items_lem, briefing_place}

abbrev item : ℕ → ℕ → FeedItem
item id source_id = record { id = id; source_id = source_id }

abbrev params : StreamParams
params = record {
  feed = item 14 1 ∷ item 13 2 ∷ item 12 1 ∷ item 11 3 ∷ [];
  unread_only = false;
  favorite_only = false;
  read_article_ids = 12 ∷ [];
  favorite_article_ids = 11 ∷ 13 ∷ [];
  source_site_key_map = (1, codes "a.org") ∷ (2, codes "b.org") ∷ [];
  muted_sites = codes "b.org" ∷ [];
  has_feed_briefing_entry = true;
  feed_briefing_anchor_article_ids = 12 ∷ 11 ∷ [];
  selected_feed_briefing = false;
  selected_article_id = some 11;
}

unread_of_params : unread_visible_count params ≡ 2
unfolding unread_visible_count visible_feed visible_feed_base passes_filters is_unmuted includes
    lookup text_beq
unread_of_params = refl

favorites_of_params : favorite_visible_count params ≡ 1
unfolding favorite_visible_count visible_feed_base is_unmuted includes lookup text_beq
favorites_of_params = refl

reader_stream_items_lem_example :
    (filter (λ x. not (is_briefing x)) (reader_stream_items params)
      ≡ map (article_of params) (visible_feed params))
    × (filter is_briefing (reader_stream_items params) ≡ briefing ∷ [])
reader_stream_items_lem_example = reader_stream_items_lem params

briefing_place_example :
    (get_elem? (reader_stream_items params) (feed_briefing_new_article_count params)
      ≡ some briefing)
    × (all
          (λ x. not (is_anchor params x))
          (take (feed_briefing_new_article_count params) (visible_feed params))
        ≡ true)
    × (any
          (is_anchor params)
          (take 1 (drop (feed_briefing_new_article_count params) (visible_feed params)))
        ≡ any (is_anchor params) (visible_feed params))
briefing_place_example = briefing_place params refl
