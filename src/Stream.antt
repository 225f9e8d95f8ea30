-- ===== src/Stream.antt =====
-- hooks/use-reader-stream.ts: the articles that the reader lists, with the briefing among them.
pub mod Laws
mod Tests
use urwhaturead.Prelude.{
  ℕ, min, Bool, true, false, not, ◌&&◌, ◌||◌, Option, none, some, List, [], ◌∷◌, map, filter,
  length, find_index?, insert_at, if◌then◌else◌, ltb, nat_beq, nat_eq, text_eq, includes, lookup,
  Text, is_empty,
}

pub record FeedItem : Type 0 where
  pub id : ℕ
  pub source_id : ℕ

pub data ReaderStreamItem : Type 0 where
  article : ℕ → ReaderStreamItem
  briefing : ReaderStreamItem

-- Sets are given by their elements, `source_site_key_map` by its entries. Ids are natural numbers;
-- `selected_article_id` is `none` for null.
pub record StreamParams : Type 0 where
  pub feed : List FeedItem
  pub unread_only : Bool
  pub favorite_only : Bool
  pub read_article_ids : List ℕ
  pub favorite_article_ids : List ℕ
  pub source_site_key_map : List (ℕ × Text)
  pub muted_sites : List Text
  pub has_feed_briefing_entry : Bool
  pub feed_briefing_anchor_article_ids : List ℕ
  pub selected_feed_briefing : Bool
  pub selected_article_id : Option ℕ

-- A missing or empty site key is never muted.
unfoldable pub is_unmuted : List Text → Option Text → Bool
is_unmuted muted none = true
is_unmuted muted (some key) = is_empty key || not (includes muted key)

abbrev pub is_briefing : ReaderStreamItem → Bool
is_briefing briefing = true
is_briefing (article id) = false

abbrev pub is_article : ℕ → ReaderStreamItem → Bool
is_article id briefing = false
is_article id (article other) = nat_beq other id

-- `Math.max(index, 0)`, where -1 is `none`
abbrev pub index_or_zero : Option ℕ → ℕ
index_or_zero none = 0
index_or_zero (some i) = i

abbrev pub is_nil {ℓ} : {A : Type ℓ} → List A → Bool
is_nil [] = true
is_nil (x ∷ xs) = false

module _ (params : StreamParams) where
  open params use {
    feed, unread_only, favorite_only, read_article_ids, favorite_article_ids, source_site_key_map,
    muted_sites, has_feed_briefing_entry, feed_briefing_anchor_article_ids, selected_feed_briefing,
    selected_article_id,
  }

  unfoldable pub visible_feed_base : List FeedItem
  visible_feed_base =
      filter
        (λ (item : FeedItem). is_unmuted muted_sites (lookup item.source_id source_site_key_map))
        feed

  unfoldable pub passes_filters : FeedItem → Bool
  passes_filters item =
      if unread_only && includes read_article_ids item.id
      then false
      else if favorite_only && not (includes favorite_article_ids item.id)
      then false
      else true

  unfoldable pub visible_feed : List FeedItem
  visible_feed = filter passes_filters visible_feed_base

  unfoldable pub is_anchor : FeedItem → Bool
  is_anchor item = includes feed_briefing_anchor_article_ids item.id

  unfoldable pub feed_briefing_insert_index : Option ℕ
  feed_briefing_insert_index =
      if not has_feed_briefing_entry
      then none
      else if is_nil visible_feed || is_nil feed_briefing_anchor_article_ids
      then some 0
      else some (index_or_zero (find_index? is_anchor visible_feed))

  unfoldable pub feed_briefing_new_article_count : ℕ
  feed_briefing_new_article_count =
      if ltb 0 (index_or_zero feed_briefing_insert_index)
      then index_or_zero feed_briefing_insert_index
      else 0

  abbrev pub article_of : FeedItem → ReaderStreamItem
  article_of item = article item.id

  unfoldable pub reader_stream_items : List ReaderStreamItem
  reader_stream_items =
      let items = map article_of visible_feed in
      if has_feed_briefing_entry
      then insert_at (min (index_or_zero feed_briefing_insert_index) (length items)) briefing items
      else items

  -- `selectedFeedIndex`, where -1 is `none`
  unfoldable pub selected_feed_index : Option ℕ
  selected_feed_index =
      let of_article : Option ℕ = elim selected_article_id [
        | none ↦ none
        | some id ↦ if ltb 0 id then find_index? (is_article id) reader_stream_items else none
      ] in
      if selected_feed_briefing then find_index? is_briefing reader_stream_items else of_article

  unfoldable pub unread_visible_count : ℕ
  unread_visible_count =
      length (filter (λ (item : FeedItem). not (includes read_article_ids item.id)) visible_feed)

  unfoldable pub favorite_visible_count : ℕ
  favorite_visible_count =
      length (filter (λ (item : FeedItem). includes favorite_article_ids item.id) visible_feed_base)
