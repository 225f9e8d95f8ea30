-- ===== src/Feed/Pages.antt =====
-- What the feed holds after its pages, and what a check counts.
use urwhaturead.Prelude.{ℕ, Bool, true, not, none, List, [], ◌∷◌, ◌++◌, map, nat_eq, includes}
use urwhaturead.Stream.{FeedItem}
use urwhaturead.Feed.{FeedScope, FeedState, FeedPage, scoped_items, begin_load, on_feed_page}

-- A load that is answered before another one starts.
abbrev pub load_page : FeedScope → Bool → FeedPage → FeedState → FeedState
load_page scope append page s = let p = begin_load scope none append s in on_feed_page p.1 page p.0

abbrev pub load_more_pages : FeedScope → List FeedPage → FeedState → FeedState
load_more_pages scope [] s = s
load_more_pages scope (page ∷ pages) s = load_more_pages scope pages (load_page scope true page s)

abbrev pub items_of : List ℕ → List FeedPage → List FeedItem
items_of ids [] = []
items_of ids (page ∷ pages) = scoped_items ids page.items ++ items_of ids pages

abbrev pub is_unseen : List FeedItem → FeedItem → Bool
is_unseen shown item = not (includes (map (λ (x : FeedItem). x.id) shown) item.id)
