-- ===== src/Feed/Tests.antt =====
-- Concrete runs of the feed.
use urwhaturead.Prelude.{lookup}
use urwhaturead.Feed.{normalize_source_kind}
use urwhaturead.Prelude.{includes}
use urwhaturead.Sanitize.{read_digits}
use urwhaturead.Sanitize.{parse_int}
use urwhaturead.Feed.{split_from}
use urwhaturead.Feed.{positive_ids}
use urwhaturead.Prelude.{distinct_from}
use urwhaturead.Prelude.{is_white_space}
use urwhaturead.Prelude.{trim_start}
use urwhaturead.Prelude.{trim}
use urwhaturead.Prelude.{
  ℕ, ◌≡◌, refl, true, false, none, some, [], ◌∷◌, nat_eq, codes, is_some, text_beq,
}
use urwhaturead.Prelude.Samples.{small_host}
use urwhaturead.Stream.{FeedItem}
use urwhaturead.Feed.{
  FeedFilters, FeedLoadOverrides, FeedScope, FeedState, FeedPage, LoadCall, CheckCall,
  resolve_feed_scope, parse_source_id_filter, begin_load, begin_check,
}
use urwhaturead.Feed.Loading.{World, with_call}

abbrev filters : FeedFilters
filters = record { tag = []; source_id = codes " 4, 5,4"; keyword = codes " ai " }

abbrev no_overrides : FeedLoadOverrides
no_overrides = record { tag = none; source_id = none; keyword = none; cursor = none }

abbrev scope : FeedScope
scope = record {
  active_tag = [];
  active_source_id = codes " 4, 5,4";
  active_keyword = codes "ai";
  filtered_source_ids = 4 ∷ 5 ∷ [];
  include_hidden = true;
}

scope_of_filters :
    resolve_feed_scope small_host ((5, some (codes "Thread")) ∷ []) filters no_overrides ≡ scope
unfolding resolve_feed_scope trim parse_source_id_filter trim_start is_white_space distinct_from
    positive_ids split_from parse_int read_digits includes normalize_source_kind lookup text_beq
scope_of_filters = refl

abbrev item : ℕ → ℕ → FeedItem
item id source_id = record { id = id; source_id = source_id }

abbrev empty : FeedState
empty = record {
  feed = [];
  feed_cursor = [];
  has_more_feed = false;
  pending_feed_count = 0;
  loading_feed = false;
  checking_feed_updates = false;
  feed_error = none;
  feed_request_seq = 0;
  notice = none;
}

check_of_empty : is_some (begin_check scope true empty) ≡ false
unfolding begin_check
check_of_empty = refl

abbrev first_page : FeedPage
first_page = record { items = item 12 4 ∷ item 11 9 ∷ []; next_cursor = some (codes "c") }

abbrev second_page : FeedPage
second_page = record { items = item 10 5 ∷ []; next_cursor = none }

abbrev first : LoadCall
first = (begin_load scope none false empty).1

abbrev first_world : World
first_world = with_call (begin_load scope none false empty) []

abbrev second : LoadCall
second = (begin_load scope none false first_world.state).1

abbrev second_world : World
second_world = with_call (begin_load scope none false first_world.state) first_world.calls

abbrev check : CheckCall
check = record { query = record { limit = 20; cursor = []; scope = scope }; shown = item 10 5 ∷ [] }
