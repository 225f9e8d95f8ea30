-- ===== src/Feed.antt =====
-- hooks/use-reader-data-controller.ts: loading the pages of the feed and looking for new articles,
-- with `parseSourceIDFilter` and `normalizeSourceKind` of lib/app-utils.ts. An asynchronous call is
-- cut at its await: the first part makes a request, and the answer is a handler that is given it.
pub mod Filter
pub mod Loading
pub mod Pages
mod Tests
use urwhaturead.Prelude.{
  ℕ, suc, ◌+◌, min, max, Bool, true, false, not, ◌||◌, Option, none, some, List, [], ◌∷◌, ◌++◌, map,
  any, filter, length, if◌then◌else◌, ltb, nat_beq, nat_eq, text_eq, ◌==◌, Text, codes, trim,
  is_empty, includes, lookup, distinct_from,
}
use urwhaturead.Prelude.Host.{Host}
use urwhaturead.Sanitize.{parse_int}
use urwhaturead.Stream.{FeedItem, is_nil}
use urwhaturead.Task.Poller.{Notice, NoticeKind}

pub data SourceKind : Type 0 where
  feed thread : SourceKind

abbrev is_thread : SourceKind → Bool
is_thread thread = true
is_thread feed = false

unfoldable pub normalize_source_kind : Host → Option Text → SourceKind
normalize_source_kind host none = feed
normalize_source_kind host (some kind) =
    if host.to_lower_case (trim kind) == codes "thread" then thread else feed

-- `text.split(',')`, where `front` is the part before the rest, backwards in the source's order.
unfoldable pub split_from : ℕ → Text → Text → List Text
split_from separator front [] = front ∷ []
split_from separator front (c ∷ s) =
    let here = front ∷ split_from separator [] s in
    let there = split_from separator (front ++ c ∷ []) s in
    if nat_beq c separator then here else there

-- A parsed number, if it is an integer above zero.
abbrev positive_of : Bool × Option ℕ → List ℕ
positive_of (negative, none) = []
positive_of (true, some n) = []
positive_of (false, some n) = if ltb 0 n then n ∷ [] else []

unfoldable pub positive_ids : List Text → List ℕ
positive_ids [] = []
positive_ids (part ∷ parts) = positive_of (parse_int (trim part)) ++ positive_ids parts

unfoldable pub parse_source_id_filter : Text → List ℕ
parse_source_id_filter input =
    if is_empty (trim input) then [] else distinct_from [] (positive_ids (split_from b',' [] input))

-- The filters of the reader, and what a call may put in their place.
pub record FeedFilters : Type 0 where
  pub tag : Text
  pub source_id : Text
  pub keyword : Text

pub record FeedLoadOverrides : Type 0 where
  pub tag : Option Text
  pub source_id : Option Text
  pub keyword : Option Text
  pub cursor : Option Text

pub record FeedScope : Type 0 where
  pub active_tag : Text
  pub active_source_id : Text
  pub active_keyword : Text
  pub filtered_source_ids : List ℕ
  pub include_hidden : Bool

-- `override ?? value`
abbrev given_or {ℓ} : {A : Type ℓ} → Option A → A → A
given_or none value = value
given_or (some given) value = given

-- `sourceByID.get(id)?.kind`
abbrev kind_of : List (ℕ × Option Text) → ℕ → Option Text
kind_of kinds id = given_or (lookup id kinds) none

unfoldable pub resolve_feed_scope :
    Host → List (ℕ × Option Text) → FeedFilters → FeedLoadOverrides → FeedScope
resolve_feed_scope host kinds filters overrides =
    let source_id = given_or overrides.source_id filters.source_id in
    let ids = parse_source_id_filter source_id in
    record {
      active_tag = given_or overrides.tag filters.tag;
      active_source_id = source_id;
      active_keyword = trim (given_or overrides.keyword filters.keyword);
      filtered_source_ids = ids;
      include_hidden = any (λ id. is_thread (normalize_source_kind host (kind_of kinds id))) ids;
    }

pub record FeedState : Type 0 where
  pub feed : List FeedItem
  pub feed_cursor : Text
  pub has_more_feed : Bool
  pub pending_feed_count : ℕ
  pub loading_feed : Bool
  pub checking_feed_updates : Bool
  pub feed_error : Option Text
  pub feed_request_seq : ℕ
  pub notice : Option Notice

pub record FeedQuery : Type 0 where
  pub limit : ℕ
  pub cursor : Text
  pub scope : FeedScope

-- What a call of `loadFeed` holds across its await.
pub record LoadCall : Type 0 where
  pub request_id : ℕ
  pub append : Bool
  pub query : FeedQuery

pub record FeedPage : Type 0 where
  pub items : List FeedItem
  pub next_cursor : Option Text

abbrev pub scoped_items : List ℕ → List FeedItem → List FeedItem
scoped_items ids items =
    if is_nil ids then items else filter (λ (item : FeedItem). includes ids item.source_id) items

-- `loadFeed` up to its await.
unfoldable pub begin_load : FeedScope → Option Text → Bool → FeedState → FeedState × LoadCall
begin_load scope cursor append s = (
  record s { feed_request_seq = suc s.feed_request_seq; loading_feed = true; feed_error = none },
  record {
    request_id = suc s.feed_request_seq;
    append = append;
    query = record {
      limit = 20;
      cursor = given_or cursor (if append then s.feed_cursor else []);
      scope = scope;
    };
  },
)

unfoldable pub is_newest : LoadCall → FeedState → Bool
is_newest c s = nat_beq c.request_id s.feed_request_seq

-- The answer, with the `finally` behind it.
unfoldable pub on_feed_page : LoadCall → FeedPage → FeedState → FeedState
on_feed_page c page s =
    let items = scoped_items c.query.scope.filtered_source_ids page.items in
    let cursor = given_or page.next_cursor [] in
    if is_newest c s
    then record s {
      feed = if c.append then s.feed ++ items else items;
      pending_feed_count = if c.append then s.pending_feed_count else 0;
      feed_cursor = cursor;
      has_more_feed = not (is_empty cursor);
      loading_feed = false;
    }
    else s

unfoldable pub on_feed_error : LoadCall → Text → FeedState → FeedState
on_feed_error c message s =
    if is_newest c s
    then record s {
      feed_error = some message;
      notice = some (record { kind = NoticeKind.error; text = codes "加载 feed 失败: " ++ message });
      loading_feed = false;
    }
    else s

-- `loadMore`; `none` if it makes no request.
unfoldable pub load_more : FeedScope → FeedState → Option (FeedState × LoadCall)
load_more scope s =
    if is_empty s.feed_cursor || s.loading_feed then none else some (begin_load scope none true s)

-- What a call of `checkFeedUpdates` holds: its scope and the feed of the render that made it.
pub record CheckCall : Type 0 where
  pub query : FeedQuery
  pub shown : List FeedItem

-- `is_reader` says that the tab of the reader is active.
unfoldable pub begin_check : FeedScope → Bool → FeedState → Option (FeedState × CheckCall)
begin_check scope is_reader s =
    if not is_reader || s.loading_feed || is_nil s.feed
    then none
    else some (
      record s { checking_feed_updates = true },
      record {
        query = record { limit = min (max (length s.feed) 20) 60; cursor = []; scope = scope };
        shown = s.feed;
      },
    )

-- The loop of `reduce`, from a count.
unfoldable pub count_new : List ℕ → ℕ → List FeedItem → ℕ
count_new current count [] = count
count_new current count (item ∷ items) =
    count_new current (if includes current item.id then count else count + 1) items

-- `none` is a call that failed.
unfoldable pub on_check_reply : CheckCall → Option FeedPage → FeedState → FeedState
on_check_reply c none s = record s { checking_feed_updates = false }
on_check_reply c (some page) s = record s {
  pending_feed_count =
      count_new (map (λ (item : FeedItem). item.id) c.shown) 0
        (scoped_items c.query.scope.filtered_source_ids page.items);
  checking_feed_updates = false;
}

-- `applyPendingFeedUpdates` up to the await of its `loadFeed(false)`.
unfoldable pub apply_pending_feed_updates : FeedScope → FeedState → FeedState × LoadCall
apply_pending_feed_updates scope s =
    begin_load scope none false (record s { pending_feed_count = 0 })
