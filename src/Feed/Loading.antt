-- ===== src/Feed/Loading.antt =====
-- Loads that overlap: which answers count, and when the feed is loading.
use urwhaturead.Prelude.{
  ℕ, ◌≤◌, ◌≡◌, Bool, not, Option, some, List, ◌∷◌, filter, get_elem?, nat_eq, ◌==◌, Text, is_empty,
  has_key, arith,
}
use urwhaturead.Feed.{
  FeedScope, FeedState, LoadCall, CheckCall, FeedPage, begin_load, is_newest, on_feed_page,
  on_feed_error, load_more, on_check_reply, apply_pending_feed_updates,
}

-- The state with the loads that have not been answered.
pub record World : Type 0 where
  pub state : FeedState
  pub calls : List LoadCall

abbrev pub with_call : FeedState × LoadCall → List LoadCall → World
with_call p calls = record { state = p.0; calls = p.1 ∷ calls }

abbrev pub number_of : LoadCall → ℕ
number_of c = c.request_id

-- The calls that are left when a call has been answered.
abbrev pub answered : LoadCall → List LoadCall → List LoadCall
answered c = filter (λ d. not (number_of d == number_of c))

-- Loads start at any time and are answered in any order; checks for new articles run beside them.
pub data Step : World → World → Type 0 where
  load :
      {w : World} (scope : FeedScope) (cursor : Option Text) (append : Bool)
      → Step w (with_call (begin_load scope cursor append w.state) w.calls)
  more :
      {w : World} (scope : FeedScope) (p : FeedState × LoadCall)
      → load_more scope w.state ≡ some p
      → Step w (with_call p w.calls)
  apply_pending :
      {w : World} (scope : FeedScope)
      → Step w (with_call (apply_pending_feed_updates scope w.state) w.calls)
  page :
      {w : World} (i : ℕ) (c : LoadCall) (p : FeedPage)
      → get_elem? w.calls i ≡ some c
      → Step w (record { state = on_feed_page c p w.state; calls = answered c w.calls })
  error :
      {w : World} (i : ℕ) (c : LoadCall) (message : Text)
      → get_elem? w.calls i ≡ some c
      → Step w (record { state = on_feed_error c message w.state; calls = answered c w.calls })
  check_reply :
      {w : World} (c : CheckCall) (reply : Option FeedPage)
      → Step w (record w { state = on_check_reply c reply w.state })

pub data Reach (v : World) : World → Type 0 where
  here : Reach v v
  next : {w u : World} → Reach v w → Step w u → Reach v u

-- The feed is loading exactly while the newest call waits for its answer, and more pages are offered
-- exactly if there is a cursor.
pub record IsSettled (w : World) : Type 0 where
  pub loads : w.state.loading_feed ≡ has_key number_of w.state.feed_request_seq w.calls
  pub offers : w.state.has_more_feed ≡ not (is_empty w.state.feed_cursor)

-- An answer, or an error, of a call that was made before the newest one changes nothing.
pub stale_lem :
    (scope : FeedScope) (cursor : Option Text) (append : Bool) (c : LoadCall) (p : FeedPage)
    (message : Text) (s : FeedState)
    → c.request_id ≤ s.feed_request_seq
    → (on_feed_page c p (begin_load scope cursor append s).0 ≡ (begin_load scope cursor append s).0)
      × (on_feed_error c message (begin_load scope cursor append s).0
          ≡ (begin_load scope cursor append s).0)
unfolding begin_load on_feed_page on_feed_error is_newest
stale_lem scope cursor append c p message s h = ground arith
