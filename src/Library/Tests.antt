-- ===== src/Library/Tests.antt =====
-- Concrete reads beside the lists.
use urwhaturead.Prelude.{◌≡◌, refl, true, false, none, [], ◌∷◌, codes}
use urwhaturead.Task.Summary.{threw, answered}
use urwhaturead.Session.Open.{Article, EnrichmentStatus}
use urwhaturead.Library.{LibraryState, ReadCall, begin_read, on_load_replies, errors_of}
use urwhaturead.Library.Races.{World, Reach, Step, IsShown, with_read, after_reply, Reach-IsShown}

abbrev state : LibraryState
state = record {
  search = [];
  article_summaries = [];
  feed_briefings = [];
  loading = false;
  error = none;
  loaded_once = false;
  reader_article = none;
  reader_article_loading = false;
  reader_article_error = none;
  ai_tab_active = false;
  article_request_seq = 0;
  notice = none;
}

abbrev start : World
start = record { state = state; reads = []; opened = none }

abbrev first_call : ReadCall
first_call = record { request_id = 1; article_id = 5 }

abbrev article : Article
article = record {
  id = 5;
  readable_chars = 300;
  has_forum_link = false;
  is_of_thread = false;
  enrichment_status = EnrichmentStatus.complete;
}

-- Article 5 is opened, then article 6, and the answer for article 5 arrives.
abbrev overtaken : World
overtaken =
    let w : World = with_read 5 (begin_read 5 state) start in
    let u : World = with_read 6 (begin_read 6 w.state) w in
    after_reply first_call (answered article) u

Reach-overtaken : Reach start overtaken
unfolding begin_read
Reach-overtaken =
    Reach.next (Reach.next (Reach.next Reach.here (Step.read 5)) (Step.read 6))
      (Step.read_answered 1 first_call article refl refl)

start-IsShown : IsShown start
start-IsShown = record { shown = tt; loads = λ l. cc; tracked = tt }

Reach-IsShown_example : IsShown overtaken
Reach-IsShown_example = Reach-IsShown start-IsShown Reach-overtaken

-- A failure of one of the two requests does not keep the other list from being shown.
one_failed :
    let s =
      on_load_replies
        (threw (codes "404"))
        (answered (record { digest_key = codes "k"; scope_label = [] } ∷ []))
        state in
    (s.feed_briefings ≡ record { digest_key = codes "k"; scope_label = [] } ∷ [])
    × (s.loaded_once ≡ true)
unfolding on_load_replies errors_of
one_failed = (refl, refl)
