-- ===== src/Session/Tests.antt =====
-- Concrete runs of the reading session and of the reader.
use urwhaturead.Prelude.{
  ℕ, ◌≡◌, refl, false, ◌&&◌, ◌||◌, none, some, [], ◌∷◌, includes, nat_beq, nat_eq, pos, arith,
}
use urwhaturead.Prelude.Samples.{small_host}
use urwhaturead.Session.{ReaderSession, ReadingState, close, finalize_reader_session}
use urwhaturead.Session.Marks.{marks, finalize_reader_session_lem}
use urwhaturead.Session.Open.{Article, Reader, complete, begin_open, on_detail, call_of}
use urwhaturead.Session.Open.Steps.{
  World, with_summaries, open_article, detail, here, next, IsConsistent,
}
use urwhaturead.Session.Open.Shown.{Reach-IsConsistent}

abbrev session : ReaderSession
session = record {
  article_id = 7;
  opened_at = pos 1000;
  max_scroll_progress = record { top = 30; scrollable = 100 };
  min_dwell_ms = pos 4000;
}

abbrev state : ReadingState
state = record { session = some session; read_article_ids = 4 ∷ [] }

finalize_reader_session_lem_example :
    ((finalize_reader_session (pos 1500) close state).session ≡ none)
    × (includes (finalize_reader_session (pos 1500) close state).read_article_ids 7
        ≡ ((marks (pos 1500) close session && nat_beq 7 7) || includes {A = ℕ} (4 ∷ []) 7))
finalize_reader_session_lem_example =
    finalize_reader_session_lem (pos 1500) close state session 7 refl (omega arith) (omega arith)

abbrev article_of : ℕ → Article
article_of id = record {
  id = id;
  readable_chars = 300;
  has_forum_link = false;
  is_of_thread = false;
  enrichment_status = complete;
}

abbrev pub closed : Reader
closed = record {
  reading = record { session = none; read_article_ids = [] };
  article_request_seq = 0;
  summary_request_seq = 0;
  selected_article_id = none;
  selected_article = none;
  selected_feed_briefing = false;
  loading_article = false;
  article_error = none;
  article_summary = [];
  article_summary_meta = [];
  article_summary_error = none;
  loading_article_summary = false;
  expanded_thread_comments = false;
  thread_comments_newest_first = false;
  shows_floating_reader = false;
  shows_detail_view = false;
  shows_detail_menu = false;
  notice = none;
}

abbrev start : World
start = record { reader = closed; opens = []; summaries = [] }

start-IsConsistent : IsConsistent start
start-IsConsistent = record { shown = λ a l n s. cc; tracked = tt; tracked_summaries = tt }

-- The second opening comes before the answer to the first one.
abbrev first_open : World
first_open =
    with_summaries (begin_open (pos 0) (article_of 7 ∷ []) 7 closed) (call_of 7 closed ∷ []) []

abbrev second_open : World
second_open =
    with_summaries (begin_open (pos 5) [] 8 first_open.reader)
      (call_of 8 first_open.reader ∷ first_open.opens) first_open.summaries

Reach-IsConsistent_example :
    IsConsistent (record second_open {
      reader = on_detail (call_of 7 closed) (article_of 7) second_open.reader;
    })
Reach-IsConsistent_example = Reach-IsConsistent {host = small_host} start-IsConsistent (
    next (next (next here (open_article (pos 0) (article_of 7 ∷ []) 7)) (open_article (pos 5) [] 8))
      (detail 1 (call_of 7 closed) (article_of 7) refl refl))
