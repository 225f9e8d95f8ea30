-- ===== src/Session.antt =====
-- hooks/use-reader-session-actions.ts, `openArticle` of hooks/use-reader-article-actions.ts and
-- `loadCachedSummary` of hooks/use-summary-article-state.ts: the reader that shows one article, its
-- reading session, and the answers that come late. `resolveReadDwellThresholdMs` is of app-utils.ts.
pub mod Marks
pub mod Open
pub mod Summarize
pub mod Tests
use urwhaturead.Prelude.{
  ℕ, ◌+◌, ◌*◌, Bool, true, false, not, ◌&&◌, ◌||◌, Option, none, some, List, [], ◌∷◌, if◌then◌else◌,
  leb, ltb, leb_ℤ, ℤ, pos, ◌-ℤ◌, Text, nat_beq,
}
use urwhaturead.Article.{upsert_read_article_id}

-- A scroll progress `top / scrollable`, as a fraction of natural numbers.
pub record Progress : Type 0 where
  pub top : ℕ
  pub scrollable : ℕ

-- `>=` and `>` of fractions with positive denominators, by cross multiplication.
abbrev pub at_least : Progress → Progress → Bool
at_least a b = leb (b.top * a.scrollable) (a.top * b.scrollable)

abbrev pub is_above : Progress → Progress → Bool
is_above a b = ltb (b.top * a.scrollable) (a.top * b.scrollable)

pub record ReaderSession : Type 0 where
  pub article_id : ℕ
  pub opened_at : ℤ
  pub max_scroll_progress : Progress
  pub min_dwell_ms : ℤ

pub data FinalizeReason : Type 0 where
  close navigate : FinalizeReason

abbrev pub read_mark_min_scroll_progress : Progress
read_mark_min_scroll_progress = record { top = 3; scrollable = 10 }

-- By the number of readable characters.
unfoldable pub resolve_read_dwell_threshold_ms : ℕ → ℤ
resolve_read_dwell_threshold_ms readable_chars =
    if leb readable_chars 180
    then pos 2000
    else if leb readable_chars 500
    then pos 4000
    else if leb readable_chars 1200
    then pos 6000
    else pos 8000

pub record ReadingState : Type 0 where
  pub session : Option ReaderSession
  pub read_article_ids : List ℕ

unfoldable pub mark_article_read : ℕ → ReadingState → ReadingState
mark_article_read id s = record s {
  read_article_ids = upsert_read_article_id s.read_article_ids id;
}

unfoldable pub start_reader_session : ℤ → ℕ → ℤ → ReadingState → ReadingState
start_reader_session now id min_dwell_ms s = record s {
  session = some (record {
    article_id = id;
    opened_at = now;
    max_scroll_progress = record { top = 0; scrollable = 1 };
    min_dwell_ms = min_dwell_ms;
  });
}

-- Long enough, or far enough.
unfoldable pub has_been_read : ℤ → ReaderSession → Bool
has_been_read now session =
    leb_ℤ session.min_dwell_ms (now -ℤ session.opened_at)
    || at_least session.max_scroll_progress read_mark_min_scroll_progress

unfoldable pub finalize_session :
    ℤ → FinalizeReason → Option ReaderSession → ReadingState → ReadingState
unfolding mark_article_read
finalize_session now reason none s = s
finalize_session now navigate (some session) s =
    mark_article_read session.article_id (record s { session = none })
finalize_session now close (some session) s =
    if has_been_read now session
    then mark_article_read session.article_id (record s { session = none })
    else record s { session = none }

unfoldable pub finalize_reader_session : ℤ → FinalizeReason → ReadingState → ReadingState
unfolding finalize_session
finalize_reader_session now reason s = finalize_session now reason s.session s

-- `updateReaderSessionProgress` of hooks/use-reader-runtime-effects.ts, behind its test that the
-- session is that of the open article.
unfoldable pub update_session_progress : Progress → ReaderSession → ReaderSession
update_session_progress progress session =
    if leb progress.scrollable 0
    then session
    else if is_above progress session.max_scroll_progress
    then record session { max_scroll_progress = progress }
    else session
