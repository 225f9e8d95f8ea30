-- ===== src/Session/Open/Steps.antt =====
-- The steps of the reader with its calls, in any interleaving, and what the steps keep.
use urwhaturead.Prelude.{
  ℕ, ◌≤◌, ◌≡◌, Bool, false, Option, none, some, List, ◌∷◌, ◌++◌, ℤ, Text, All, get_elem?,
}
use urwhaturead.Prelude.Host.{Host}
use urwhaturead.Task.Summary.{CachedSummary, Reply}
use urwhaturead.Session.Open.{
  Article, Reader, OpenCall, SummaryCall, call_of, begin_open, on_initial, on_detail, on_open_error,
  on_cached_summary, close_floating_reader, open_feed_briefing,
}

-- The reader with all calls that were made and may still answer.
pub record World : Type 0 where
  pub reader : Reader
  pub opens : List OpenCall
  pub summaries : List SummaryCall

abbrev pub with_summaries : Reader × List SummaryCall → List OpenCall → List SummaryCall → World
with_summaries p opens summaries = record {
  reader = p.0;
  opens = opens;
  summaries = p.1 ++ summaries;
}

-- The user opens an article, closes the reader or opens the briefing, or a call answers, any call
-- at any time and more than once. An answer is the article that was asked for.
pub data Step (host : Host) : World → World → Type 0 where
  open_article :
      {w : World} (now : ℤ) (feed : List Article) (id : ℕ)
      → Step host w (
          with_summaries
            (begin_open now feed id w.reader)
            (call_of id w.reader ∷ w.opens)
            w.summaries)
  initial :
      {w : World} (now : ℤ) (i : ℕ) (c : OpenCall) (applied : Bool) (a : Article)
      → get_elem? w.opens i ≡ some c
      → a.id ≡ c.article_id
      → Step host w (with_summaries (on_initial now c applied a w.reader) w.opens w.summaries)
  detail :
      {w : World} (i : ℕ) (c : OpenCall) (a : Article)
      → get_elem? w.opens i ≡ some c
      → a.id ≡ c.article_id
      → Step host w (record w { reader = on_detail c a w.reader })
  open_error :
      {w : World} (i : ℕ) (c : OpenCall) (message : Text)
      → get_elem? w.opens i ≡ some c
      → Step host w (record w { reader = on_open_error c message w.reader })
  cached_summary :
      {w : World} (i : ℕ) (c : SummaryCall) (reply : Reply (Option CachedSummary))
      → get_elem? w.summaries i ≡ some c
      → Step host w (record w { reader = on_cached_summary host c reply w.reader })
  close_reader :
      {w : World} (now : ℤ) → Step host w (record w { reader = close_floating_reader now w.reader })
  open_briefing :
      {w : World} (now : ℤ) → Step host w (record w { reader = open_feed_briefing now w.reader })

pub data Reach (host : Host) (v : World) : World → Type 0 where
  here : Reach host v v
  next : {w u : World} → Reach host v w → Step host w u → Reach host v u

-- A call that holds the newest numbers is for the selected article.
abbrev pub IsTracked : Reader → OpenCall → Type 0
IsTracked r c =
    (c.article_request_id ≤ r.article_request_seq)
    × (c.summary_request_id ≤ r.summary_request_seq)
    × (c.article_request_id ≡ r.article_request_seq → r.selected_article_id ≡ some c.article_id)
    × (c.summary_request_id ≡ r.summary_request_seq → r.selected_article_id ≡ some c.article_id)

abbrev pub IsTrackedSummary : Reader → SummaryCall → Type 0
IsTrackedSummary r c =
    (c.request_id ≤ r.summary_request_seq)
    × (c.request_id ≡ r.summary_request_seq → r.selected_article_id ≡ some c.article_id)

-- With nothing loading and no error shown, the shown article is the selected one.
abbrev pub ShowsSelected : Reader → Type 0
ShowsSelected r =
    (a : Article)
    → r.loading_article ≡ false
    → r.article_error ≡ none
    → r.selected_article ≡ some a
    → r.selected_article_id ≡ some a.id

pub record IsConsistent (w : World) : Type 0 where
  pub shown : ShowsSelected w.reader
  pub tracked : All (IsTracked w.reader) w.opens
  pub tracked_summaries : All (IsTrackedSummary w.reader) w.summaries
