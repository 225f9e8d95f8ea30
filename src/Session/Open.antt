-- ===== src/Session/Open.antt =====
-- `openArticle`, `closeFloatingReader`, `openFeedBriefing` and `loadCachedSummary` as handlers on the
-- state of the reader. An asynchronous call is cut at its awaits: the part before the first one
-- starts a call, and each answer is a handler of its own that is given the call.
pub mod Steps
pub mod Answers
pub mod Shown
use urwhaturead.Prelude.{
  ℕ, ◌+◌, suc, Bool, true, false, not, ◌&&◌, ◌||◌, Option, none, some, List, [], ◌∷◌, ◌++◌, find?,
  if◌then◌else◌, is_empty, ℤ, Text, codes, nat_beq,
}
use urwhaturead.Prelude.Host.{Host}
use urwhaturead.Task.Poller.{Notice, NoticeKind, info}
use urwhaturead.Task.Summary.{CachedSummary, Reply, threw, answered, summary_meta}
use urwhaturead.Session.{
  ReadingState, FinalizeReason, navigate, close, finalize_reader_session, start_reader_session,
  resolve_read_dwell_threshold_ms,
}

pub data EnrichmentStatus : Type 0 where
  absent loading complete failed : EnrichmentStatus

-- Of an article: the count of its readable characters, whether `isTrackableForumLink` accepts its
-- link, and whether its source is a thread.
pub record Article : Type 0 where
  pub id : ℕ
  pub readable_chars : ℕ
  pub has_forum_link : Bool
  pub is_of_thread : Bool
  pub enrichment_status : EnrichmentStatus

pub record Reader : Type 0 where
  pub reading : ReadingState
  pub article_request_seq : ℕ
  pub summary_request_seq : ℕ
  pub selected_article_id : Option ℕ
  pub selected_article : Option Article
  pub selected_feed_briefing : Bool
  pub loading_article : Bool
  pub article_error : Option Text
  pub article_summary : Text
  pub article_summary_meta : Text
  pub article_summary_error : Option Text
  pub loading_article_summary : Bool
  pub expanded_thread_comments : Bool
  pub thread_comments_newest_first : Bool
  pub shows_floating_reader : Bool
  pub shows_detail_view : Bool
  pub shows_detail_menu : Bool
  pub notice : Option Notice

-- What a call of `openArticle` holds across its awaits.
pub record OpenCall : Type 0 where
  pub article_id : ℕ
  pub article_request_id : ℕ
  pub summary_request_id : ℕ

-- What a call of `loadCachedSummary` holds.
pub record SummaryCall : Type 0 where
  pub article_id : ℕ
  pub request_id : ℕ

-- `activeSession && activeSession.articleID !== articleID`
abbrev leave_session : ℤ → ℕ → ReadingState → ReadingState
leave_session now id s = elim s.session [
  | none ↦ s
  | some session ↦
      if nat_beq session.article_id id then s else finalize_reader_session now navigate s
]

unfoldable pub is_current : OpenCall → Reader → Bool
is_current c r = nat_beq c.article_request_id r.article_request_seq

-- `applyInitial`, and the call of `loadCachedSummary` that it makes.
unfoldable pub apply_initial : ℤ → OpenCall → Article → Reader → Reader × List SummaryCall
apply_initial now c initial r =
    if is_current c r
    then (
      record r {
        selected_article = some initial;
        loading_article = false;
        reading =
            start_reader_session now c.article_id
              (resolve_read_dwell_threshold_ms initial.readable_chars) r.reading;
      },
      record { article_id = c.article_id; request_id = c.summary_request_id } ∷ [],
    )
    else (r, [])

-- The state at the call of `getArticle`, if the feed does not hold the article.
unfoldable pub clear_for : ℤ → ℕ → Reader → Reader
clear_for now id r = record {
  reading = leave_session now id r.reading;
  article_request_seq = suc r.article_request_seq;
  summary_request_seq = suc r.summary_request_seq;
  selected_article_id = some id;
  selected_article = r.selected_article;
  selected_feed_briefing = false;
  loading_article = true;
  article_error = none;
  article_summary = [];
  article_summary_meta = [];
  article_summary_error = none;
  loading_article_summary = false;
  expanded_thread_comments = false;
  thread_comments_newest_first = false;
  shows_floating_reader = true;
  shows_detail_view = false;
  shows_detail_menu = false;
  notice = r.notice;
}

abbrev pub call_of : ℕ → Reader → OpenCall
call_of id r = record {
  article_id = id;
  article_request_id = suc r.article_request_seq;
  summary_request_id = suc r.summary_request_seq;
}

abbrev pub preview_of : ℕ → List Article → Option Article
preview_of id feed = find? (λ (a : Article). nat_beq a.id id) feed

abbrev pub apply_preview : ℤ → OpenCall → Option Article → Reader → Reader × List SummaryCall
apply_preview now c none r = (r, [])
apply_preview now c (some preview) r =
    apply_initial now c (record preview { enrichment_status = loading }) r

-- `openArticle` up to its await.
unfoldable pub begin_open : ℤ → List Article → ℕ → Reader → Reader × List SummaryCall
begin_open now feed id r =
    apply_preview now (call_of id r) (preview_of id feed) (clear_for now id r)

-- The callback that `getArticle` calls with the article as first loaded.
unfoldable pub on_initial : ℤ → OpenCall → Bool → Article → Reader → Reader × List SummaryCall
on_initial now c initial_applied initial r =
    if initial_applied
    then ((if is_current c r then record r { selected_article = some initial } else r), [])
    else apply_initial now c initial r

-- `getArticle` returns.
unfoldable pub on_detail : OpenCall → Article → Reader → Reader
on_detail c detail r =
    if is_current c r
    then record r {
      selected_article = some detail;
      expanded_thread_comments = detail.has_forum_link;
      thread_comments_newest_first = detail.is_of_thread;
      loading_article = false;
    }
    else r

-- `getArticle` throws.
unfoldable pub on_open_error : OpenCall → Text → Reader → Reader
on_open_error c message r =
    if is_current c r
    then record r {
      article_error = some message;
      notice = some (record { kind = NoticeKind.error; text = codes "加载文章详情失败: " ++ message });
      loading_article = false;
    }
    else r

abbrev show_cached : Host → Option CachedSummary → Reader → Reader
show_cached host none r = r
show_cached host (some c) r = if is_empty c.summary then r else record r {
  article_summary = c.summary;
  article_summary_meta = summary_meta host (codes "缓存命中") c;
  article_summary_error = none;
}

-- The answer to `loadCachedSummary`.
unfoldable pub on_cached_summary :
    Host → SummaryCall → Reply (Option CachedSummary) → Reader → Reader
on_cached_summary host c (answered cached) r =
    if nat_beq c.request_id r.summary_request_seq then show_cached host cached r else r
on_cached_summary host c (threw message) r =
    if nat_beq c.request_id r.summary_request_seq
    then record r { article_summary_error = some (codes "读取缓存摘要失败: " ++ message) }
    else r

unfoldable pub close_floating_reader : ℤ → Reader → Reader
close_floating_reader now r = record r {
  reading = finalize_reader_session now close r.reading;
  shows_floating_reader = false;
  shows_detail_menu = false;
}

unfoldable pub open_feed_briefing : ℤ → Reader → Reader
open_feed_briefing now r = record {
  reading = finalize_reader_session now close r.reading;
  article_request_seq = suc r.article_request_seq;
  summary_request_seq = suc r.summary_request_seq;
  selected_article_id = none;
  selected_article = none;
  selected_feed_briefing = true;
  loading_article = false;
  article_error = none;
  article_summary = [];
  article_summary_meta = [];
  article_summary_error = none;
  loading_article_summary = false;
  expanded_thread_comments = false;
  thread_comments_newest_first = false;
  shows_floating_reader = true;
  shows_detail_view = false;
  shows_detail_menu = false;
  notice = r.notice;
}
