-- ===== src/Library.antt =====
-- hooks/use-ai-library-section.ts: the lists of stored summaries and briefings, and the article that
-- is read beside them. The calls are cut at their awaits.
mod Loads
pub mod Races
mod Tests
use urwhaturead.Prelude.{
  ℕ, suc, Bool, true, false, ◌&&◌, ◌||◌, Option, none, some, List, [], ◌∷◌, ◌++◌, if◌then◌else◌,
  nat_beq, Text, codes, trim, join, starts_with,
}
use urwhaturead.Task.Poller.{Notice, NoticeKind}
use urwhaturead.Task.Summary.{Reply, threw, answered}
use urwhaturead.Session.Open.{Article}
use urwhaturead.Access.{AppTab, ai, reader}

pub record ArticleSummaryLibraryItem : Type 0 where
  pub article_id : ℕ
  pub title : Text
  pub summary : Text

pub record FeedBriefingLibraryItem : Type 0 where
  pub digest_key : Text
  pub scope_label : Text

pub record LibraryState : Type 0 where
  pub search : Text
  pub article_summaries : List ArticleSummaryLibraryItem
  pub feed_briefings : List FeedBriefingLibraryItem
  pub loading : Bool
  pub error : Option Text
  pub loaded_once : Bool
  pub reader_article : Option Article
  pub reader_article_loading : Bool
  pub reader_article_error : Option Text
  pub ai_tab_active : Bool
  pub article_request_seq : ℕ
  pub notice : Option Notice

pub data Scope : Type 0 where
  of_article of_briefing : Scope

abbrev contains : Text → Text → Bool
contains part [] = starts_with [] part
contains part (c ∷ text) = starts_with (c ∷ text) part || contains part text

unfoldable pub describe_ai_library_load_error : Scope → Text → Text
describe_ai_library_load_error of_article message =
    if contains (codes "id must be an unsigned integer") message
    then codes "文章摘要列表接口还没有在后端生效，请重启或重新部署 API。"
    else codes "文章摘要加载失败: " ++ message
describe_ai_library_load_error of_briefing message =
    if contains (codes "404") message
    then codes "AI 速览列表接口还没有在后端生效，请重启或重新部署 API。"
    else codes "AI 速览加载失败: " ++ message

-- With the keyword of both requests.
unfoldable pub begin_library_load : Option Text → LibraryState → LibraryState × Text
begin_library_load keyword_override s = (
  record s { loading = true; error = none },
  trim (elim keyword_override [ none ↦ s.search | some keyword ↦ keyword ]),
)

abbrev pub list_of : {A : Type 0} → Reply (List A) → List A
list_of (answered items) = items
list_of (threw message) = []

abbrev pub errors_of : {A : Type 0} → Scope → Reply A → List Text
unfolding describe_ai_library_load_error
errors_of scope (answered a) = []
errors_of scope (threw message) = describe_ai_library_load_error scope message ∷ []

abbrev report : List Text → LibraryState → LibraryState
report [] s = s
report (e ∷ errors) s = record s {
  error = some (join (codes " ") (e ∷ errors));
  notice = some (record { kind = NoticeKind.error; text = join (codes " ") (e ∷ errors) });
}

-- Of the two answers, which are both awaited: neither failure keeps the other list from being shown.
unfoldable pub on_load_replies :
    Reply (List ArticleSummaryLibraryItem)
    → Reply (List FeedBriefingLibraryItem)
    → LibraryState
    → LibraryState
on_load_replies summaries briefings s =
    record (report (errors_of of_article summaries ++ errors_of of_briefing briefings) (record s {
      article_summaries = list_of summaries;
      feed_briefings = list_of briefings;
      loaded_once = true;
    })) { loading = false }

abbrev is_ai : AppTab → Bool
is_ai ai = true
is_ai _ = false

-- The effect of the tab, with the keyword of the load that it starts when the tab has been entered.
unfoldable pub on_tab : AppTab → LibraryState → LibraryState × Option Text
unfolding begin_library_load
on_tab tab s =
    if is_ai tab
    then (if s.ai_tab_active then (s, none) else (
      record (begin_library_load (some s.search) s).0 { ai_tab_active = true },
      some (trim s.search),
    ))
    else (record s { ai_tab_active = false }, none)

-- What a call of `openArticleSummary` holds across its await.
pub record ReadCall : Type 0 where
  pub request_id : ℕ
  pub article_id : ℕ

unfoldable pub begin_read : ℕ → LibraryState → LibraryState × ReadCall
begin_read id s = (
  record s {
    article_request_seq = suc s.article_request_seq;
    reader_article_loading = true;
    reader_article_error = none;
    reader_article = none;
  },
  record { request_id = suc s.article_request_seq; article_id = id },
)

abbrev pub is_newest : ReadCall → LibraryState → Bool
is_newest c s = nat_beq c.request_id s.article_request_seq

-- The article as `getArticle` first passes it on, and then the answer with the `finally` behind it.
unfoldable pub on_initial_article : ReadCall → Article → LibraryState → LibraryState
on_initial_article c a s =
    if is_newest c s
    then record s { reader_article = some a; reader_article_loading = false }
    else s

abbrev failed_to_read : Text → LibraryState → LibraryState
failed_to_read message s = record s {
  reader_article_error = some (codes "文章加载失败: " ++ message);
  notice = some (record { kind = NoticeKind.error; text = codes "文章加载失败: " ++ message });
  reader_article_loading = false;
}

unfoldable pub on_read_reply : ReadCall → Reply Article → LibraryState → LibraryState
on_read_reply c (answered a) s =
    if is_newest c s
    then record s { reader_article = some a; reader_article_loading = false }
    else s
on_read_reply c (threw message) s = if is_newest c s then failed_to_read message s else s

unfoldable pub close_article_reader : LibraryState → LibraryState
close_article_reader s = record s {
  article_request_seq = suc s.article_request_seq;
  reader_article = none;
  reader_article_error = none;
  reader_article_loading = false;
}
