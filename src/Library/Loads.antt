-- ===== src/Library/Loads.antt =====
-- The loads of the lists do not touch the article that is read beside them.
use urwhaturead.Prelude.{◌≡◌, refl, Option, List, Text, arith}
use urwhaturead.Task.Summary.{Reply, threw, answered}
use urwhaturead.Access.{AppTab}
use urwhaturead.Library.{
  LibraryState, ArticleSummaryLibraryItem, FeedBriefingLibraryItem, begin_library_load,
  on_load_replies, on_tab, errors_of,
}

-- What the loads of the lists leave alone.
pub record SameReader (s t : LibraryState) : Type 0 where
  pub number : t.article_request_seq ≡ s.article_request_seq
  pub article : t.reader_article ≡ s.reader_article
  pub loading : t.reader_article_loading ≡ s.reader_article_loading

pub begin_library_load-SameReader :
    (keyword : Option Text) (s : LibraryState) → SameReader s (begin_library_load keyword s).0
unfolding begin_library_load
begin_library_load-SameReader keyword s = record { number = refl; article = refl; loading = refl }

pub on_load_replies-SameReader :
    (summaries : Reply (List ArticleSummaryLibraryItem))
    (briefings : Reply (List FeedBriefingLibraryItem)) (s : LibraryState)
    → SameReader s (on_load_replies summaries briefings s)
unfolding on_load_replies errors_of
on_load_replies-SameReader (answered a) (answered b) s = record {
  number = refl;
  article = refl;
  loading = refl;
}
on_load_replies-SameReader (answered a) (threw n) s = record {
  number = refl;
  article = refl;
  loading = refl;
}
on_load_replies-SameReader (threw m) (answered b) s = record {
  number = refl;
  article = refl;
  loading = refl;
}
on_load_replies-SameReader (threw m) (threw n) s = record {
  number = refl;
  article = refl;
  loading = refl;
}

pub on_tab-SameReader : (tab : AppTab) (s : LibraryState) → SameReader s (on_tab tab s).0
unfolding on_tab begin_library_load
on_tab-SameReader tab s = record {
  number = ground arith;
  article = ground arith;
  loading = ground arith;
}
