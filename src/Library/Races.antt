-- ===== src/Library/Races.antt =====
-- Overlapping reads of articles beside the lists, with the loads of the lists.
use urwhaturead.Prelude.{
  ℕ, suc, zero, ◌≤◌, ◌≡◌, refl, sym, ◌∙◌, true, not, Option, none, some, List, [], ◌∷◌, filter,
  get_elem?, All, All-filter, nat_eq, nat_beq, ◌==◌, Text, has_key, has_key-drop_key, arith,
  Bool-cases, inl, inr,
}
use mathlib.Core.Path.{subst}
use urwhaturead.Task.Summary.{Reply, threw, answered}
use urwhaturead.Session.Open.{Article}
use urwhaturead.Access.{AppTab}
use urwhaturead.Library.{
  LibraryState, is_newest, ReadCall, ArticleSummaryLibraryItem, FeedBriefingLibraryItem,
  begin_library_load, on_load_replies, on_tab, begin_read, on_initial_article, on_read_reply,
  close_article_reader,
}
use urwhaturead.Library.Loads.{
  SameReader, begin_library_load-SameReader, on_load_replies-SameReader, on_tab-SameReader,
}

-- The state with the reads that have not ended, and the article that was opened last, if it has not
-- been closed.
pub record World : Type 0 where
  pub state : LibraryState
  pub reads : List ReadCall
  pub opened : Option ℕ

abbrev pub number_of : ReadCall → ℕ
number_of c = c.request_id

abbrev pub left : ReadCall → List ReadCall → List ReadCall
left c = filter (λ d. not (number_of d == number_of c))

abbrev pub with_read : ℕ → LibraryState × ReadCall → World → World
with_read id p w = record { state = p.0; reads = p.1 ∷ w.reads; opened = some id }

abbrev pub on_state : LibraryState → World → World
on_state s w = record w { state = s }

abbrev pub after_reply : ReadCall → Reply Article → World → World
after_reply c r w = record w { state = on_read_reply c r w.state; reads = left c w.reads }

abbrev pub after_close : World → World
after_close w = record w { state = close_article_reader w.state; opened = none }

-- Everything happens at any time, and answers come in any order. The service answers with the article
-- that was asked for.
pub data Step : World → World → Type 0 where
  read : {w : World} (id : ℕ) → Step w (with_read id (begin_read id w.state) w)
  initial :
      {w : World} (i : ℕ) (c : ReadCall) (a : Article)
      → get_elem? w.reads i ≡ some c
      → a.id ≡ c.article_id
      → Step w (on_state (on_initial_article c a w.state) w)
  read_answered :
      {w : World} (i : ℕ) (c : ReadCall) (a : Article)
      → get_elem? w.reads i ≡ some c
      → a.id ≡ c.article_id
      → Step w (after_reply c (answered a) w)
  read_threw :
      {w : World} (i : ℕ) (c : ReadCall) (message : Text)
      → get_elem? w.reads i ≡ some c
      → Step w (after_reply c (threw message) w)
  close : {w : World} → Step w (after_close w)
  load :
      {w : World} (keyword : Option Text)
      → Step w (on_state (begin_library_load keyword w.state).0 w)
  loaded :
      {w : World} (summaries : Reply (List ArticleSummaryLibraryItem))
      (briefings : Reply (List FeedBriefingLibraryItem))
      → Step w (on_state (on_load_replies summaries briefings w.state) w)
  change_tab : {w : World} (t : AppTab) → Step w (on_state (on_tab t w.state).0 w)

pub data Reach (v : World) : World → Type 0 where
  here : Reach v v
  next : {w u : World} → Reach v w → Step w u → Reach v u

abbrev pub IsTracked : ℕ → Option ℕ → ReadCall → Type 0
IsTracked n opened c = (c.request_id ≤ n) × (c.request_id ≡ n → opened ≡ some c.article_id)

-- The article of a state is the one that was opened.
abbrev pub IsOf : Option ℕ → Option Article → Type 0
IsOf opened none = Unit {0}
IsOf opened (some a) = opened ≡ some a.id

-- The article that is shown is the one that was opened last and not closed; it is shown to load only
-- while the read of it has not ended; and the read with the newest number is the read of it.
pub record IsShown (w : World) : Type 0 where
  pub shown : IsOf w.opened w.state.reader_article
  pub loads :
      w.state.reader_article_loading ≡ true
      → has_key number_of w.state.article_request_seq w.reads ≡ true
  pub tracked : All (IsTracked w.state.article_request_seq w.opened) w.reads

IsTracked-at :
    (n : ℕ) (opened : Option ℕ) (cs : List ReadCall) (i : ℕ) (c : ReadCall)
    → All (IsTracked n opened) cs
    → get_elem? cs i ≡ some c
    → IsTracked n opened c
IsTracked-at n opened [] i c h e = ground arith
IsTracked-at n opened (d ∷ cs) zero c h e = subst (IsTracked n opened) (cc) h.0
IsTracked-at n opened (d ∷ cs) (suc i) c h e = IsTracked-at n opened cs i c h.1 e

-- A newer number makes the reads that have not ended stale.
IsTracked-newer :
    (n : ℕ) (opened now_opened : Option ℕ) (cs : List ReadCall)
    → All (IsTracked n opened) cs
    → All (IsTracked (suc n) now_opened) cs
IsTracked-newer n opened now_opened [] h = tt
IsTracked-newer n opened now_opened (c ∷ cs) h = (
  (omega (arith, h.0.0), λ q. absurd (omega (arith, h.0.0))),
  IsTracked-newer n opened now_opened cs h.1,
)

same_number : (m n : ℕ) → nat_beq m n ≡ true → m ≡ n
same_number m n h = ground arith

module _ (w : World) (v : IsShown w) where
  read-IsShown : (id : ℕ) → IsShown (with_read id (begin_read id w.state) w)
  unfolding begin_read
  read-IsShown id = record {
    shown = tt;
    loads = λ l. ground arith;
    tracked = (
      (omega arith, λ q. refl),
      IsTracked-newer w.state.article_request_seq w.opened (some id) w.reads v.tracked,
    );
  }

  close-IsShown : IsShown (after_close w)
  unfolding close_article_reader
  close-IsShown = record {
    shown = tt;
    loads = λ l. ground arith;
    tracked = IsTracked-newer w.state.article_request_seq w.opened none w.reads v.tracked;
  }

  of_newest :
      (c : ReadCall) (a : Article)
      → IsTracked w.state.article_request_seq w.opened c
      → a.id ≡ c.article_id
      → IsOf w.opened (on_initial_article c a w.state).reader_article
  unfolding on_initial_article
  of_newest c a h e = elim (Bool-cases (is_newest c w.state)) [
    | inl p ↦ rw p (h.1 (same_number c.request_id w.state.article_request_seq p) ∙ rw e refl)
    | inr p ↦ rw p v.shown
  ]

  unchanged-IsShown :
      (s : LibraryState) (cs : List ReadCall)
      → s.article_request_seq ≡ w.state.article_request_seq
      → IsOf w.opened s.reader_article
      → (s.reader_article_loading ≡ true → has_key number_of w.state.article_request_seq cs ≡ true)
      → All (IsTracked w.state.article_request_seq w.opened) cs
      → IsShown (record w { state = s; reads = cs })
  unchanged-IsShown s cs e shown loads tracked = record {
    shown = shown;
    loads = λ l. rw e (loads l);
    tracked = rw e tracked;
  }

  same-IsShown : (s : LibraryState) → SameReader w.state s → IsShown (on_state s w)
  same-IsShown s k =
      unchanged-IsShown s w.reads k.number (rw k.article v.shown) (λ l. v.loads (sym k.loading ∙ l))
        v.tracked

  initial-IsShown :
      (c : ReadCall) (a : Article)
      → IsTracked w.state.article_request_seq w.opened c
      → a.id ≡ c.article_id
      → IsShown (on_state (on_initial_article c a w.state) w)
  unfolding on_initial_article
  initial-IsShown c a h e =
      unchanged-IsShown (on_initial_article c a w.state) w.reads (ground arith) (of_newest c a h e)
        (λ l. ground (arith, v.loads)) v.tracked

  reply-IsShown :
      (c : ReadCall) (r : Reply Article)
      → IsOf w.opened (on_read_reply c r w.state).reader_article
      → IsShown (after_reply c r w)
  unfolding on_read_reply
  reply-IsShown c r shown =
      let gone = has_key-drop_key number_of c.request_id w.state.article_request_seq w.reads in
      unchanged-IsShown (on_read_reply c r w.state) (left c w.reads) (ground arith) shown
        (λ l. ground (arith, gone, v.loads))
        (All-filter (IsTracked w.state.article_request_seq w.opened)
          (λ d. not (number_of d == number_of c)) w.reads v.tracked)

  answered-IsShown :
      (c : ReadCall) (a : Article)
      → IsTracked w.state.article_request_seq w.opened c
      → a.id ≡ c.article_id
      → IsShown (after_reply c (answered a) w)
  answered-IsShown c a h e =
      reply-IsShown c (answered a) (unfold on_read_reply on_initial_article in of_newest c a h e)

  threw-IsShown : (c : ReadCall) (message : Text) → IsShown (after_reply c (threw message) w)
  threw-IsShown c message = reply-IsShown c (threw message) (
      unfold on_read_reply in
      elim (Bool-cases (is_newest c w.state)) [ inl p ↦ rw p v.shown | inr p ↦ rw p v.shown ])

Step-IsShown : {w u : World} → Step w u → IsShown w → IsShown u
Step-IsShown (read {w} id) v = read-IsShown w v id
Step-IsShown (initial {w} i c a h e) v =
    initial-IsShown w v c a
      (IsTracked-at w.state.article_request_seq w.opened w.reads i c v.tracked h) e
Step-IsShown (read_answered {w} i c a h e) v =
    answered-IsShown w v c a
      (IsTracked-at w.state.article_request_seq w.opened w.reads i c v.tracked h) e
Step-IsShown (read_threw {w} i c message h) v = threw-IsShown w v c message
Step-IsShown (close {w}) v = close-IsShown w v
Step-IsShown (load {w} keyword) v =
    same-IsShown w v (begin_library_load keyword w.state).0
      (begin_library_load-SameReader keyword w.state)
Step-IsShown (loaded {w} a b) v =
    same-IsShown w v (on_load_replies a b w.state) (on_load_replies-SameReader a b w.state)
Step-IsShown (change_tab {w} t) v =
    same-IsShown w v (on_tab t w.state).0 (on_tab-SameReader t w.state)

-- However the reads of articles and the loads of the lists overlap and fail, where the service answers
-- with the article it was asked for: the article that is shown is the one that was opened last and
-- not closed since, and it is shown to load only while the read of it has not ended.
pub Reach-IsShown : {v w : World} → IsShown v → Reach v w → IsShown w
Reach-IsShown v here = v
Reach-IsShown v (next r s) = Step-IsShown s (Reach-IsShown v r)
