-- ===== src/Keyboard/Walk.antt =====
-- The keys together with the stream and the reader: what the presses of `j` open.
use urwhaturead.Prelude.{
  ℕ, zero, suc, ◌-◌, ◌<◌, ◌≡◌, refl, sym, ap, ◌∙◌, Bool, true, false, Option, none, some, List, [],
  ◌∷◌, length, get_elem?, find_index?, any, All, if◌then◌else◌, ltb, Text, codes, ℤ, arith,
}
use mathlib.Core.Path.{subst}
use urwhaturead.Stream.{
  ReaderStreamItem, article, briefing, StreamParams, is_briefing, is_article, reader_stream_items,
  selected_feed_index, visible_feed, visible_feed_base, passes_filters, feed_briefing_insert_index,
  is_anchor,
}
use urwhaturead.Session.Open.{
  Article, Reader, OpenCall, begin_open, apply_preview, apply_initial, clear_for, preview_of,
  call_of, open_feed_briefing,
}
use urwhaturead.Keyboard.{KeyParams, Action, handle_key_down, open_item}
use urwhaturead.Keyboard.Moves.{press, behind, handle_key_down_lem, walk_lem}

abbrev pub is_item : ReaderStreamItem → ReaderStreamItem → Bool
is_item briefing = is_briefing
is_item (article id) = is_article id

-- No item stands twice in the list.
abbrev pub IsOnce : List ReaderStreamItem → Type 0
IsOnce [] = Unit {0}
IsOnce (x ∷ xs) = (any (is_item x) xs ≡ false) × IsOnce xs

abbrev pub HasPositive : ReaderStreamItem → Type 0
HasPositive briefing = Unit {0}
HasPositive (article id) = 0 < id

is_item_self : (x : ReaderStreamItem) → is_item x x ≡ true
is_item_self briefing = refl
is_item_self (article id) = ground arith

is_item_sym : (x y : ReaderStreamItem) → is_item x y ≡ is_item y x
is_item_sym briefing briefing = refl
is_item_sym briefing (article id) = refl
is_item_sym (article id) briefing = refl
is_item_sym (article a) (article b) = ground arith

any-get_elem? :
    (p : ReaderStreamItem → Bool) (items : List ReaderStreamItem) (i : ℕ) (item : ReaderStreamItem)
    → get_elem? items i ≡ some item
    → any p items ≡ false
    → p item ≡ false
any-get_elem? p [] i item e h = ground arith
any-get_elem? p (x ∷ xs) zero item e h = ground arith
any-get_elem? p (x ∷ xs) (suc i) item e h = any-get_elem? p xs i item e (ground arith)

-- In a list without repetitions an item is found at its own place.
find_index?-get_elem? :
    (items : List ReaderStreamItem) (i : ℕ) (item : ReaderStreamItem)
    → IsOnce items
    → get_elem? items i ≡ some item
    → find_index? (is_item item) items ≡ some i
find_index?-get_elem? [] i item d e = ground arith
find_index?-get_elem? (x ∷ xs) zero item d e =
    let same : x ≡ item = cc in
    subst (λ (y : ReaderStreamItem). find_index? (is_item y) (x ∷ xs) ≡ some 0) same
      (rw (is_item_self x) refl)
find_index?-get_elem? (x ∷ xs) (suc i) item d e =
    rw
      (
        is_item_sym item x ∙ any-get_elem? (is_item x) xs i item e d.0,
        find_index?-get_elem? xs i item d.1 e,
      )
      refl

abbrev pub opened : ℤ → List Article → Option Action → Reader → Reader
opened now articles (some (Action.open_article id)) r = (begin_open now articles id r).0
opened now articles (some Action.open_feed_briefing) r = open_feed_briefing now r
opened now articles _ r = r

-- The stream behind the reader, with the filter for unread articles off.
abbrev pub stream_of : StreamParams → Reader → StreamParams
stream_of p r = record p {
  unread_only = false;
  read_article_ids = r.reading.read_article_ids;
  selected_feed_briefing = r.selected_feed_briefing;
  selected_article_id = r.selected_article_id;
}

-- What the keys are given, with no menu or dialog open.
abbrev pub keys_of : StreamParams → Option Text → Reader → KeyParams
keys_of p link r = record {
  reader_stream_items = reader_stream_items (stream_of p r);
  selected_feed_index = selected_feed_index (stream_of p r);
  selected_article_link = link;
  is_blocking_overlay_open = false;
}

apply_preview_lem :
    (now : ℤ) (c : OpenCall) (preview : Option Article) (r : Reader)
    → ((apply_preview now c preview r).0.selected_feed_briefing ≡ r.selected_feed_briefing)
      × ((apply_preview now c preview r).0.selected_article_id ≡ r.selected_article_id)
unfolding apply_initial
apply_preview_lem now c none r = (refl, refl)
apply_preview_lem now c (some a) r = ground arith

begin_open_lem :
    (now : ℤ) (articles : List Article) (id : ℕ) (r : Reader)
    → ((begin_open now articles id r).0.selected_feed_briefing ≡ false)
      × ((begin_open now articles id r).0.selected_article_id ≡ some id)
unfolding begin_open clear_for
begin_open_lem now articles id r =
    apply_preview_lem now (call_of id r) (preview_of id articles) (clear_for now id r)

positive_at :
    (items : List ReaderStreamItem) (i : ℕ) (item : ReaderStreamItem)
    → All HasPositive items
    → get_elem? items i ≡ some item
    → HasPositive item
positive_at [] i item h e = ground arith
positive_at (x ∷ xs) zero item h e = subst HasPositive (cc) h.0
positive_at (x ∷ xs) (suc i) item h e = positive_at xs i item h.1 e

-- The item is the one that the reader shows.
abbrev IsSelected : Reader → ReaderStreamItem → Type 0
IsSelected r briefing = r.selected_feed_briefing ≡ true
IsSelected r (article id) =
    (r.selected_feed_briefing ≡ false) × (r.selected_article_id ≡ some id) × (0 < id)

selects-opened :
    (time : ℤ) (articles : List Article) (r : Reader) (item : ReaderStreamItem)
    → HasPositive item
    → IsSelected (opened time articles (open_item (some item)) r) item
unfolding open_feed_briefing
selects-opened time articles r briefing h = refl
selects-opened time articles r (article id) h =
    let shown = begin_open_lem time articles id r in (shown.0, shown.1, h)

get_elem?-some :
    (items : List ReaderStreamItem) (i : ℕ)
    → i < length items
    → (item : ReaderStreamItem) × (get_elem? items i ≡ some item)
get_elem?-some [] i h = absurd (omega arith)
get_elem?-some (x ∷ xs) zero h = (x, refl)
get_elem?-some (x ∷ xs) (suc i) h = get_elem?-some xs i (omega arith)

module _ (p : StreamParams) where
  -- The list does not depend on what is selected.
  items-eq :
      (r t : Reader) → reader_stream_items (stream_of p r) ≡ reader_stream_items (stream_of p t)
  unfolding reader_stream_items visible_feed visible_feed_base passes_filters
      feed_briefing_insert_index is_anchor
  items-eq r t = refl

  -- An item that is selected is found in the list.
  selected-eq :
      (r : Reader) (item : ReaderStreamItem)
      → IsSelected r item
      → selected_feed_index (stream_of p r)
        ≡ find_index? (is_item item) (reader_stream_items (stream_of p r))
  unfolding selected_feed_index
  selected-eq r briefing h = rw h refl
  selected-eq r (article id) h = rw (h.0, h.1) (ground (arith, h.2))

  module _ (link : Option Text) (articles : List Article) (now : ℕ → ℤ) (start : Reader) where
    -- The reader behind some presses of `j`.
    pub walked : ℕ → Reader
    walked zero = start
    walked (suc n) =
        opened (now n) articles (handle_key_down (keys_of p link (walked n)) (press (codes "j")))
          (walked n)

    abbrev items : List ReaderStreamItem
    items = reader_stream_items (stream_of p start)

    abbrev last_or : ℕ → ℕ
    last_or n = if ltb n (length items) then n else length items - 1

    opens-eq :
        (n : ℕ) (r : Reader) (item : ReaderStreamItem)
        → selected_feed_index (stream_of p r) ≡ behind n (length items)
        → get_elem? items (last_or n) ≡ some item
        → handle_key_down (keys_of p link r) (press (codes "j")) ≡ open_item (some item)
    opens-eq n r item e g =
        ap
          (λ (i : Option ℕ).
            handle_key_down (record (keys_of p link r) { selected_feed_index = i })
              (press (codes "j")))
          (e ∙ ap (λ (xs : List ReaderStreamItem). behind n (length xs)) (items-eq start r))
        ∙ handle_key_down_lem n (keys_of p link r) item refl (
            subst
              (λ (xs : List ReaderStreamItem).
                get_elem? xs (if ltb n (length xs) then n else length xs - 1) ≡ some item)
              (items-eq start r) g)

    module _ (once : IsOnce items) (positive : All HasPositive items) (filled : 0 < length items)
        (no_briefing : start.selected_feed_briefing ≡ false)
        (no_article : start.selected_article_id ≡ none) where
      selected-opened :
          (time : ℤ) (r : Reader) (i : ℕ) (item : ReaderStreamItem)
          → get_elem? items i ≡ some item
          → selected_feed_index (stream_of p (opened time articles (open_item (some item)) r))
            ≡ some i
      selected-opened time r i item e =
          let s : Reader = opened time articles (open_item (some item)) r in
          selected-eq s item
            (selects-opened time articles r item (positive_at items i item positive e))
          ∙ ap (find_index? (is_item item)) (items-eq s start)
          ∙ find_index?-get_elem? items i item once e

      item_at : (n : ℕ) → (item : ReaderStreamItem) × (get_elem? items (last_or n) ≡ some item)
      item_at n = get_elem?-some items (last_or n) (ground (arith, filled))

      walked-index :
          (n : ℕ) → selected_feed_index (stream_of p (walked n)) ≡ behind n (length items)
      unfolding selected_feed_index walked behind
      walked-index zero = rw (no_briefing, no_article) refl
      walked-index (suc n) =
          let found = item_at n in
          ap
            (λ (a : Option Action).
              selected_feed_index (stream_of p (opened (now n) articles a (walked n))))
            (opens-eq n (walked n) found.0 (walked-index n) found.1)
          ∙ selected-opened (now n) (walked n) (last_or n) found.0 found.1
          ∙ ap some (sym (walk_lem n (length items) filled))

      -- From no selection, with no menu or dialog open and the filter for unread articles off: the presses
      -- of `j`, each on the reader as the press before it has left it, open the items of a list that is
      -- not empty, has positive article ids and in which no item stands twice, one after the other,
      -- from the first, whichever kinds they have, and then the last one again and again.
      pub walked_lem :
          (n : ℕ)
          → handle_key_down (keys_of p link (walked n)) (press (codes "j"))
            ≡ open_item (get_elem? items (last_or n))
      walked_lem n =
          let found = item_at n in
          opens-eq n (walked n) found.0 (walked-index n) found.1 ∙ ap open_item (sym found.1)
