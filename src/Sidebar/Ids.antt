-- ===== src/Sidebar/Ids.antt =====
-- The text of a filter by source ids, written and read back.
use urwhaturead.Prelude.{
  ℕ, ◌≡◌, ◌≢◌, refl, ap, ◌∙◌, false, List, [], ◌∷◌, ◌++◌, map, All, Text, codes, trim, trim_start,
  is_white_space, is_empty, join, sort, sort_insert, sort-All, ℤ, by_asc, distinct_from, nat_eq,
  pos, arith,
}
use mathlib.Core.List.{reverse, reverse_aux, reverse-reverse, append_assoc, append-nil}
use urwhaturead.Prelude.Decimal.{decimal, read-decimal, IsDigit, decimal-digits}
use urwhaturead.Stream.{is_nil}
use urwhaturead.Article.Stored.{IsPositive}
use urwhaturead.Sanitize.{parse_int, read_digits}
use urwhaturead.Sanitize.Numbers.{decimal-ne-nil, decimal-parse_int, digit-not_white_space}
use urwhaturead.Feed.{split_from, positive_ids, parse_source_id_filter}
use urwhaturead.Sidebar.Controls.{source_id_value}

abbrev IsVisible : ℕ → Type 0
IsVisible c = is_white_space c ≡ false

All-reverse_aux :
    (P : ℕ → Type 0) (xs acc : Text) → All P xs → All P acc → All P (reverse_aux xs acc)
All-reverse_aux P [] acc h k = k
All-reverse_aux P (x ∷ xs) acc h k = All-reverse_aux P xs (x ∷ acc) h.1 (h.0, k)

trim_start-visible : (s : Text) → All IsVisible s → trim_start s ≡ s
unfolding trim_start
trim_start-visible [] h = refl
trim_start-visible (c ∷ s) h = rw (h.0) refl

-- A text without white space is not trimmed.
trim-IsVisible : (s : Text) → All IsVisible s → trim s ≡ s
unfolding trim
trim-IsVisible s h =
    rw
      (trim_start-visible s h, trim_start-visible (reverse s) (All-reverse_aux IsVisible s [] h tt))
      (reverse-reverse s)

All-append : (P : ℕ → Type 0) (xs ys : Text) → All P xs → All P ys → All P (xs ++ ys)
All-append P [] ys h k = k
All-append P (x ∷ xs) ys h k = (h.0, All-append P xs ys h.1 k)

digits-IsVisible : (s : Text) → All IsDigit s → All IsVisible s
digits-IsVisible [] h = tt
digits-IsVisible (c ∷ s) h = (digit-not_white_space c h.0, digits-IsVisible s h.1)

split_from-run :
    (front s rest : Text)
    → All IsDigit s
    → split_from b',' front (s ++ b',' ∷ rest) ≡ (front ++ s) ∷ split_from b',' [] rest
unfolding split_from
split_from-run front [] rest h = rw (append-nil front) refl
split_from-run front (c ∷ s) rest h =
    ground (arith, split_from-run (front ++ c ∷ []) s rest h.1, append_assoc front (c ∷ []) s)

split_from-end : (front s : Text) → All IsDigit s → split_from b',' front s ≡ (front ++ s) ∷ []
unfolding split_from
split_from-end front [] h = rw (append-nil front) refl
split_from-end front (c ∷ s) h =
    ground (arith, split_from-end (front ++ c ∷ []) s h.1, append_assoc front (c ∷ []) s)

-- The parts of printed ids that are joined by commas are found again.
split_from-join :
    (id : ℕ) (ids : List ℕ)
    → split_from b',' [] (join (codes ",") (map decimal (id ∷ ids))) ≡ map decimal (id ∷ ids)
unfolding join
split_from-join id [] = split_from-end [] (decimal id) (decimal-digits id)
split_from-join id (next ∷ ids) =
    split_from-run [] (decimal id) (join (codes ",") (map decimal (next ∷ ids))) (decimal-digits id)
    ∙ ap (λ (parts : List Text). decimal id ∷ parts) (split_from-join next ids)

positive_ids-decimal : (ids : List ℕ) → All IsPositive ids → positive_ids (map decimal ids) ≡ ids
unfolding positive_ids
positive_ids-decimal [] h = refl
positive_ids-decimal (id ∷ ids) h =
    rw
      (
        trim-IsVisible (decimal id) (digits-IsVisible (decimal id) (decimal-digits id)),
        decimal-parse_int (decimal id) (decimal-digits id) (decimal-ne-nil id h.0),
        read-decimal id,
        positive_ids-decimal ids h.1,
      )
      (ground (arith, h.0))

comma-IsVisible : IsVisible b','
unfolding is_white_space
comma-IsVisible = refl

join-IsVisible : (ids : List ℕ) → All IsVisible (join (codes ",") (map decimal ids))
unfolding join
join-IsVisible [] = tt
join-IsVisible (id ∷ []) = digits-IsVisible (decimal id) (decimal-digits id)
join-IsVisible (id ∷ next ∷ ids) =
    All-append IsVisible (decimal id) _ (digits-IsVisible (decimal id) (decimal-digits id))
      (comma-IsVisible, join-IsVisible (next ∷ ids))

filled : (s rest : Text) → s ≢ [] → is_empty (s ++ rest) ≡ false
filled [] rest h = absurd (h refl)
filled (c ∷ s) rest h = refl

join-filled :
    (id : ℕ) (ids : List ℕ)
    → IsPositive id
    → is_empty (join (codes ",") (map decimal (id ∷ ids))) ≡ false
unfolding join
join-filled id [] p =
    rw (← append-nil (decimal id)) (filled (decimal id) [] (decimal-ne-nil id (omega arith)))
join-filled id (next ∷ ids) p = filled (decimal id) _ (decimal-ne-nil id (omega arith))

parse_source_id_filter-join :
    (ids : List ℕ)
    → All IsPositive ids
    → parse_source_id_filter (join (codes ",") (map decimal ids)) ≡ distinct_from [] ids
unfolding parse_source_id_filter
parse_source_id_filter-join [] h = unfold join trim trim_start distinct_from in refl
parse_source_id_filter-join (id ∷ ids) h =
    rw
      (
        trim-IsVisible _ (join-IsVisible (id ∷ ids)),
        join-filled id ids h.0,
        split_from-join id ids,
        positive_ids-decimal (id ∷ ids) h,
      )
      refl

-- The filter that selects no source.
parse_source_id_filter-zero : parse_source_id_filter (codes "0") ≡ []
unfolding parse_source_id_filter trim trim_start is_white_space distinct_from positive_ids
    split_from parse_int read_digits
parse_source_id_filter-zero = refl

-- Writing positive ids as a filter and reading it gives the ids in rising order, each once; of no id
-- it gives none.
pub parse_source_id_filter-value :
    (ids : List ℕ)
    → All IsPositive ids
    → parse_source_id_filter (source_id_value ids)
      ≡ distinct_from [] (sort (by_asc (λ id. pos id)) ids)
unfolding source_id_value
parse_source_id_filter-value [] h =
    parse_source_id_filter-zero ∙ (unfold sort distinct_from in refl)
parse_source_id_filter-value (id ∷ ids) h =
    parse_source_id_filter-join (sort (by_asc (λ n. pos n)) (id ∷ ids))
      (sort-All (by_asc (λ n. pos n)) IsPositive (id ∷ ids) h)

is_nil-sort_insert :
    (compare : ℕ → ℕ → ℤ) (x : ℕ) (xs : List ℕ) → is_nil (sort_insert compare x xs) ≡ false
unfolding sort_insert
is_nil-sort_insert compare x [] = refl
is_nil-sort_insert compare x (y ∷ ys) = ground arith

ids-filled :
    (ids : List ℕ)
    → is_nil ids ≡ false
    → All IsPositive ids
    → is_empty (join (codes ",") (map decimal ids)) ≡ false
ids-filled [] h p = cc
ids-filled (id ∷ ids) h p = join-filled id ids p.0

-- A filter by source ids is never empty, also if there is no id.
pub source_id_value-filled :
    (ids : List ℕ) → All IsPositive ids → is_empty (source_id_value ids) ≡ false
unfolding source_id_value sort
source_id_value-filled [] h = refl
source_id_value-filled (id ∷ ids) h =
    ids-filled (sort (by_asc (λ n. pos n)) (id ∷ ids))
      (is_nil-sort_insert (by_asc (λ n. pos n)) id (sort (by_asc (λ n. pos n)) ids))
      (sort-All (by_asc (λ n. pos n)) IsPositive (id ∷ ids) h)
