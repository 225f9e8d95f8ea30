-- ===== src/Feed/Filter.antt =====
-- The source ids that the text of the filter stands for.
use urwhaturead.Prelude.{
  distinct_from, append-IsDistinct, ℕ, Bool, true, false, Option, none, some, List, [], ◌∷◌, ◌++◌,
  All, ltb, Text, trim, is_empty, includes, IsDistinct, nat_eq, Bool-cases, inl, inr, ltb→lt,
}
use urwhaturead.Sanitize.{parse_int}
use urwhaturead.Article.Stored.{IsPositive, append-IsPositive}
use urwhaturead.Feed.{split_from, positive_of, positive_ids, parse_source_id_filter}

positive_of-IsPositive :
    (r : Bool × Option ℕ) (ids : List ℕ)
    → All IsPositive ids
    → All IsPositive (positive_of r ++ ids)
positive_of-IsPositive (negative, none) ids h = h
positive_of-IsPositive (true, some n) ids h = h
positive_of-IsPositive (false, some n) ids h = elim (Bool-cases (ltb 0 n)) [
  | inl e ↦ rw e (ltb→lt 0 n e, h)
  | inr e ↦ rw e h
]

positive_ids-IsPositive : (parts : List Text) → All IsPositive (positive_ids parts)
unfolding positive_ids
positive_ids-IsPositive [] = tt
positive_ids-IsPositive (part ∷ parts) =
    positive_of-IsPositive (parse_int (trim part)) (positive_ids parts)
      (positive_ids-IsPositive parts)

distinct_from_lem :
    (seen ids : List ℕ)
    → IsDistinct seen
    → All IsPositive seen
    → All IsPositive ids
    → IsDistinct (distinct_from seen ids) × All IsPositive (distinct_from seen ids)
unfolding distinct_from
distinct_from_lem seen [] d p q = (d, p)
distinct_from_lem seen (id ∷ ids) d p q = elim (Bool-cases (includes seen id)) [
  | inl e ↦ rw e (distinct_from_lem seen ids d p q.1)
  | inr e ↦ rw e (
      distinct_from_lem (seen ++ id ∷ []) ids (append-IsDistinct seen id d e)
        (append-IsPositive seen id p q.0) q.1)
]

-- Whatever the text of the filter, its source ids are positive and none stands twice.
pub parse_source_id_filter_lem :
    (input : Text)
    → IsDistinct (parse_source_id_filter input) × All IsPositive (parse_source_id_filter input)
unfolding parse_source_id_filter
parse_source_id_filter_lem input = elim (Bool-cases (is_empty (trim input))) [
  | inl e ↦ rw e (tt, tt)
  | inr e ↦ rw e (
      distinct_from_lem [] (positive_ids (split_from b',' [] input)) tt tt
        (positive_ids-IsPositive (split_from b',' [] input)))
]
