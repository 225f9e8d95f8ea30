-- ===== src/Article/Stored.antt =====
-- What a list of articles becomes when it is written to the storage and read again.
use urwhaturead.Prelude.{
  append-IsDistinct, ℕ, zero, suc, ◌+◌, ◌≤◌, ◌<◌, ◌≡◌, refl, sym, ap, ◌∙◌, true, false, some, List,
  [], ◌∷◌, ◌++◌, map, length, take_all, length-append, leb, leb→le, Option-cases, nat_eq, includes,
  includes-append, IsDistinct, All, arith, inl, inr, Bool-cases, pos,
}
use mathlib.Core.List.{append-nil, append_assoc}
use urwhaturead.Article.{
  JsonValue, integer, normalize_article_id, normalize_from, normalize_read_article_ids,
  parse_stored, stored_item, reparsed, max_stored_read_articles,
}

abbrev pub IsPositive : ℕ → Type 0
IsPositive id = 0 < id

-- None of the ids is in the set.
abbrev AreFresh : List ℕ → List ℕ → Type 0
AreFresh seen ids = All (λ id. includes seen id ≡ false) ids

AreFresh-cons :
    (seen ids : List ℕ) (id : ℕ)
    → AreFresh seen ids
    → includes ids id ≡ false
    → AreFresh (id ∷ seen) ids
unfolding includes
AreFresh-cons seen [] id h absent = tt
AreFresh-cons seen (x ∷ xs) id h absent =
    (ground arith, AreFresh-cons seen xs id h.1 (ground arith))

abbrev values_of : List ℕ → List JsonValue
values_of ids = map (λ id. integer (pos id)) ids

empty-at-limit :
    (limit : ℕ) (output : List ℕ) (id : ℕ) (ids : List ℕ)
    → leb limit (length (output ++ id ∷ [])) ≡ true
    → length output + length (id ∷ ids) ≤ limit
    → [] ≡ ids
empty-at-limit limit output id [] full room = refl
empty-at-limit limit output id (x ∷ xs) full room =
    absurd (
      omega (arith, leb→le limit (length (output ++ id ∷ [])) full, length-append output (id ∷ [])))

normalize_from-ids :
    (limit : ℕ) (seen output ids : List ℕ)
    → IsDistinct ids
    → All IsPositive ids
    → AreFresh seen ids
    → length output + length ids ≤ limit
    → normalize_from limit seen output (values_of ids) ≡ output ++ ids
unfolding normalize_from normalize_article_id
normalize_from-ids limit seen output [] d p f room = sym (append-nil output)
normalize_from-ids limit seen output (zero ∷ ids) d p f room = absurd (omega (arith, p.0))
normalize_from-ids limit seen output (suc n ∷ ids) d p f room =
    rw (f.0) (elim (Bool-cases (leb limit (length (output ++ suc n ∷ [])))) [
      | inl full ↦
          rw full
            (ap (λ l. output ++ suc n ∷ l) (empty-at-limit limit output (suc n) ids full room))
      | inr free ↦ rw free (
          normalize_from-ids limit (suc n ∷ seen) (output ++ suc n ∷ []) ids d.1 p.1
            (AreFresh-cons seen ids (suc n) f.1 d.0)
            (omega (arith, length-append output (suc n ∷ [])))
          ∙ append_assoc output (suc n ∷ []) ids)
    ])

fresh_start : (ids : List ℕ) → AreFresh [] ids
unfolding includes
fresh_start [] = tt
fresh_start (id ∷ ids) = (refl, fresh_start ids)

-- A list of at most 3000 positive ids without duplicates is read back as it was written.
pub parse_stored-stored_item :
    (ids : List ℕ)
    → IsDistinct ids
    → All IsPositive ids
    → length ids ≤ max_stored_read_articles
    → parse_stored normalize_read_article_ids (reparsed (stored_item max_stored_read_articles ids))
      ≡ ids
unfolding parse_stored stored_item normalize_read_article_ids
parse_stored-stored_item [] d p b = refl
parse_stored-stored_item (id ∷ ids) d p b =
    ap (λ l. normalize_from max_stored_read_articles [] [] (values_of l))
      (take_all max_stored_read_articles (id ∷ ids) b)
    ∙ normalize_from-ids max_stored_read_articles [] [] (id ∷ ids) d p (fresh_start (id ∷ ids))
        (omega arith)

-- What the loop has to keep: the set holds the array, which has distinct positive ids.
record IsRound (limit : ℕ) (seen output : List ℕ) : Type 0 where
  same : (id : ℕ) → includes seen id ≡ includes output id
  distinct : IsDistinct output
  positive : All IsPositive output
  room : length output < limit

pub append-IsPositive :
    (output : List ℕ) (id : ℕ) → All IsPositive output → 0 < id → All IsPositive (output ++ id ∷ [])
append-IsPositive [] id h p = (p, tt)
append-IsPositive (x ∷ xs) id h p = (h.0, append-IsPositive xs id h.1 p)

normalize_article_id-positive :
    (value : JsonValue) (id : ℕ) → normalize_article_id value ≡ some id → 0 < id
unfolding normalize_article_id
normalize_article_id-positive (integer (pos zero)) id h = ground arith
normalize_article_id-positive _ id h = ground arith

abbrev pub IsNormalized : ℕ → List ℕ → Type 0
IsNormalized limit ids = IsDistinct ids × All IsPositive ids × (length ids ≤ limit)

IsRound-next :
    (limit : ℕ) (seen output : List ℕ) (id : ℕ)
    → IsRound limit seen output
    → includes seen id ≡ false
    → 0 < id
    → leb limit (length (output ++ id ∷ [])) ≡ false
    → IsRound limit (id ∷ seen) (output ++ id ∷ [])
unfolding includes
IsRound-next limit seen output id r absent p free = record {
  same = λ k. ground (arith, includes-append output (id ∷ []) k, r.same k);
  distinct = append-IsDistinct output id r.distinct (sym (r.same id) ∙ absent);
  positive = append-IsPositive output id r.positive p;
  room = ground arith;
}

normalize_from-IsNormalized :
    (limit : ℕ) (seen output : List ℕ) (values : List JsonValue)
    → IsRound limit seen output
    → IsNormalized limit (normalize_from limit seen output values)
unfolding normalize_from
normalize_from-IsNormalized limit seen output [] r = (r.distinct, r.positive, omega arith)
normalize_from-IsNormalized limit seen output (value ∷ values) r =
    elim (Option-cases (normalize_article_id value)) [
      | inl e ↦ rw (e, normalize_from) (normalize_from-IsNormalized limit seen output values r)
      | inr (id, e) ↦ elim (Bool-cases (includes seen id)) [
        | inl old ↦
            rw (e, normalize_from, old) (normalize_from-IsNormalized limit seen output values r)
        | inr new ↦
            let p = normalize_article_id-positive value id e in
            elim (Bool-cases (leb limit (length (output ++ id ∷ [])))) [
              | inl full ↦
                  rw (e, normalize_from, new, full)
                    (
                      append-IsDistinct output id r.distinct (sym (r.same id) ∙ new),
                      append-IsPositive output id r.positive p,
                      omega (arith, length-append output (id ∷ []), r.room),
                    )
              | inr free ↦
                  rw (e, normalize_from, new, free)
                    (normalize_from-IsNormalized limit (id ∷ seen) (output ++ id ∷ []) values
                      (IsRound-next limit seen output id r new p free))
            ]
      ]
    ]

-- Whatever array the storage held, the list read from it has distinct positive ids, at most 3000.
pub normalize_read_article_ids-IsNormalized :
    (values : List JsonValue)
    → IsNormalized max_stored_read_articles (normalize_read_article_ids values)
unfolding normalize_read_article_ids includes
normalize_read_article_ids-IsNormalized values =
    normalize_from-IsNormalized max_stored_read_articles [] [] values
      (record { same = λ id. refl; distinct = tt; positive = tt; room = omega arith })
