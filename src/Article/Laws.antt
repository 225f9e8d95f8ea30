-- ===== src/Article/Laws.antt =====
-- What marking an article as read, and toggling a favourite, do to the stored list.
use urwhaturead.Prelude.{
  ℕ, zero, suc, ◌≤◌, ◌<◌, ◌≡◌, refl, ap, ◌∙◌, true, false, not, ◌||◌, ◌&&◌, List, ◌∷◌,
  if◌then◌else◌, length, take, take_all, length-take, length-filter, nat_eq, nat_beq, includes,
  without, IsDistinct, take-IsDistinct, filter-IsDistinct, includes-without, includes-without_self,
  without-absent, arith, inl, inr, Bool-cases,
}
use urwhaturead.Article.{
  upsert_read_article_id, toggle_favorite_article_id, max_stored_read_articles,
  max_stored_favorite_articles,
}

-- A list that the storage may hold.
pub record IsStored (ids : List ℕ) : Type 0 where
  pub distinct : IsDistinct ids
  pub bounded : length ids ≤ 3000

without-IsDistinct : (id : ℕ) (ids : List ℕ) → IsDistinct ids → IsDistinct (without id ids)
unfolding without
without-IsDistinct id ids d = filter-IsDistinct (λ k. not (nat_beq k id)) ids d

upsert-suc :
    (previous : List ℕ) (n : ℕ)
    → upsert_read_article_id previous (suc n)
      ≡ take max_stored_read_articles (suc n ∷ without (suc n) previous)
unfolding upsert_read_article_id
upsert-suc previous n = refl

length-without : (id : ℕ) (ids : List ℕ) → length (without id ids) ≤ length ids
unfolding without
length-without id ids = length-filter (λ k. not (nat_beq k id)) ids

includes-cons_without :
    (id other : ℕ) (ids : List ℕ)
    → includes (id ∷ without id ids) other ≡ (nat_beq id other || includes ids other)
unfolding includes
includes-cons_without id other ids = ground (arith, includes-without id other ids)

toggle-absent :
    (previous : List ℕ) (n : ℕ)
    → length previous < max_stored_favorite_articles
    → includes previous (suc n) ≡ false
    → toggle_favorite_article_id previous (suc n) ≡ suc n ∷ previous
unfolding toggle_favorite_article_id
toggle-absent previous n room absent = rw absent (take_all 3000 (suc n ∷ previous) (omega arith))

toggle-present :
    (previous : List ℕ) (n : ℕ)
    → includes previous (suc n) ≡ true
    → toggle_favorite_article_id previous (suc n) ≡ without (suc n) previous
unfolding toggle_favorite_article_id
toggle-present previous n present = rw present

-- Marking an article as read keeps a list without duplicates and of at most 3000 ids so.
pub upsert_read_article_id-IsStored :
    (previous : List ℕ) (id : ℕ) → IsStored previous → IsStored (upsert_read_article_id previous id)
upsert_read_article_id-IsStored previous zero v = unfold upsert_read_article_id in v
upsert_read_article_id-IsStored previous (suc n) v = record {
  distinct = rw upsert-suc (
      take-IsDistinct 3000 (suc n ∷ without (suc n) previous)
        (includes-without_self (suc n) previous, without-IsDistinct (suc n) previous v.distinct));
  bounded = rw upsert-suc (omega (arith, length-take 3000 (suc n ∷ without (suc n) previous)));
}

-- Below the bound exactly the marked article, with a positive id, is added to the read ones.
pub upsert_read_article_id_lem :
    (previous : List ℕ) (id other : ℕ)
    → 0 < id
    → length previous < max_stored_read_articles
    → includes (upsert_read_article_id previous id) other
      ≡ (nat_beq id other || includes previous other)
upsert_read_article_id_lem previous zero other h room = elim h [ ]
upsert_read_article_id_lem previous (suc n) other h room =
    ap (λ l. includes l other)
      (upsert-suc previous n
        ∙ take_all 3000 (suc n ∷ without (suc n) previous)
            (omega (arith, length-without (suc n) previous)))
    ∙ includes-cons_without (suc n) other previous

includes-head : (id : ℕ) (ids : List ℕ) → includes (id ∷ ids) id ≡ true
unfolding includes
includes-head id ids = ground arith

without-cons : (id : ℕ) (ids : List ℕ) → without id (id ∷ ids) ≡ without id ids
unfolding without
without-cons id ids = ground arith

without-head : (id : ℕ) (ids : List ℕ) → includes ids id ≡ false → without id (id ∷ ids) ≡ ids
without-head id ids h = without-cons id ids ∙ without-absent id ids h

flip_bool :
    (id other : ℕ) (ids : List ℕ)
    → includes ids id ≡ true
    → (not (nat_beq id other) && includes ids other)
      ≡ (if nat_beq id other then not (includes ids id) else includes ids other)
flip_bool id other ids h = ground arith

flip_cons :
    (id other : ℕ) (ids : List ℕ)
    → includes ids id ≡ false
    → includes (id ∷ ids) other
      ≡ (if nat_beq id other then not (includes ids id) else includes ids other)
unfolding includes
flip_cons id other ids h = ground arith

-- Toggling a favourite that is absent, below the bound, and toggling it again gives the list back.
pub toggle_favorite_twice :
    (previous : List ℕ) (id : ℕ)
    → length previous < max_stored_favorite_articles
    → includes previous id ≡ false
    → toggle_favorite_article_id (toggle_favorite_article_id previous id) id ≡ previous
toggle_favorite_twice previous zero room absent = unfold toggle_favorite_article_id in refl
toggle_favorite_twice previous (suc n) room absent =
    ap (λ l. toggle_favorite_article_id l (suc n)) (toggle-absent previous n room absent)
    ∙ toggle-present (suc n ∷ previous) n (includes-head (suc n) previous)
    ∙ without-head (suc n) previous absent

-- Below the bound a toggle of a positive id flips the article and leaves every other one as it was.
pub includes-toggle :
    (previous : List ℕ) (id other : ℕ)
    → 0 < id
    → length previous < max_stored_favorite_articles
    → includes (toggle_favorite_article_id previous id) other
      ≡ (if nat_beq id other then not (includes previous id) else includes previous other)
includes-toggle previous zero other h room = elim h [ ]
includes-toggle previous (suc n) other h room = elim (Bool-cases (includes previous (suc n))) [
  | inl e ↦
      rw (toggle-present previous n e)
        (includes-without (suc n) other previous ∙ flip_bool (suc n) other previous e)
  | inr e ↦ rw (toggle-absent previous n room e) (flip_cons (suc n) other previous e)
]
