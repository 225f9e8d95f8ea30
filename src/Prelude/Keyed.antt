-- ===== src/Prelude/Keyed.antt =====
-- Arrays of items that carry a key: the item under a key, and arrays whose keys differ.
use Prim.Native.Nat.{ℕ, zero, suc}
use mathlib.Core.Path.{◌≡◌, refl, ◌∙◌}
use mathlib.Core.Logic.{inl, inr}
use mathlib.Core.Bool.{Bool, false, not, ◌&&◌}
use mathlib.Core.Option.{Option, none, some}
use mathlib.Core.List.{List, [], ◌∷◌}
use native.Mathlib.Omega.{arith}
use urwhaturead.Prelude.Tests.{Eq, Bool-cases, ◌==◌, if◌then◌else◌}
use urwhaturead.Prelude.Int.{ℤ}
use urwhaturead.Prelude.Lists.{filter, take, any, find?}
use urwhaturead.Prelude.Sort.{sort, sort_insert, keeps_order}

-- An option kept only if its value passes.
abbrev pub keep_if {ℓ} : {A : Type ℓ} → (A → Bool) → Option A → Option A
keep_if q none = none
keep_if q (some a) = if q a then some a else none

module _ {ℓ κ} {A : Type ℓ} {K : Type κ} ⦃e : Eq K⦄ (key : A → K) where
  abbrev pub has_key : K → List A → Bool
  has_key k = any (λ a. key a == k)

  abbrev pub at_key : K → List A → Option A
  at_key k = find? (λ a. key a == k)

  abbrev pub HasDistinctKeys : List A → Type 0
  HasDistinctKeys [] = Unit
  HasDistinctKeys (a ∷ xs) = (has_key (key a) xs ≡ false) × HasDistinctKeys xs

  pub at_key-absent : (k : K) (xs : List A) → has_key k xs ≡ false → at_key k xs ≡ none
  at_key-absent k [] h = refl
  at_key-absent k (x ∷ xs) h = ground (arith, at_key-absent k xs)

  has_key-filter :
      (k : K) (q : A → Bool) (xs : List A) → has_key k xs ≡ false → has_key k (filter q xs) ≡ false
  has_key-filter k q [] h = refl
  has_key-filter k q (x ∷ xs) h = ground (arith, has_key-filter k q xs)

  pub filter-HasDistinctKeys :
      (q : A → Bool) (xs : List A) → HasDistinctKeys xs → HasDistinctKeys (filter q xs)
  filter-HasDistinctKeys q [] h = tt
  filter-HasDistinctKeys q (x ∷ xs) h = elim (Bool-cases (q x)) [
    | inl p ↦ rw p (has_key-filter (key x) q xs h.0, filter-HasDistinctKeys q xs h.1)
    | inr p ↦ rw p (filter-HasDistinctKeys q xs h.1)
  ]

  has_key-take :
      (k : K) (n : ℕ) (xs : List A) → has_key k xs ≡ false → has_key k (take n xs) ≡ false
  has_key-take k zero xs h = refl
  has_key-take k (suc n) [] h = refl
  has_key-take k (suc n) (x ∷ xs) h = ground (arith, has_key-take k n xs)

  pub take-HasDistinctKeys :
      (n : ℕ) (xs : List A) → HasDistinctKeys xs → HasDistinctKeys (take n xs)
  take-HasDistinctKeys zero xs h = tt
  take-HasDistinctKeys (suc n) [] h = tt
  take-HasDistinctKeys (suc n) (x ∷ xs) h =
      (has_key-take (key x) n xs h.0, take-HasDistinctKeys n xs h.1)

  -- Dropping a key leaves every other key.
  pub has_key-drop_key :
      (k j : K) (xs : List A)
      → has_key j (filter (λ a. not (key a == k)) xs) ≡ (not (k == j) && has_key j xs)
  has_key-drop_key k j [] = ground arith
  has_key-drop_key k j (x ∷ xs) =
      ground
        (arith, has_key-drop_key k j xs, e.beq_iff (key x) k, e.beq_iff (key x) j, e.beq_iff k j)

  -- Under distinct keys a filter acts on the item of each key alone.
  pub at_key-filter :
      (k : K) (q : A → Bool) (xs : List A)
      → HasDistinctKeys xs
      → at_key k (filter q xs) ≡ keep_if q (at_key k xs)
  at_key-filter k q [] h = refl
  at_key-filter k q (x ∷ xs) h = ground (
    arith,
    at_key-filter k q xs h.1,
    e.beq_iff (key x) k,
    at_key-absent k (filter q xs),
    has_key-filter k q xs,
  )

  module _ (compare : A → A → ℤ) where
    has_key-sort_insert :
        (k : K) (a : A) (xs : List A) → has_key k (sort_insert compare a xs) ≡ has_key k (a ∷ xs)
    unfolding sort_insert
    has_key-sort_insert k a [] = refl
    has_key-sort_insert k a (x ∷ xs) = ground (arith, has_key-sort_insert k a xs)

    pub has_key-sort : (k : K) (xs : List A) → has_key k (sort compare xs) ≡ has_key k xs
    unfolding sort
    has_key-sort k [] = refl
    has_key-sort k (x ∷ xs) =
        ground (arith, has_key-sort_insert k x (sort compare xs), has_key-sort k xs)

    sort_insert-HasDistinctKeys :
        (a : A) (xs : List A)
        → has_key (key a) xs ≡ false
        → HasDistinctKeys xs
        → HasDistinctKeys (sort_insert compare a xs)
    unfolding sort_insert
    sort_insert-HasDistinctKeys a [] h d = (refl, tt)
    sort_insert-HasDistinctKeys a (x ∷ xs) h d = elim (Bool-cases (keeps_order compare a x)) [
      | inl p ↦ rw p (h, d)
      | inr p ↦ rw p (
        ground (
          arith,
          has_key-sort_insert (key x) a xs,
          e.beq_iff (key x) (key a),
          e.beq_iff (key a) (key x),
        ),
        sort_insert-HasDistinctKeys a xs (ground arith) d.1,
      )
    ]

    pub sort-HasDistinctKeys :
        (xs : List A) → HasDistinctKeys xs → HasDistinctKeys (sort compare xs)
    unfolding sort
    sort-HasDistinctKeys [] d = tt
    sort-HasDistinctKeys (x ∷ xs) d =
        sort_insert-HasDistinctKeys x (sort compare xs) (has_key-sort (key x) xs ∙ d.0)
          (sort-HasDistinctKeys xs d.1)

    at_key-sort_insert :
        (k : K) (a : A) (xs : List A)
        → has_key (key a) xs ≡ false
        → at_key k (sort_insert compare a xs) ≡ at_key k (a ∷ xs)
    unfolding sort_insert
    at_key-sort_insert k a [] h = refl
    at_key-sort_insert k a (x ∷ xs) h = ground (
      arith,
      at_key-sort_insert k a xs,
      e.beq_iff (key x) (key a),
      e.beq_iff (key x) k,
      e.beq_iff (key a) k,
    )

    -- Under distinct keys sorting moves no item to another key.
    pub at_key-sort :
        (k : K) (xs : List A) → HasDistinctKeys xs → at_key k (sort compare xs) ≡ at_key k xs
    unfolding sort
    at_key-sort k [] d = refl
    at_key-sort k (x ∷ xs) d = ground (
      arith,
      at_key-sort_insert k x (sort compare xs) (has_key-sort (key x) xs ∙ d.0),
      at_key-sort k xs d.1,
    )
