-- ===== src/Prelude/Distinct.antt =====
-- Arrays without duplicates, `includes`, and the first occurrences of an array.
use Prim.Native.Nat.{ℕ, zero, suc}
use mathlib.Core.Path.{◌≡◌, refl}
use mathlib.Core.Logic.{inl, inr}
use mathlib.Core.Bool.{Bool, false, not, ◌&&◌, ◌||◌}
use mathlib.Core.List.{List, [], ◌∷◌, ◌++◌}
use native.Mathlib.Omega.{arith}
use urwhaturead.Prelude.Tests.{Eq, ◌==◌, if◌then◌else◌, Bool-cases}
use urwhaturead.Prelude.Lists.{filter, take}

module _ {ℓ} {A : Type ℓ} ⦃e : Eq A⦄ where
  -- `xs.includes(a)`, `new Set(xs).has(a)`
  unfoldable pub includes : List A → A → Bool
  includes [] a = false
  includes (x ∷ xs) a = x == a || includes xs a

  abbrev pub IsDistinct : List A → Type 0
  IsDistinct [] = Unit
  IsDistinct (x ∷ xs) = (includes xs x ≡ false) × IsDistinct xs

  -- `xs.filter((x) => x !== a)`
  unfoldable pub without : A → List A → List A
  without a = filter (λ x. not (x == a))

  pub includes-append :
      (xs ys : List A) (a : A) → includes (xs ++ ys) a ≡ (includes xs a || includes ys a)
  unfolding includes
  includes-append [] ys a = refl
  includes-append (x ∷ xs) ys a = ground (arith, includes-append xs ys a)

  pub includes-without_self : (a : A) (xs : List A) → includes (without a xs) a ≡ false
  unfolding includes without
  includes-without_self a [] = refl
  includes-without_self a (x ∷ xs) = ground (arith, includes-without_self a xs)

  pub includes-without_ne :
      (a b : A) (xs : List A) → ¬ (a ≡ b) → includes (without a xs) b ≡ includes xs b
  unfolding includes without
  includes-without_ne a b [] h = refl
  includes-without_ne a b (x ∷ xs) h =
      ground (arith, includes-without_ne a b xs h, e.beq_iff x a, e.beq_iff x b)

  pub includes-without :
      (a b : A) (xs : List A) → includes (without a xs) b ≡ (not (a == b) && includes xs b)
  unfolding includes without
  includes-without a b [] = ground arith
  includes-without a b (x ∷ xs) =
      ground (arith, includes-without a b xs, e.beq_iff x a, e.beq_iff x b, e.beq_iff a b)

  pub includes-filter :
      (p : A → Bool) (xs : List A) (a : A) → includes (filter p xs) a ≡ (p a && includes xs a)
  unfolding includes
  includes-filter p [] a = ground arith
  includes-filter p (x ∷ xs) a = ground (arith, includes-filter p xs a, e.beq_iff x a)

  pub filter-IsDistinct : (p : A → Bool) (xs : List A) → IsDistinct xs → IsDistinct (filter p xs)
  filter-IsDistinct p [] h = tt
  filter-IsDistinct p (x ∷ xs) h =
      ground (arith, filter-IsDistinct p xs h.1, includes-filter p xs x)

  pub includes-take :
      (n : ℕ) (xs : List A) (a : A) → includes xs a ≡ false → includes (take n xs) a ≡ false
  unfolding includes
  includes-take zero xs a h = refl
  includes-take (suc n) [] a h = refl
  includes-take (suc n) (x ∷ xs) a h = ground (arith, includes-take n xs a)

  pub take-IsDistinct : (n : ℕ) (xs : List A) → IsDistinct xs → IsDistinct (take n xs)
  take-IsDistinct zero xs h = tt
  take-IsDistinct (suc n) [] h = tt
  take-IsDistinct (suc n) (x ∷ xs) h = (includes-take n xs x h.0, take-IsDistinct n xs h.1)

  -- An absent element is removed without effect.
  pub without-absent : (a : A) (xs : List A) → includes xs a ≡ false → without a xs ≡ xs
  unfolding includes without
  without-absent a [] h = refl
  without-absent a (x ∷ xs) h = ground (arith, without-absent a xs)

  -- The elements of `Array.from(new Set(xs))` behind those of `seen`, which the set holds already.
  unfoldable pub distinct_from : List A → List A → List A
  distinct_from seen [] = seen
  distinct_from seen (x ∷ xs) =
      if includes seen x then distinct_from seen xs else distinct_from (seen ++ x ∷ []) xs

  pub append-IsDistinct :
      (xs : List A) (a : A) → IsDistinct xs → includes xs a ≡ false → IsDistinct (xs ++ a ∷ [])
  unfolding includes
  append-IsDistinct [] a d h = (refl, tt)
  append-IsDistinct (x ∷ xs) a d h = (
    ground (arith, includes-append xs (a ∷ []) x, e.beq_iff x a, e.beq_iff a x),
    append-IsDistinct xs a d.1 (ground arith),
  )

  pub distinct_from-IsDistinct :
      (seen xs : List A) → IsDistinct seen → IsDistinct (distinct_from seen xs)
  unfolding distinct_from
  distinct_from-IsDistinct seen [] d = d
  distinct_from-IsDistinct seen (x ∷ xs) d = elim (Bool-cases (includes seen x)) [
    | inl p ↦ rw p (distinct_from-IsDistinct seen xs d)
    | inr p ↦ rw p (distinct_from-IsDistinct (seen ++ x ∷ []) xs (append-IsDistinct seen x d p))
  ]

  pub includes-distinct_from :
      (seen xs : List A) (a : A)
      → includes (distinct_from seen xs) a ≡ (includes seen a || includes xs a)
  unfolding distinct_from includes
  includes-distinct_from seen [] a = ground arith
  includes-distinct_from seen (x ∷ xs) a = elim (Bool-cases (includes seen x)) [
    | inl p ↦ rw p (ground (arith, includes-distinct_from seen xs a, e.beq_iff x a))
    | inr p ↦ rw p (
        ground
          (arith, includes-distinct_from (seen ++ x ∷ []) xs a, includes-append seen (x ∷ []) a))
  ]
