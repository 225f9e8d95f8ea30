-- ===== src/Prelude/Sort.antt =====
-- `Array.prototype.sort` with a comparator, as the stable sort that ECMAScript asks for. The
-- comparator returns an integer, `NaN` read as 0; a positive value puts the second item first.
use Prim.Native.Nat.{ℕ, zero, suc}
use mathlib.Core.Path.{◌≡◌, refl}
use mathlib.Core.Bool.{Bool, true, false}
use mathlib.Core.Logic.{inl, inr}
use native.Mathlib.Omega.{arith}
use mathlib.Core.List.{List, [], ◌∷◌, Perm}
use mathlib.Core.List.Perm
use urwhaturead.Prelude.Tests.{Bool-cases, if◌then◌else◌}
use urwhaturead.Prelude.Int.{ℤ, pos, leb_ℤ}
use urwhaturead.Prelude.Lists.{All, take, drop, length, All-drop}

module _ {ℓ} {A : Type ℓ} (compare : A → A → ℤ) where
  -- The comparator does not put `b` before `a`.
  abbrev pub keeps_order : A → A → Bool
  keeps_order a b = leb_ℤ (compare a b) (pos 0)

  unfoldable pub sort_insert : A → List A → List A
  sort_insert a [] = a ∷ []
  sort_insert a (x ∷ xs) = if keeps_order a x then a ∷ x ∷ xs else x ∷ sort_insert a xs

  unfoldable pub sort : List A → List A
  unfolding sort_insert
  sort [] = []
  sort (x ∷ xs) = sort_insert x (sort xs)

  sort_insert-perm : (a : A) (xs : List A) → Perm (sort_insert a xs) (a ∷ xs)
  unfolding sort_insert
  sort_insert-perm a [] = Perm.refl _
  sort_insert-perm a (x ∷ xs) = elim (Bool-cases (keeps_order a x)) [
    | inl e ↦ rw e (Perm.refl _)
    | inr e ↦ rw e (Perm.trans (Perm.cons x (sort_insert-perm a xs)) (Perm.swap a x xs))
  ]

  pub sort-perm : (xs : List A) → Perm (sort xs) xs
  unfolding sort
  sort-perm [] = Perm.refl _
  sort-perm (x ∷ xs) = Perm.trans (sort_insert-perm x (sort xs)) (Perm.cons x (sort-perm xs))

  length-sort_insert : (a : A) (xs : List A) → length (sort_insert a xs) ≡ suc (length xs)
  unfolding sort_insert
  length-sort_insert a [] = refl
  length-sort_insert a (x ∷ xs) = ground (arith, length-sort_insert a xs)

  pub length-sort : (xs : List A) → length (sort xs) ≡ length xs
  unfolding sort
  length-sort [] = refl
  length-sort (x ∷ xs) = omega (arith, length-sort_insert x (sort xs), length-sort xs)

  abbrev pub Keeps : A → A → Type 0
  Keeps a b = keeps_order a b ≡ true

  -- No item stands behind one that the comparator puts after it.
  abbrev pub IsSorted : List A → Type 0
  IsSorted [] = Unit
  IsSorted (x ∷ xs) = All (Keeps x) xs × IsSorted xs

  -- A comparator that orders all items: of two items one order is kept, and keeping is transitive.
  pub record IsComparator : Type ℓ where
    pub keeps_total : (a b : A) → keeps_order a b ≡ false → Keeps b a
    pub keeps_trans : (a b c : A) → Keeps a b → Keeps b c → Keeps a c

  sort_insert-All :
      (P : A → Type 0) (a : A) (xs : List A) → P a → All P xs → All P (sort_insert a xs)
  unfolding sort_insert
  sort_insert-All P a [] p h = (p, tt)
  sort_insert-All P a (x ∷ xs) p h = elim (Bool-cases (keeps_order a x)) [
    | inl e ↦ rw e (p, h)
    | inr e ↦ rw e (h.0, sort_insert-All P a xs p h.1)
  ]

  pub sort-All : (P : A → Type 0) (xs : List A) → All P xs → All P (sort xs)
  unfolding sort
  sort-All P [] h = tt
  sort-All P (x ∷ xs) h = sort_insert-All P x (sort xs) h.0 (sort-All P xs h.1)

  All-trans :
      IsComparator → (a x : A) (xs : List A) → Keeps a x → All (Keeps x) xs → All (Keeps a) xs
  All-trans c a x [] k h = tt
  All-trans c a x (y ∷ ys) k h = (c.keeps_trans a x y k h.0, All-trans c a x ys k h.1)

  sort_insert-IsSorted :
      IsComparator → (a : A) (xs : List A) → IsSorted xs → IsSorted (sort_insert a xs)
  unfolding sort_insert
  sort_insert-IsSorted c a [] h = (tt, tt)
  sort_insert-IsSorted c a (x ∷ xs) h = elim (Bool-cases (keeps_order a x)) [
    | inl e ↦ rw e ((e, All-trans c a x xs e h.0), h)
    | inr e ↦
        rw e (
          sort_insert-All (Keeps x) a xs (c.keeps_total a x e) h.0,
          sort_insert-IsSorted c a xs h.1,
        )
  ]

  pub sort-IsSorted : IsComparator → (xs : List A) → IsSorted (sort xs)
  unfolding sort
  sort-IsSorted c [] = tt
  sort-IsSorted c (x ∷ xs) = sort_insert-IsSorted c x (sort xs) (sort-IsSorted c xs)

  -- What a cut after `n` items leaves out comes after all that it keeps.
  pub IsSorted-cut :
      (n : ℕ) (xs : List A) → IsSorted xs → All (λ a. All (Keeps a) (drop n xs)) (take n xs)
  IsSorted-cut zero xs h = tt
  IsSorted-cut (suc n) [] h = tt
  IsSorted-cut (suc n) (x ∷ xs) h = (All-drop (Keeps x) n xs h.0, IsSorted-cut n xs h.1)
