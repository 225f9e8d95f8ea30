-- ===== src/Prelude/Lists.antt =====
-- Lists measured by native numbers, under the library's names, and the array methods of the source:
-- `filter`, `some` (here `any`), `every` (`all`), `find` (`find?`), `findIndex`, `slice(0, n)` (`take`).
use Prim.Native.Nat.{ℕ, zero, suc, ◌+◌, ◌≤◌, ◌<◌, min}
use mathlib.Core.Path.{◌≡◌, refl, ap}
use mathlib.Core.Logic.{inl, inr}
use mathlib.Core.Bool.{Bool, true, false, not, ◌&&◌, ◌||◌}
use mathlib.Core.List.{List, [], ◌∷◌, ◌++◌}
use mathlib.Core.Option.{Option, none, some}
use mathlib.Core.Option
use native.Mathlib.Omega.{arith}
use urwhaturead.Prelude.Tests.{Bool-cases, if◌then◌else◌}

module _ {ℓ} {A : Type ℓ} where
  abbrev pub length : List A → ℕ
  length [] = 0
  length (x ∷ xs) = suc (length xs)

  abbrev pub take : ℕ → List A → List A
  take zero xs = []
  take (suc n) [] = []
  take (suc n) (x ∷ xs) = x ∷ take n xs

  abbrev pub filter : (A → Bool) → List A → List A
  filter p [] = []
  filter p (x ∷ xs) = if p x then x ∷ filter p xs else filter p xs

  abbrev pub any : (A → Bool) → List A → Bool
  any p [] = false
  any p (x ∷ xs) = p x || any p xs

  abbrev pub all : (A → Bool) → List A → Bool
  all p [] = true
  all p (x ∷ xs) = p x && all p xs

  abbrev pub find? : (A → Bool) → List A → Option A
  find? p [] = none
  find? p (x ∷ xs) = if p x then some x else find? p xs

  -- `none` is the -1 of JavaScript.
  abbrev pub find_index? : (A → Bool) → List A → Option ℕ
  find_index? p [] = none
  find_index? p (x ∷ xs) = if p x then some 0 else Option.map suc (find_index? p xs)

  -- `splice(i, 0, x)`; past the end the item goes to the end.
  abbrev pub insert_at : ℕ → A → List A → List A
  insert_at zero a xs = a ∷ xs
  insert_at (suc i) a [] = a ∷ []
  insert_at (suc i) a (x ∷ xs) = x ∷ insert_at i a xs

  abbrev pub get_elem? : List A → ℕ → Option A
  get_elem? [] i = none
  get_elem? (x ∷ xs) zero = some x
  get_elem? (x ∷ xs) (suc i) = get_elem? xs i

  abbrev pub drop : ℕ → List A → List A
  drop zero xs = xs
  drop (suc n) [] = []
  drop (suc n) (x ∷ xs) = drop n xs

  abbrev pub All {κ} : (A → Type κ) → List A → Type κ
  All P [] = Unit
  All P (x ∷ xs) = P x × All P xs

  pub length-append : (xs ys : List A) → length (xs ++ ys) ≡ length xs + length ys
  length-append [] ys = omega arith
  length-append (x ∷ xs) ys = omega (arith, length-append xs ys)

  pub length-take : (n : ℕ) (xs : List A) → length (take n xs) ≡ min n (length xs)
  length-take zero xs = omega arith
  length-take (suc n) [] = omega arith
  length-take (suc n) (x ∷ xs) = omega (arith, length-take n xs)

  pub take_all : (n : ℕ) (xs : List A) → length xs ≤ n → take n xs ≡ xs
  take_all zero [] h = refl
  take_all zero (x ∷ xs) h = absurd (omega arith)
  take_all (suc n) [] h = refl
  take_all (suc n) (x ∷ xs) h = ap (λ l. x ∷ l) (take_all n xs (omega arith))

  pub length-filter : (p : A → Bool) (xs : List A) → length (filter p xs) ≤ length xs
  length-filter p [] = omega arith
  length-filter p (x ∷ xs) = ground (arith, length-filter p xs)

  pub any-append : (p : A → Bool) (xs ys : List A) → any p (xs ++ ys) ≡ (any p xs || any p ys)
  any-append p [] ys = refl
  any-append p (x ∷ xs) ys = ground (arith, any-append p xs ys)

  pub any-filter : (p q : A → Bool) (xs : List A) → any p (filter q xs) ≡ any (λ x. p x && q x) xs
  any-filter p q [] = refl
  any-filter p q (x ∷ xs) = ground (arith, any-filter p q xs)

  pub all-filter_self : (p : A → Bool) (xs : List A) → all p (filter p xs) ≡ true
  all-filter_self p [] = refl
  all-filter_self p (x ∷ xs) = ground (arith, all-filter_self p xs)

  pub filter-of-all : (p : A → Bool) (xs : List A) → all p xs ≡ true → filter p xs ≡ xs
  filter-of-all p [] h = refl
  filter-of-all p (x ∷ xs) h = ground (arith, filter-of-all p xs)

  pub all-take : (p : A → Bool) (n : ℕ) (xs : List A) → all p xs ≡ true → all p (take n xs) ≡ true
  all-take p zero xs h = refl
  all-take p (suc n) [] h = refl
  all-take p (suc n) (x ∷ xs) h = ground (arith, all-take p n xs)

  pub all-filter : (p q : A → Bool) (xs : List A) → all p xs ≡ true → all p (filter q xs) ≡ true
  all-filter p q [] h = refl
  all-filter p q (x ∷ xs) h = ground (arith, all-filter p q xs)

  -- An element that `find` returns passes the test.
  pub find?-passes : (p : A → Bool) (xs : List A) (a : A) → find? p xs ≡ some a → p a ≡ true
  find?-passes p [] a h = ground arith
  find?-passes p (x ∷ xs) a h = ground (arith, find?-passes p xs a)

  pub All-drop {κ} : (P : A → Type κ) (n : ℕ) (xs : List A) → All P xs → All P (drop n xs)
  All-drop P zero xs h = h
  All-drop P (suc n) [] h = tt
  All-drop P (suc n) (x ∷ xs) h = All-drop P n xs h.1

  pub All-take {κ} : (P : A → Type κ) (n : ℕ) (xs : List A) → All P xs → All P (take n xs)
  All-take P zero xs h = tt
  All-take P (suc n) [] h = tt
  All-take P (suc n) (x ∷ xs) h = (h.0, All-take P n xs h.1)

  pub All-filter {κ} :
      (P : A → Type κ) (q : A → Bool) (xs : List A) → All P xs → All P (filter q xs)
  All-filter P q [] h = tt
  All-filter P q (x ∷ xs) h = elim (Bool-cases (q x)) [
    | inl e ↦ rw e (h.0, All-filter P q xs h.1)
    | inr e ↦ rw e (All-filter P q xs h.1)
  ]

  -- The index that `findIndex` returns is in range, the item there passes and none before it does.
  pub find_index?-lt :
      (p : A → Bool) (xs : List A) (i : ℕ) → find_index? p xs ≡ some i → i < length xs
  find_index?-lt p [] i h = ground arith
  find_index?-lt p (x ∷ xs) zero h = omega arith
  find_index?-lt p (x ∷ xs) (suc i) h = ground (arith, find_index?-lt p xs i)

  pub find_index?-first :
      (p : A → Bool) (xs : List A) (i : ℕ)
      → find_index? p xs ≡ some i
      → (all (λ x. not (p x)) (take i xs) ≡ true) × (any p (take 1 (drop i xs)) ≡ true)
  find_index?-first p [] i h = absurd (ground arith)
  find_index?-first p (x ∷ xs) zero h = (refl, ground arith)
  find_index?-first p (x ∷ xs) (suc i) h = ground (arith, find_index?-first p xs i)

  pub find_index?-none : (p : A → Bool) (xs : List A) → find_index? p xs ≡ none → any p xs ≡ false
  find_index?-none p [] h = refl
  find_index?-none p (x ∷ xs) h = ground (arith, find_index?-none p xs)

  pub any-take : (p : A → Bool) (n : ℕ) (xs : List A) → any p xs ≡ false → any p (take n xs) ≡ false
  any-take p zero xs h = refl
  any-take p (suc n) [] h = refl
  any-take p (suc n) (x ∷ xs) h = ground (arith, any-take p n xs)

  pub any-drop : (p : A → Bool) (n : ℕ) (xs : List A) → any p (drop n xs) ≡ true → any p xs ≡ true
  any-drop p zero xs h = h
  any-drop p (suc n) [] h = h
  any-drop p (suc n) (x ∷ xs) h = ground (arith, any-drop p n xs)

  pub any-take-true :
      (p : A → Bool) (n : ℕ) (xs : List A) → any p (take n xs) ≡ true → any p xs ≡ true
  any-take-true p zero xs h = absurd (ground arith)
  any-take-true p (suc n) [] h = h
  any-take-true p (suc n) (x ∷ xs) h = ground (arith, any-take-true p n xs)

  pub get_elem?-insert_at :
      (i : ℕ) (a : A) (xs : List A) → i ≤ length xs → get_elem? (insert_at i a xs) i ≡ some a
  get_elem?-insert_at zero a xs h = refl
  get_elem?-insert_at (suc i) a [] h = absurd (omega arith)
  get_elem?-insert_at (suc i) a (x ∷ xs) h = get_elem?-insert_at i a xs (omega arith)

  pub any-insert_at :
      (p : A → Bool) (i : ℕ) (a : A) (xs : List A) → any p (insert_at i a xs) ≡ (p a || any p xs)
  any-insert_at p zero a xs = refl
  any-insert_at p (suc i) a [] = refl
  any-insert_at p (suc i) a (x ∷ xs) = ground (arith, any-insert_at p i a xs)

  pub find_index?-absent : (p : A → Bool) (xs : List A) → any p xs ≡ false → find_index? p xs ≡ none
  find_index?-absent p [] h = refl
  find_index?-absent p (x ∷ xs) h = ground (arith, find_index?-absent p xs)

  abbrev pub is_some : Option A → Bool
  is_some none = false
  is_some (some a) = true

module _ {ℓ} {A : Type ℓ} where
  pub is_some-find_index? : (p : A → Bool) (xs : List A) → is_some (find_index? p xs) ≡ any p xs
  is_some-find_index? p [] = refl
  is_some-find_index? p (x ∷ xs) = ground (arith, is_some-find_index? p xs)
