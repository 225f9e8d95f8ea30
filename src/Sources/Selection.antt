-- ===== src/Sources/Selection.antt =====
-- Selecting and deselecting sources.
use urwhaturead.Prelude.{
  ℕ, ◌<◌, ◌≡◌, refl, sym, ap, ◌∙◌, Bool, true, false, not, ◌&&◌, List, [], ◌∷◌, filter, length, all,
  if◌then◌else◌, nat_beq, nat_eq, nat_beq_iff, beq_refl, includes, includes-without,
  includes-append, includes-filter, includes-distinct_from, distinct_from, without, filter-of-all,
  arith, Bool-cases, inl, inr,
}
use urwhaturead.Sources.{
  Source, ids_of, selected_source_ids, selected_visible_count, all_visible_selected,
  toggle_source_selection, delete_each, toggle_select_all_visible_sources,
}

-- A click on a source flips it and leaves every other one as it was.
pub includes-toggle_source_selection :
    (id other : ℕ) (previous : List ℕ)
    → includes (toggle_source_selection id previous) other
      ≡ (if nat_beq id other then not (includes previous id) else includes previous other)
unfolding toggle_source_selection includes
includes-toggle_source_selection id other previous =
    ground (arith, includes-without id other previous, includes-append previous (id ∷ []) other)

includes-delete_each :
    (ids set : List ℕ) (a : ℕ)
    → includes (delete_each ids set) a ≡ (not (includes ids a) && includes set a)
unfolding includes
includes-delete_each [] set a = ground arith
includes-delete_each (id ∷ ids) set a =
    ground (arith, includes-delete_each ids (without id set) a, includes-without id a set)

includes-as_set : (ids : List ℕ) (a : ℕ) → includes (distinct_from [] ids) a ≡ includes ids a
unfolding includes
includes-as_set ids a = includes-distinct_from [] ids a

-- Selecting or deselecting all visible sources sets exactly those, whatever the list was before, and
-- leaves every source that is not visible as it was.
pub includes-toggle_all :
    (visible previous : List ℕ) (next_selected : Bool) (other : ℕ)
    → includes (toggle_select_all_visible_sources visible next_selected previous) other
      ≡ (if includes visible other then next_selected else includes previous other)
unfolding toggle_select_all_visible_sources
includes-toggle_all visible previous true other = ground (
  arith,
  includes-distinct_from (distinct_from [] previous) visible other,
  includes-as_set previous other,
)
includes-toggle_all visible previous false other = ground (
  arith,
  includes-delete_each visible (distinct_from [] previous) other,
  includes-as_set previous other,
)

all-from-includes :
    (p : ℕ → Bool) (xs : List ℕ) → ((a : ℕ) → includes xs a ≡ true → p a ≡ true) → all p xs ≡ true
unfolding includes
all-from-includes p [] h = refl
all-from-includes p (x ∷ xs) h =
    ground (arith, h x, beq_refl x, all-from-includes p xs (λ a k. h a (ground arith)))

first_true : (b c : Bool) → (b && c) ≡ true → b ≡ true
first_true b c h = ground arith

passes-of-all :
    (p : ℕ → Bool) (xs : List ℕ) (a : ℕ) → all p xs ≡ true → includes xs a ≡ true → p a ≡ true
unfolding includes
passes-of-all p [] a h k = ground arith
passes-of-all p (x ∷ xs) a h k = elim (Bool-cases (nat_beq x a)) [
  | inl e ↦ ap p (sym ((nat_beq_iff x a).0 e)) ∙ first_true (p x) (all p xs) h
  | inr e ↦ passes-of-all p xs a (ground arith) (ground arith)
]

length-filter_none :
    (p : ℕ → Bool) (xs : List ℕ)
    → ((a : ℕ) → includes xs a ≡ true → p a ≡ false)
    → length (filter p xs) ≡ 0
unfolding includes
length-filter_none p [] h = refl
length-filter_none p (x ∷ xs) h =
    ground (arith, h x, beq_refl x, length-filter_none p xs (λ a k. h a (ground arith)))

includes-selected :
    (sources : List Source) (visible previous : List ℕ) (b : Bool) (a : ℕ)
    → all (includes (ids_of sources)) visible ≡ true
    → includes visible a ≡ true
    → includes
        (selected_source_ids sources (toggle_select_all_visible_sources visible b previous))
        a
      ≡ b
unfolding selected_source_ids
includes-selected sources visible previous b a h k = ground (
  arith,
  includes-filter (includes (ids_of sources)) (toggle_select_all_visible_sources visible b previous)
      a,
  includes-toggle_all visible previous b a,
  passes-of-all (includes (ids_of sources)) visible a h k,
)

-- If some sources are visible, and all of them exist, then after selecting all visible ones the
-- panel shows all as selected, and after deselecting them it counts none.
pub toggle_select_all_lem :
    (sources : List Source) (visible previous : List ℕ)
    → 0 < length visible
    → all (includes (ids_of sources)) visible ≡ true
    → (all_visible_selected visible
          (selected_source_ids sources (toggle_select_all_visible_sources visible true previous))
        ≡ true)
      × (selected_visible_count visible
            (selected_source_ids sources (toggle_select_all_visible_sources visible false previous))
          ≡ 0)
unfolding all_visible_selected selected_visible_count
toggle_select_all_lem sources visible previous n h = (
  rw
      (filter-of-all _ visible (
        all-from-includes _ visible (λ a k. includes-selected sources visible previous true a h k)))
      (ground arith),
  length-filter_none _ visible (λ a k. includes-selected sources visible previous false a h k),
)
