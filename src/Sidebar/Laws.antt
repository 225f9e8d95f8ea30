-- ===== src/Sidebar/Laws.antt =====
-- Removing filters and muting sites.
use urwhaturead.Prelude.{
  ◌≡◌, refl, ◌∙◌, false, not, none, List, [], ◌∷◌, ◌++◌, if◌then◌else◌, Bool-cases, inl, inr, ◌==◌,
  text_eq, Text, includes, includes-append, includes-without, arith,
}
use urwhaturead.Sidebar.Controls.{Controls}
use urwhaturead.Sidebar.Filters.{
  FilterType, keyword, tag, source, muted_sites, unread, favorite, remove_filter, clear_filters,
  toggle_site_muted,
}

-- The filter of a type lets everything pass.
abbrev pub IsCleared : FilterType → Controls → Type 0
IsCleared keyword s = s.keyword ≡ []
IsCleared tag s = s.tag_filter ≡ []
IsCleared source s =
    (s.source_filter ≡ []) × (s.source_group_filter ≡ none) × (s.sidebar_tag_filters ≡ [])
IsCleared muted_sites s = s.muted_site_keys ≡ []
IsCleared unread s = s.unread_only ≡ false
IsCleared favorite s = s.favorite_only ≡ false

pub remove_filters : List FilterType → Controls → Controls
remove_filters [] s = s
remove_filters (t ∷ types) s = remove_filters types (remove_filter t s)

removed : (t : FilterType) (s : Controls) → IsCleared t (remove_filter t s)
unfolding remove_filter
removed keyword s = refl
removed tag s = refl
removed source s = (refl, refl, refl)
removed muted_sites s = refl
removed unread s = refl
removed favorite s = refl

kept :
    (t other : FilterType) (s : Controls) → IsCleared other s → IsCleared other (remove_filter t s)
unfolding remove_filter
kept t other s h = ground arith

kept-all :
    (types : List FilterType) (t : FilterType) (s : Controls)
    → IsCleared t s
    → IsCleared t (remove_filters types s)
unfolding remove_filters
kept-all [] t s h = h
kept-all (u ∷ types) t s h = kept-all types t (remove_filter u s) (kept u t s h)

-- A filter that is removed stays off, whichever filters are removed before and after it.
pub remove_filters-IsCleared :
    (before after : List FilterType) (t : FilterType) (s : Controls)
    → IsCleared t (remove_filters (before ++ t ∷ after) s)
unfolding remove_filters
remove_filters-IsCleared [] after t s = kept-all after t (remove_filter t s) (removed t s)
remove_filters-IsCleared (u ∷ before) after t s =
    remove_filters-IsCleared before after t (remove_filter u s)

-- Clearing the filters turns off each of them.
pub clear_filters-IsCleared : (t : FilterType) (s : Controls) → IsCleared t (clear_filters s)
unfolding clear_filters
clear_filters-IsCleared keyword s = refl
clear_filters-IsCleared tag s = refl
clear_filters-IsCleared source s = (refl, refl, refl)
clear_filters-IsCleared muted_sites s = refl
clear_filters-IsCleared unread s = refl
clear_filters-IsCleared favorite s = refl

-- Muting turns the site round, and leaves every other one.
pub includes-toggle_site_muted :
    (site other : Text) (s : Controls)
    → includes (toggle_site_muted site s).muted_site_keys other ≡ (
        if site == other
        then not (includes s.muted_site_keys site)
        else includes s.muted_site_keys other)
unfolding toggle_site_muted
includes-toggle_site_muted site other s = elim (Bool-cases (includes s.muted_site_keys site)) [
  | inl e ↦ rw e (ground (arith, includes-without site other s.muted_site_keys))
  | inr e ↦ rw e (
      includes-append s.muted_site_keys (site ∷ []) other
      ∙ (unfold includes in ground (arith, text_eq.beq_iff site other)))
]
