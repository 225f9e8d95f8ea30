-- ===== src/Article.antt =====
-- lib/app-utils.ts and hooks/use-reader-local-persistence.ts: the stored lists of read and of
-- favourite articles, newest first.
pub mod Laws
pub mod Stored
mod Tests
use urwhaturead.Prelude.{
  ℕ, zero, suc, Bool, true, false, Option, none, some, List, [], ◌∷◌, ◌++◌, if◌then◌else◌, leb, ltb,
  length, take, map, Text, includes, without, nat_eq, ℤ, pos, negsuc,
}

-- A parsed JSON value, as far as the lists look at it: an integer, or anything else.
pub data JsonValue : Type 0 where
  integer : ℤ → JsonValue
  other : JsonValue

abbrev pub max_stored_read_articles : ℕ
max_stored_read_articles = 3000

abbrev pub max_stored_favorite_articles : ℕ
max_stored_favorite_articles = 3000

unfoldable pub normalize_article_id : JsonValue → Option ℕ
normalize_article_id (integer (pos zero)) = none
normalize_article_id (integer (pos (suc n))) = some (suc n)
normalize_article_id (integer (negsuc n)) = none
normalize_article_id other = none

-- The loop of both `normalize…ArticleIDs`, over the set `seen` and the array `output`.
unfoldable pub normalize_from : ℕ → List ℕ → List ℕ → List JsonValue → List ℕ
normalize_from limit seen output [] = output
normalize_from limit seen output (value ∷ values) = elim (normalize_article_id value) [
  | none ↦ normalize_from limit seen output values
  | some id ↦
      let output' = output ++ id ∷ [] in
      let kept = normalize_from limit (id ∷ seen) output' values in
      let skipped = normalize_from limit seen output values in
      if includes seen id then skipped else if leb limit (length output') then output' else kept
]

unfoldable pub normalize_read_article_ids : List JsonValue → List ℕ
normalize_read_article_ids = normalize_from max_stored_read_articles [] []

unfoldable pub normalize_favorite_article_ids : List JsonValue → List ℕ
normalize_favorite_article_ids = normalize_from max_stored_favorite_articles [] []

unfoldable pub upsert_read_article_id : List ℕ → ℕ → List ℕ
unfolding normalize_article_id
upsert_read_article_id previous article_id =
    elim (normalize_article_id (integer (pos article_id))) [
      | none ↦ previous
      | some normalized ↦ take max_stored_read_articles (normalized ∷ without normalized previous)
    ]

unfoldable pub toggle_favorite_article_id : List ℕ → ℕ → List ℕ
unfolding normalize_article_id
toggle_favorite_article_id previous article_id =
    elim (normalize_article_id (integer (pos article_id))) [
      | none ↦ previous
      | some normalized ↦
          if includes previous normalized
          then without normalized previous
          else take max_stored_favorite_articles (normalized ∷ previous)
    ]

-- `JSON.parse` of the stored text, `none` where it throws; its array, `none` for another value.
abbrev pub ParsedItem : Type 0
ParsedItem = Option (Option (List JsonValue))

-- `parseStoredReadArticleIDs(raw)`, with the item in storage already parsed. An absent item and an
-- empty text are `none`.
unfoldable pub parse_stored : (List JsonValue → List ℕ) → Option ParsedItem → List ℕ
parse_stored normalize none = []
parse_stored normalize (some none) = []
parse_stored normalize (some (some none)) = []
parse_stored normalize (some (some (some values))) = normalize values

-- The effect that writes the list back; `none` removes the item.
unfoldable pub stored_item : ℕ → List ℕ → Option (List ℕ)
stored_item limit [] = none
stored_item limit (id ∷ ids) = some (take limit (id ∷ ids))

-- `JSON.parse` of what `JSON.stringify` made of a list of ids.
abbrev pub reparsed : Option (List ℕ) → Option ParsedItem
reparsed none = none
reparsed (some ids) = some (some (some (map (λ id. integer (pos id)) ids)))
