-- ===== src/Article/Tests.antt =====
-- Concrete runs of the stored lists.
use urwhaturead.Prelude.{◌≡◌, refl, [], ◌∷◌, pos, negsuc, includes, nat_eq, arith}
use urwhaturead.Article.{
  integer, other, normalize_read_article_ids, normalize_favorite_article_ids, normalize_article_id,
  parse_stored, stored_item, reparsed, max_stored_read_articles, normalize_from,
}
use urwhaturead.Article.Stored.{
  parse_stored-stored_item, normalize_read_article_ids-IsNormalized, IsNormalized,
}

favorites_of_mixed :
    normalize_favorite_article_ids (
      integer (pos 7)
      ∷ other
      ∷ integer (negsuc 1)
      ∷ integer (pos 7)
      ∷ integer (pos 0)
      ∷ integer (pos 4)
      ∷ [])
    ≡ 7 ∷ 4 ∷ []
unfolding normalize_favorite_article_ids normalize_from includes normalize_article_id
favorites_of_mixed = refl

parse_stored-stored_item_example :
    parse_stored normalize_read_article_ids
      (reparsed (stored_item max_stored_read_articles (7 ∷ 4 ∷ [])))
    ≡ 7 ∷ 4 ∷ []
unfolding includes
parse_stored-stored_item_example =
    parse_stored-stored_item (7 ∷ 4 ∷ []) (refl, (refl, tt)) (omega arith, (omega arith, tt))
      (omega arith)

normalize_read_article_ids-IsNormalized_example :
    IsNormalized max_stored_read_articles
      (normalize_read_article_ids (integer (pos 7) ∷ other ∷ integer (pos 7) ∷ []))
normalize_read_article_ids-IsNormalized_example =
    normalize_read_article_ids-IsNormalized (integer (pos 7) ∷ other ∷ integer (pos 7) ∷ [])
