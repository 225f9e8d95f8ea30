-- ===== src/Panel/Batch.antt =====
-- A batch of URLs: what is created, what failed, and what is reloaded.
use urwhaturead.Prelude.{
  ◌≡◌, refl, ◌∙◌, ◌&&◌, includes, trim, distinct_from-IsDistinct, includes-distinct_from,
  includes-filter, Bool, true, false, not, Option, none, some, List, [], ◌∷◌, ◌++◌, map, filter,
  length, any, Bool-cases, inl, inr, ltb, Text, arith, is_empty, text_eq, IsDistinct,
}
use mathlib.Core.List.{append_assoc}
use urwhaturead.Stream.{is_nil}
use urwhaturead.Task.Summary.{Reply, threw, answered}
use urwhaturead.Sources.{parse_source_tag_input}
use urwhaturead.Feed.{split_from}
use urwhaturead.Panel.{Panel, Params, Service, Call, create_source, load_sources, refresh_status}
use urwhaturead.Panel.Create.{
  Creation, created_urls, failed_urls, batch_source, create_all, create_one, parse_rss_lines,
  on_batch_create_sources,
}

abbrev pub accepts : Reply (Unit {0}) → Bool
accepts (answered a) = true
accepts (threw message) = false

abbrev pub refusal : Reply (Unit {0}) → Option Text
refusal (answered a) = none
refusal (threw message) = some message

-- The calls that create the URLs, newest first.
pub creations : List Text → List Text → List Call
creations tags [] = []
creations tags (url ∷ urls) = creations tags urls ++ (create_source (batch_source tags url) ∷ [])

module _ (service : Service) (tags : List Text) where
  abbrev pub created : Text → Bool
  created url = accepts (service.create (batch_source tags url))

  abbrev pub results : List Text → List Creation
  results = map (λ url. (url, service.create (batch_source tags url)))

  pub create_all_lem :
      (params : Params) (urls : List Text) (s : Panel)
      → create_all service params tags urls s
        ≡ (results urls, record s { calls = creations tags urls ++ s.calls })
  unfolding create_all creations
  create_all_lem params [] s = refl
  create_all_lem params (url ∷ urls) s =
      rw (create_all_lem params urls (create_one service params tags url s).1, append_assoc) refl

  created_urls-results : (urls : List Text) → created_urls (results urls) ≡ filter created urls
  created_urls-results [] = refl
  created_urls-results (url ∷ urls) = ground (arith, created_urls-results urls)

  -- The URLs that the service refuses, each with the message of its answer, in their order.
  pub refused : List Text → List (Text × Text)
  refused [] = []
  refused (url ∷ urls) = elim (refusal (service.create (batch_source tags url))) [
    | none ↦ refused urls
    | some message ↦ (url, message) ∷ refused urls
  ]

  failed_urls-results : (urls : List Text) → failed_urls (results urls) ≡ refused urls
  unfolding refused
  failed_urls-results [] = refl
  failed_urls-results (url ∷ urls) = ground (arith, failed_urls-results urls)

-- `parseRSSLines` gives each line once, and a text is among them exactly if it is not empty and is
-- one of the lines of the input with its outer white space cut off.
pub parse_rss_lines_lem :
    (input line : Text)
    → IsDistinct (parse_rss_lines input)
      × (includes (parse_rss_lines input) line
          ≡ (not (is_empty line) && includes (map trim (split_from 10 [] input)) line))
unfolding parse_rss_lines includes
parse_rss_lines_lem input line =
    let lines : List Text = map trim (split_from 10 [] input) in
    (
      distinct_from-IsDistinct [] (filter (λ l. not (is_empty l)) lines) tt,
      includes-distinct_from [] (filter (λ l. not (is_empty l)) lines) line
          ∙ includes-filter (λ l. not (is_empty l)) lines line,
    )

length-filter-any : (p : Text → Bool) (xs : List Text) → ltb 0 (length (filter p xs)) ≡ any p xs
length-filter-any p [] = refl
length-filter-any p (x ∷ xs) = ground (arith, length-filter-any p xs)

abbrev pub batch_reloads : Bool → List Call
batch_reloads true = refresh_status ∷ load_sources ∷ []
batch_reloads false = []

module _ (service : Service) (params : Params) where
  abbrev pub urls : List Text
  urls = parse_rss_lines params.batch_source_urls

  abbrev pub tags : List Text
  tags = parse_source_tag_input service.host params.batch_source_tags

  -- With at least one URL, the batch ends; its calls are one creation for each URL, in their order, and
  -- then the reloads if a creation succeeded; its result lists the URLs that were created and
  -- those that were refused with the messages of their answers, each in the order of the input.
  pub on_batch_create_sources_lem :
      (s : Panel)
      → is_nil urls ≡ false
      → ((on_batch_create_sources service params s).0 ≡ answered tt)
        × ((on_batch_create_sources service params s).1.calls
            ≡ batch_reloads (any (created service tags) urls) ++ (creations tags urls ++ s.calls))
        × ((on_batch_create_sources service params s).1.batch_create_result
            ≡ some (record {
              success = filter (created service tags) urls;
              failed = refused service tags urls;
            }))
  unfolding on_batch_create_sources
  on_batch_create_sources_lem s some_urls =
      rw
        (
          some_urls,
          create_all_lem service tags params urls
              (record s { batch_creating_sources = true; batch_create_result = none }),
          created_urls-results service tags urls,
          failed_urls-results service tags urls,
          length-filter-any (created service tags) urls,
        )
        (elim (Bool-cases (any (created service tags) urls)) [
          | inl e ↦ rw e (refl, refl, refl)
          | inr e ↦ rw e (refl, refl, refl)
        ])
