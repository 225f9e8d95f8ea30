-- ===== src/Session/Open/Answers.antt =====
-- What the answer of each call keeps.
use urwhaturead.Prelude.{
  ℕ, suc, ◌≡◌, sym, ◌∙◌, Bool, true, false, Option, none, some, List, [], ◌∷◌, ℤ, Text, arith, All,
  get_elem?, Bool-cases, inl, inr,
}
use mathlib.Core.Path.{subst}
use urwhaturead.Prelude.Host.{Host}
use urwhaturead.Task.Summary.{CachedSummary, Reply, threw, answered}
use urwhaturead.Session.Open.{
  Article, Reader, OpenCall, SummaryCall, is_current, apply_initial, on_initial, on_detail,
  on_open_error, on_cached_summary,
}
use urwhaturead.Session.Open.Steps.{IsTracked, IsTrackedSummary, ShowsSelected}

-- Two readers that agree on the numbers and on the selected id.
pub record SameNumbers (r s : Reader) : Type 0 where
  pub articles : r.article_request_seq ≡ s.article_request_seq
  pub summaries : r.summary_request_seq ≡ s.summary_request_seq
  pub selected : r.selected_article_id ≡ s.selected_article_id

pub All-map {ℓ} :
    {A : Type ℓ} (P Q : A → Type 0) → ((a : A) → P a → Q a) → (xs : List A) → All P xs → All Q xs
All-map P Q h [] p = tt
All-map P Q h (x ∷ xs) p = (h x p.0, All-map P Q h xs p.1)

pub All-get {ℓ} :
    {A : Type ℓ} (P : A → Type 0) (xs : List A) (i : ℕ) (a : A)
    → All P xs
    → get_elem? xs i ≡ some a
    → P a
All-get P [] i a p h = absurd (ground arith)
All-get P (x ∷ xs) ℕ.zero a p h = let e : x ≡ a = cc in subst P e p.0
All-get P (x ∷ xs) (suc i) a p h = All-get P xs i a p.1 h

pub opens-same :
    {r s : Reader} (cs : List OpenCall)
    → SameNumbers r s
    → All (IsTracked r) cs
    → All (IsTracked s) cs
opens-same {r} {s} cs e =
    All-map (IsTracked r) (IsTracked s)
      (λ c p. (
        omega (arith, e.articles),
        omega (arith, e.summaries),
        λ q. sym e.selected ∙ p.2 (q ∙ sym e.articles),
        λ q. sym e.selected ∙ p.3 (q ∙ sym e.summaries),
      ))
      cs

pub summaries-same :
    {r s : Reader} (cs : List SummaryCall)
    → SameNumbers r s
    → All (IsTrackedSummary r) cs
    → All (IsTrackedSummary s) cs
summaries-same {r} {s} cs e =
    All-map (IsTrackedSummary r) (IsTrackedSummary s)
      (λ c p. (omega (arith, e.summaries), λ q. sym e.selected ∙ p.1 (q ∙ sym e.summaries))) cs

pub current-eq :
    (c : OpenCall) (r : Reader)
    → is_current c r ≡ true
    → c.article_request_id ≡ r.article_request_seq
unfolding is_current
current-eq c r h = ground arith

module _ (now : ℤ) (c : OpenCall) (a : Article) (r : Reader) where
  pub apply_initial-same : SameNumbers r (apply_initial now c a r).0
  unfolding apply_initial
  apply_initial-same = ground arith

  pub apply_initial-shown :
      IsTracked r c
      → a.id ≡ c.article_id
      → ShowsSelected r
      → ShowsSelected (apply_initial now c a r).0
  unfolding apply_initial
  apply_initial-shown t q h = elim (Bool-cases (is_current c r)) [
    | inl e ↦ rw e (λ b l n s. cc (t.2 (current-eq c r e)))
    | inr e ↦ rw e h
  ]

  pub apply_initial-spawned :
      IsTracked r c → All (IsTrackedSummary (apply_initial now c a r).0) (apply_initial now c a r).1
  unfolding apply_initial
  apply_initial-spawned t = elim (Bool-cases (is_current c r)) [
    | inl e ↦ rw e ((t.1, t.3), tt)
    | inr e ↦ rw e tt
  ]

  module _ (applied : Bool) where
    pub on_initial-same : SameNumbers r (on_initial now c applied a r).0
    unfolding on_initial apply_initial
    on_initial-same = ground arith

  pub on_initial-shown :
      (applied : Bool)
      → IsTracked r c
      → a.id ≡ c.article_id
      → ShowsSelected r
      → ShowsSelected (on_initial now c applied a r).0
  unfolding on_initial
  on_initial-shown false t q h = apply_initial-shown t q h
  on_initial-shown true t q h = elim (Bool-cases (is_current c r)) [
    | inl e ↦ rw e (λ b l n s. cc (t.2 (current-eq c r e)))
    | inr e ↦ rw e h
  ]

  pub on_initial-spawned :
      (applied : Bool)
      → IsTracked r c
      → All (IsTrackedSummary (on_initial now c applied a r).0) (on_initial now c applied a r).1
  unfolding on_initial
  on_initial-spawned false t = apply_initial-spawned t
  on_initial-spawned true t = tt

  pub on_detail-same : SameNumbers r (on_detail c a r)
  unfolding on_detail
  on_detail-same = ground arith

  pub on_detail-shown :
      IsTracked r c → a.id ≡ c.article_id → ShowsSelected r → ShowsSelected (on_detail c a r)
  unfolding on_detail
  on_detail-shown t q h = elim (Bool-cases (is_current c r)) [
    | inl e ↦ rw e (λ b l n s. cc (t.2 (current-eq c r e)))
    | inr e ↦ rw e h
  ]

pub on_open_error-same :
    (c : OpenCall) (message : Text) (r : Reader) → SameNumbers r (on_open_error c message r)
unfolding on_open_error
on_open_error-same c message r = ground arith

pub on_open_error-shown :
    (c : OpenCall) (message : Text) (r : Reader)
    → ShowsSelected r
    → ShowsSelected (on_open_error c message r)
unfolding on_open_error
on_open_error-shown c message r h = elim (Bool-cases (is_current c r)) [
  | inl e ↦ rw e (λ b l n s. cc)
  | inr e ↦ rw e h
]

pub on_cached_summary-same :
    (host : Host) (c : SummaryCall) (reply : Reply (Option CachedSummary)) (r : Reader)
    → SameNumbers r (on_cached_summary host c reply r)
unfolding on_cached_summary
on_cached_summary-same host c (threw message) r = ground arith
on_cached_summary-same host c (answered none) r = ground arith
on_cached_summary-same host c (answered (some s)) r = ground arith

pub on_cached_summary-shown :
    (host : Host) (c : SummaryCall) (reply : Reply (Option CachedSummary)) (r : Reader)
    → ShowsSelected r
    → ShowsSelected (on_cached_summary host c reply r)
unfolding on_cached_summary
on_cached_summary-shown host c (threw message) r h a = ground (arith, h a)
on_cached_summary-shown host c (answered none) r h a = ground (arith, h a)
on_cached_summary-shown host c (answered (some s)) r h a = ground (arith, h a)
