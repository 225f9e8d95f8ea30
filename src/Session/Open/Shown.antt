-- ===== src/Session/Open/Shown.antt =====
-- Whatever the order in which the answers come, the reader shows the article that is selected.
use urwhaturead.Prelude.{
  ℕ, ◌≡◌, refl, some, List, [], ◌∷◌, ◌++◌, find?-passes, nat_beq_iff, ℤ, nat_beq, arith, All,
  get_elem?, Option-cases, inl, inr,
}
use urwhaturead.Prelude.Host.{Host}
use urwhaturead.Session.Open.{
  Article, Reader, OpenCall, SummaryCall, clear_for, call_of, preview_of, begin_open, on_detail,
  close_floating_reader, open_feed_briefing,
}
use urwhaturead.Session.Open.Steps.{
  World, with_summaries, Step, open_article, initial, detail, open_error, cached_summary,
  close_reader, open_briefing, Reach, here, next, IsTracked, IsTrackedSummary, ShowsSelected,
  IsConsistent,
}
use urwhaturead.Session.Open.Answers.{
  on_initial-same, SameNumbers, All-map, All-get, opens-same, summaries-same, apply_initial-same,
  apply_initial-shown, apply_initial-spawned, on_initial-shown, on_initial-spawned, on_detail-same,
  on_detail-shown, on_open_error-same, on_open_error-shown, on_cached_summary-same,
  on_cached_summary-shown,
}

-- What a handler that leaves the numbers alone has to keep.
module _ {w : World} (v : IsConsistent w) where
  call-IsTracked : (i : ℕ) (c : OpenCall) → get_elem? w.opens i ≡ some c → IsTracked w.reader c
  call-IsTracked i c h = All-get (IsTracked w.reader) w.opens i c v.tracked h

  same-IsConsistent :
      (r : Reader)
      → SameNumbers w.reader r
      → ShowsSelected r
      → IsConsistent (record w { reader = r })
  same-IsConsistent r e h = record {
    shown = h;
    tracked = opens-same w.opens e v.tracked;
    tracked_summaries = summaries-same w.summaries e v.tracked_summaries;
  }

All-append {ℓ} :
    {A : Type ℓ} (P : A → Type 0) (xs ys : List A) → All P xs → All P ys → All P (xs ++ ys)
All-append P [] ys p q = q
All-append P (x ∷ xs) ys p q = (p.0, All-append P xs ys p.1 q)

-- The calls that were made before an opening hold older numbers.
older-opens :
    (now : ℤ) (id : ℕ) (r : Reader) (cs : List OpenCall)
    → All (IsTracked r) cs
    → All (IsTracked (clear_for now id r)) cs
unfolding clear_for
older-opens now id r cs =
    All-map (IsTracked r) (IsTracked (clear_for now id r))
      (λ c p. (
        omega (arith, p.0),
        omega (arith, p.1),
        λ q. absurd (omega (arith, p.0)),
        λ q. absurd (omega (arith, p.1)),
      ))
      cs

older-summaries :
    (now : ℤ) (id : ℕ) (r : Reader) (cs : List SummaryCall)
    → All (IsTrackedSummary r) cs
    → All (IsTrackedSummary (clear_for now id r)) cs
unfolding clear_for
older-summaries now id r cs =
    All-map (IsTrackedSummary r) (IsTrackedSummary (clear_for now id r))
      (λ c p. (omega (arith, p.0), λ q. absurd (omega (arith, p.0)))) cs

new_call-IsTracked : (now : ℤ) (id : ℕ) (r : Reader) → IsTracked (clear_for now id r) (call_of id r)
unfolding clear_for
new_call-IsTracked now id r = (omega arith, omega arith, λ q. refl, λ q. refl)

cleared-shown : (now : ℤ) (id : ℕ) (r : Reader) → ShowsSelected (clear_for now id r)
unfolding clear_for
cleared-shown now id r a l n s = cc

module _ (now : ℤ) (feed : List Article) (id : ℕ) (r : Reader) where
  begin_open-same : SameNumbers (clear_for now id r) (begin_open now feed id r).0
  unfolding begin_open
  begin_open-same = elim (Option-cases (preview_of id feed)) [
    | inl e ↦ rw e (record { articles = refl; summaries = refl; selected = refl })
    | inr (a, e) ↦ rw e (apply_initial-same now (call_of id r) _ (clear_for now id r))
  ]

  begin_open-shown : ShowsSelected (begin_open now feed id r).0
  unfolding begin_open
  begin_open-shown = elim (Option-cases (preview_of id feed)) [
    | inl e ↦ rw e (cleared-shown now id r)
    | inr (a, e) ↦ rw e (
        apply_initial-shown now (call_of id r) _ (clear_for now id r) (new_call-IsTracked now id r)
          (preview-id a e) (cleared-shown now id r))
  ]
    where
      preview-id : (a : Article) → preview_of id feed ≡ some a → a.id ≡ id
      preview-id a e =
          (nat_beq_iff a.id id).0 (find?-passes (λ (b : Article). nat_beq b.id id) feed a e)

  begin_open-spawned :
      All (IsTrackedSummary (begin_open now feed id r).0) (begin_open now feed id r).1
  unfolding begin_open
  begin_open-spawned = elim (Option-cases (preview_of id feed)) [
    | inl e ↦ rw e tt
    | inr (a, e) ↦ rw e (
        apply_initial-spawned now (call_of id r) _ (clear_for now id r)
          (new_call-IsTracked now id r))
  ]

open_article-IsConsistent :
    (w : World) (now : ℤ) (feed : List Article) (id : ℕ)
    → IsConsistent w
    → IsConsistent (
        with_summaries
          (begin_open now feed id w.reader)
          (call_of id w.reader ∷ w.opens)
          w.summaries)
open_article-IsConsistent w now feed id v =
    let same = begin_open-same now feed id w.reader in
    record {
      shown = begin_open-shown now feed id w.reader;
      tracked =
          opens-same (call_of id w.reader ∷ w.opens) same
            (new_call-IsTracked now id w.reader, older-opens now id w.reader w.opens v.tracked);
      tracked_summaries = All-append _ _ w.summaries (begin_open-spawned now feed id w.reader) (
          summaries-same w.summaries same
            (older-summaries now id w.reader w.summaries v.tracked_summaries));
    }

briefing-IsConsistent :
    (w : World) (now : ℤ)
    → IsConsistent w
    → IsConsistent (record w { reader = open_feed_briefing now w.reader })
unfolding open_feed_briefing
briefing-IsConsistent w now v = record {
  shown = λ a l n s. cc;
  tracked =
      All-map (IsTracked w.reader) (IsTracked (open_feed_briefing now w.reader))
        (λ c p. (
          omega (arith, p.0),
          omega (arith, p.1),
          λ q. absurd (omega (arith, p.0)),
          λ q. absurd (omega (arith, p.1)),
        ))
        w.opens v.tracked;
  tracked_summaries =
      All-map (IsTrackedSummary w.reader) (IsTrackedSummary (open_feed_briefing now w.reader))
        (λ c p. (omega (arith, p.0), λ q. absurd (omega (arith, p.0)))) w.summaries
        v.tracked_summaries;
}

Step-IsConsistent : {host : Host} {w u : World} → Step host w u → IsConsistent w → IsConsistent u
unfolding close_floating_reader
Step-IsConsistent (open_article {w} now feed id) v = open_article-IsConsistent w now feed id v
Step-IsConsistent (initial {w} now i c applied a h q) v =
    let t = call-IsTracked v i c h in
    let same = on_initial-same now c a w.reader applied in
    record {
      shown = on_initial-shown now c a w.reader applied t q v.shown;
      tracked = opens-same w.opens same v.tracked;
      tracked_summaries =
          All-append _ _ w.summaries (on_initial-spawned now c a w.reader applied t)
            (summaries-same w.summaries same v.tracked_summaries);
    }
Step-IsConsistent (detail {w} i c a h q) v =
    same-IsConsistent v (on_detail c a w.reader) (on_detail-same (ℤ.pos 0) c a w.reader)
      (on_detail-shown (ℤ.pos 0) c a w.reader (call-IsTracked v i c h) q v.shown)
Step-IsConsistent (open_error {w} i c message h) v =
    same-IsConsistent v _ (on_open_error-same c message w.reader)
      (on_open_error-shown c message w.reader v.shown)
Step-IsConsistent {host} (cached_summary {w} i c reply h) v =
    same-IsConsistent v _ (on_cached_summary-same host c reply w.reader)
      (on_cached_summary-shown host c reply w.reader v.shown)
Step-IsConsistent (close_reader {w} now) v =
    same-IsConsistent v _ (record { articles = refl; summaries = refl; selected = refl }) v.shown
Step-IsConsistent (open_briefing {w} now) v = briefing-IsConsistent w now v

-- From a state where this holds, whatever the user opens and in whatever order the calls answer, no
-- call holds a number that is not given yet, one with the newest numbers is for the selected
-- article, and a reader with nothing loading and no error shows that article.
pub Reach-IsConsistent :
    {host : Host} {v w : World} → IsConsistent v → Reach host v w → IsConsistent w
Reach-IsConsistent c here = c
Reach-IsConsistent c (next r s) = Step-IsConsistent s (Reach-IsConsistent c r)
