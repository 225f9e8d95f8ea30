-- ===== src/CatchUp/Races.antt =====
-- Overlapping refreshes, generations and moves of the checkpoint.
use urwhaturead.Prelude.{
  ℕ, suc, ◌≤◌, ◌≡◌, refl, sym, ◌∙◌, Bool, true, false, not, ◌||◌, Option, none, some, List, [], ◌∷◌,
  filter, get_elem?, All, All-filter, nat_eq, ◌==◌, ltb, Text, has_key, has_key-drop_key, arith,
  Bool-cases, inl, inr,
}
use urwhaturead.Prelude.Host.{Host}
use urwhaturead.Stream.{is_nil}
use urwhaturead.Task.Summary.{Reply, threw, answered}
use urwhaturead.Briefing.{FeedBriefingGenerationRequest}
use urwhaturead.CatchUp.{
  CatchUpState, RefreshCall, GenerateCall, FeedAnswer, total_of, begin_refresh, on_refresh_reply,
  begin_generate, on_generate_reply, on_generated, mark_caught_up,
}

-- The state with the refreshes and the count of the generations that have not ended.
pub record World : Type 0 where
  pub state : CatchUpState
  pub refreshes : List RefreshCall
  pub generations : ℕ

abbrev pub number_of : RefreshCall → ℕ
number_of c = c.request_id

abbrev pub left : RefreshCall → List RefreshCall → List RefreshCall
left c = filter (λ d. not (number_of d == number_of c))

abbrev pub with_refresh : CatchUpState × RefreshCall → World → World
with_refresh p w = record w { state = p.0; refreshes = p.1 ∷ w.refreshes }

-- A generation that has started no request has ended.
abbrev pub after_reply : CatchUpState × Option FeedBriefingGenerationRequest → ℕ → World → World
after_reply (s, none) generations w = record w { state = s; generations = generations }
after_reply (s, some request) generations w = record w { state = s; generations = suc generations }

-- Everything happens at any time, and answers come in any order.
pub data Step (host : Host) : World → World → Type 0 where
  refresh : {w : World} → Step host w (with_refresh (begin_refresh w.state) w)
  refresh_reply :
      {w : World} (i : ℕ) (c : RefreshCall) (r : Reply FeedAnswer)
      → get_elem? w.refreshes i ≡ some c
      → Step host w
          (record w { state = on_refresh_reply c r w.state; refreshes = left c w.refreshes })
  generate :
      {w : World} (ai_model : Text)
      → Step host w (record w {
        state = (begin_generate ai_model w.state).0;
        generations = suc w.generations;
      })
  generate_reply :
      {w : World} (c : GenerateCall) (r : Reply FeedAnswer) (generations : ℕ)
      → w.generations ≡ suc generations
      → Step host w (after_reply (on_generate_reply host c r w.state) generations w)
  generated :
      {w : World} (r : Reply Bool) (generations : ℕ)
      → w.generations ≡ suc generations
      → Step host w (record w { state = on_generated r w.state; generations = generations })
  mark : {w : World} (now : Text) → Step host w (record w { state = mark_caught_up now w.state })

pub data Reach (host : Host) (v : World) : World → Type 0 where
  here : Reach host v v
  next : {w u : World} → Reach host v w → Step host w u → Reach host v u

abbrev pub IsTracked : CatchUpState → RefreshCall → Type 0
IsTracked s c =
    (c.request_id ≤ s.request_sequence)
    × (c.request_id ≡ s.request_sequence → c.since ≡ s.checkpoint)

-- No load is shown unless a refresh with the newest number, or a generation, has not ended; and a
-- refresh with the newest number asks from the checkpoint that is shown.
pub record IsCurrent (w : World) : Type 0 where
  pub loads :
      w.state.loading ≡ true
      → (has_key number_of w.state.request_sequence w.refreshes || ltb 0 w.generations) ≡ true
  pub tracked : All (IsTracked w.state) w.refreshes

IsTracked-newer :
    (s t : CatchUpState) (cs : List RefreshCall)
    → t.request_sequence ≡ suc s.request_sequence
    → All (IsTracked s) cs
    → All (IsTracked t) cs
IsTracked-newer s t [] e h = tt
IsTracked-newer s t (c ∷ cs) e h =
    ((omega (arith, h.0.0), λ q. absurd (omega (arith, h.0.0))), IsTracked-newer s t cs e h.1)

IsTracked-same :
    (s t : CatchUpState) (cs : List RefreshCall)
    → t.request_sequence ≡ s.request_sequence
    → t.checkpoint ≡ s.checkpoint
    → All (IsTracked s) cs
    → All (IsTracked t) cs
IsTracked-same s t [] e f h = tt
IsTracked-same s t (c ∷ cs) e f h =
    ((omega (arith, h.0.0), λ q. h.0.1 (q ∙ e) ∙ sym f), IsTracked-same s t cs e f h.1)

module _ (w : World) (v : IsCurrent w) where
  refresh-IsCurrent : IsCurrent (with_refresh (begin_refresh w.state) w)
  unfolding begin_refresh
  refresh-IsCurrent = record {
    loads = λ l. ground arith;
    tracked = (
      (omega arith, λ q. refl),
      IsTracked-newer w.state (begin_refresh w.state).0 w.refreshes refl v.tracked,
    );
  }

  refresh_reply-IsCurrent :
      (c : RefreshCall) (r : Reply FeedAnswer)
      → IsCurrent
          (record w { state = on_refresh_reply c r w.state; refreshes = left c w.refreshes })
  unfolding on_refresh_reply
  refresh_reply-IsCurrent c r =
      let gone = has_key-drop_key number_of c.request_id w.state.request_sequence w.refreshes in
      record {
        loads = λ l. ground (arith, gone, v.loads);
        tracked =
            IsTracked-same w.state (on_refresh_reply c r w.state) (left c w.refreshes)
              (ground arith) (ground arith)
              (All-filter (IsTracked w.state) (λ d. not (number_of d == number_of c)) w.refreshes
                v.tracked);
      }

  generate-IsCurrent :
      (ai_model : Text)
      → IsCurrent (record w {
        state = (begin_generate ai_model w.state).0;
        generations = suc w.generations;
      })
  unfolding begin_generate
  generate-IsCurrent ai_model = record {
    loads = λ l. ground arith;
    tracked =
        IsTracked-same w.state (begin_generate ai_model w.state).0 w.refreshes refl refl v.tracked;
  }

  generate_reply-IsCurrent :
      (host : Host) (c : GenerateCall) (r : Reply FeedAnswer) (generations : ℕ)
      → IsCurrent (after_reply (on_generate_reply host c r w.state) generations w)
  unfolding on_generate_reply
  generate_reply-IsCurrent host c (threw message) generations = record {
    loads = λ l. ground arith;
    tracked =
        IsTracked-same w.state (on_generate_reply host c (threw message) w.state).0 w.refreshes refl
          refl v.tracked;
  }
  generate_reply-IsCurrent host c (answered r) generations =
      elim (Bool-cases (is_nil r.article_ids)) [
        | inl e ↦ rw e (record {
          loads = λ l. ground arith;
          tracked =
              IsTracked-same w.state (record w.state { loading = false }) w.refreshes refl refl
                v.tracked;
        })
        | inr e ↦ rw e (record {
          loads = λ l. ground arith;
          tracked =
              IsTracked-same w.state (record w.state { count = total_of r }) w.refreshes refl refl
                v.tracked;
        })
      ]

  generated-IsCurrent :
      (r : Reply Bool) (generations : ℕ)
      → IsCurrent (record w { state = on_generated r w.state; generations = generations })
  unfolding on_generated
  generated-IsCurrent r generations = record {
    loads = λ l. ground arith;
    tracked =
        IsTracked-same w.state (on_generated r w.state) w.refreshes (ground arith) (ground arith)
          v.tracked;
  }

  mark-IsCurrent : (now : Text) → IsCurrent (record w { state = mark_caught_up now w.state })
  unfolding mark_caught_up
  mark-IsCurrent now = record {
    loads = λ l. ground arith;
    tracked = IsTracked-newer w.state (mark_caught_up now w.state) w.refreshes refl v.tracked;
  }

Step-IsCurrent : {host : Host} {w u : World} → Step host w u → IsCurrent w → IsCurrent u
Step-IsCurrent (refresh {w}) v = refresh-IsCurrent w v
Step-IsCurrent (refresh_reply {w} i c r h) v = refresh_reply-IsCurrent w v c r
Step-IsCurrent (generate {w} ai_model) v = generate-IsCurrent w v ai_model
Step-IsCurrent {host} (generate_reply {w} c r generations h) v =
    generate_reply-IsCurrent w v host c r generations
Step-IsCurrent (generated {w} r generations h) v = generated-IsCurrent w v r generations
Step-IsCurrent (mark {w} now) v = mark-IsCurrent w v now

-- However refreshes, generations and moves of the checkpoint overlap and fail, no load is shown
-- unless the newest refresh or a generation has not ended, and the newest refresh asks from the checkpoint that is shown.
pub Reach-IsCurrent : {host : Host} {v w : World} → IsCurrent v → Reach host v w → IsCurrent w
Reach-IsCurrent v here = v
Reach-IsCurrent v (next r s) = Step-IsCurrent s (Reach-IsCurrent v r)

stale :
    (s : CatchUpState) (now : Text) (c : RefreshCall) (r : Reply FeedAnswer)
    → c.request_id ≤ s.request_sequence
    → on_refresh_reply c r (mark_caught_up now s) ≡ mark_caught_up now s
unfolding on_refresh_reply mark_caught_up
stale s now c r h = ground arith

stale-All :
    (s : CatchUpState) (now : Text) (r : Reply FeedAnswer) (cs : List RefreshCall)
    → All (IsTracked s) cs
    → All (λ c. on_refresh_reply c r (mark_caught_up now s) ≡ mark_caught_up now s) cs
stale-All s now r [] h = tt
stale-All s now r (c ∷ cs) h = (stale s now c r h.0.0, stale-All s now r cs h.1)

-- Behind a move of the checkpoint, the answers to the refreshes that were under way change nothing.
-- The answer to a generation that was under way still sets the count, of the articles since the
-- checkpoint that the generation asked from, while the new checkpoint stays.
pub mark_caught_up_lem :
    {host : Host} {v w : World} (now : Text) (r : Reply FeedAnswer) (c : GenerateCall)
    (p : FeedAnswer)
    → IsCurrent v
    → Reach host v w
    → let marked = mark_caught_up now w.state in
      All (λ d. on_refresh_reply d r marked ≡ marked) w.refreshes
      × (marked.count ≡ 0)
      × ((on_generate_reply host c (answered p) marked).0.count ≡ total_of p)
      × ((on_generate_reply host c (answered p) marked).0.checkpoint ≡ now)
unfolding mark_caught_up on_generate_reply
mark_caught_up_lem {host} {v} {w} now r c p settled reach = (
  unfold mark_caught_up in
      stale-All w.state now r w.refreshes (Reach-IsCurrent settled reach).tracked,
  refl,
  ground arith,
  ground arith,
)
