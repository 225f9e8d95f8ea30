-- ===== src/CatchUp/Tests.antt =====
-- Concrete runs of the catch-up.
use urwhaturead.Prelude.{
  ◌≡◌, refl, false, none, some, [], ◌∷◌, All, codes, pos, trim, trim_start, is_white_space,
}
use urwhaturead.Prelude.Samples.{small_host}
use urwhaturead.Task.Summary.{answered}
use urwhaturead.CatchUp.{
  CatchUpState, FeedAnswer, initial_checkpoint, begin_refresh, on_refresh_reply, begin_generate,
  on_generate_reply, mark_caught_up,
}
use urwhaturead.CatchUp.Races.{
  World, Reach, Step, IsCurrent, with_refresh, Reach-IsCurrent, mark_caught_up_lem,
}

abbrev state : CatchUpState
state = record {
  checkpoint = codes "t1";
  count = 0;
  loading = false;
  error = none;
  request_sequence = 4;
  stored_checkpoint = none;
  notice = none;
  opened_briefings = 0;
}

abbrev start : World
start = record { state = state; refreshes = []; generations = 0 }

abbrev both : World
both =
    let w : World = with_refresh (begin_refresh state) start in
    record w { state = (begin_generate (codes "m") w.state).0; generations = 1 }

start-IsCurrent : IsCurrent start
start-IsCurrent = record { loads = λ l. cc; tracked = tt }

Reach-both : Reach small_host start both
Reach-both = Reach.next (Reach.next Reach.here Step.refresh) (Step.generate (codes "m"))

Reach-IsCurrent_example : IsCurrent both
Reach-IsCurrent_example = Reach-IsCurrent start-IsCurrent Reach-both

abbrev three : FeedAnswer
three = record { article_ids = 7 ∷ 8 ∷ 9 ∷ []; total_count = none }

mark_caught_up_lem_example :
    let marked = mark_caught_up (codes "t2") both.state in
    All (λ d. on_refresh_reply d (answered three) marked ≡ marked) both.refreshes
    × (marked.count ≡ 0)
    × ((on_generate_reply small_host
          (record { ai_model = codes "m"; since = codes "t1" })
          (answered three)
          marked).0.count
        ≡ 3)
    × ((on_generate_reply small_host
          (record { ai_model = codes "m"; since = codes "t1" })
          (answered three)
          marked).0.checkpoint
        ≡ codes "t2")
mark_caught_up_lem_example =
    mark_caught_up_lem (codes "t2") (answered three)
      (record { ai_model = codes "m"; since = codes "t1" }) three start-IsCurrent Reach-both

-- A stored instant that is no date is passed over.
bad_checkpoint :
    initial_checkpoint small_host (λ t. codes "day") (some (codes " ")) (pos 5) ≡ codes "day"
unfolding initial_checkpoint trim trim_start is_white_space
bad_checkpoint = refl
