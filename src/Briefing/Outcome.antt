-- ===== src/Briefing/Outcome.antt =====
-- What is left when a generation has ended, whatever the replies.
use urwhaturead.Prelude.{
  ◌≡◌, refl, sym, ap, ◌∙◌, Bool, false, not, Option, none, some, List, ◌∷◌, Text, lookup,
  lookup-insert, insert, text_eq, beq_refl, is_some, suc, ℕ, zero, if◌then◌else◌,
}
use mathlib.Core.Path.{subst}
use urwhaturead.Task.{SummaryTaskStatus}
use urwhaturead.Task.Summary.{Reply, threw, answered}
use urwhaturead.Briefing.{
  Briefing, BriefingStatus, BriefingEnv, BriefingState, FeedBriefingSnapshot,
  FeedBriefingGenerationRequest, Accepted, finished, started, completed, thrown,
  feed_briefing_poll_attempts,
}
use urwhaturead.Briefing.Generate.{
  Outcome, after_result, by_status, poll_briefing, after_poll, after_accept, await_briefing,
  begin_briefing, end_with, generate_for, generate_feed_briefing, on_completed, on_thrown,
  put_status,
}

-- The error of a saved snapshot, if there is a snapshot.
abbrev pub snapshot_error :
    {Item : Type 0} → Option (FeedBriefingSnapshot Item) → Option (Option Text)
snapshot_error none = none
snapshot_error (some snapshot) = some snapshot.error

lookup-insert_self {ℓ} :
    {V : Type ℓ} (key : Text) (value : V) (entries : List (Text × V))
    → lookup key (insert key value entries) ≡ some value
lookup-insert_self key value entries =
    lookup-insert key key value entries
    ∙ ap (λ b. if b then some value else lookup key entries) (beq_refl key)

module _ {Item : Type 0} (env : BriefingEnv Item) (request : FeedBriefingGenerationRequest) where
  -- No call that is awaited touches the error on display.
  abbrev KeepsError : Option Text → Outcome env request → Type 0
  KeepsError e p = p.0.error ≡ e

  after_result-KeepsError :
      (s : BriefingState Item) (rest : Outcome env request) (r : Reply (Option (Briefing Item)))
      → KeepsError s.error rest
      → KeepsError s.error (after_result env request s rest r)
  after_result-KeepsError s rest (threw message) h = refl
  after_result-KeepsError s rest (answered none) h = h
  after_result-KeepsError s rest (answered (some b)) h = refl

  by_status-KeepsError :
      (s : BriefingState Item) (rest fetched : Outcome env request) (message : Option Text)
      (status : SummaryTaskStatus)
      → KeepsError s.error rest
      → KeepsError s.error fetched
      → KeepsError s.error (by_status env request s rest fetched message status)
  by_status-KeepsError s rest fetched message SummaryTaskStatus.failed h k = refl
  by_status-KeepsError s rest fetched message SummaryTaskStatus.succeeded h k = k
  by_status-KeepsError s rest fetched message SummaryTaskStatus.queued h k = h
  by_status-KeepsError s rest fetched message SummaryTaskStatus.running h k = h
  by_status-KeepsError s rest fetched message SummaryTaskStatus.idle h k = h

  after_poll-KeepsError :
      (i : ℕ) (s : BriefingState Item) (next_round : BriefingState Item → Outcome env request)
      (r : Reply BriefingStatus)
      → ((t : BriefingState Item) → KeepsError t.error (next_round t))
      → KeepsError s.error (after_poll env request i s next_round r)
  unfolding after_poll
  after_poll-KeepsError i s next_round (threw message) h = refl
  after_poll-KeepsError i s next_round (answered r) h =
      let s' = put_status env request (env.polled i) r s in
      by_status-KeepsError s' _ _ r.error r.status (h s')
        (after_result-KeepsError s' _ (env.result_reply i) (h s'))

  poll-KeepsError :
      (n i : ℕ) (s : BriefingState Item) → KeepsError s.error (poll_briefing env request n i s)
  unfolding poll_briefing
  poll-KeepsError zero i s = refl
  poll-KeepsError (suc n) i s =
      after_poll-KeepsError i s _ (env.status_reply i) (poll-KeepsError n (suc i))

  accept-KeepsError :
      (s : BriefingState Item) (r : Reply (Accepted Item))
      → KeepsError s.error (after_accept env request s r)
  unfolding after_accept
  accept-KeepsError s (threw message) = refl
  accept-KeepsError s (answered (finished b)) = refl
  accept-KeepsError s (answered (started r)) =
      poll-KeepsError feed_briefing_poll_attempts 0 (put_status env request env.accepted r s)

  abbrev pub IsSettledWith : BriefingState Item × Bool → Type 0
  IsSettledWith g =
      (g.0.loading ≡ false)
      × (is_some g.0.error ≡ not g.1)
      × (snapshot_error (lookup request.task_key g.0.snapshots) ≡ some g.0.error)

  end-IsSettledWith :
      (p : Outcome env request) → KeepsError none p → IsSettledWith (end_with env request p)
  unfolding on_completed on_thrown
  end-IsSettledWith (s, completed b) h = (
    refl,
    ap is_some h,
    ap snapshot_error (lookup-insert_self request.task_key _ s.snapshots) ∙ ap some (sym h),
  )
  end-IsSettledWith (s, thrown message) h =
      (refl, refl, ap snapshot_error (lookup-insert_self request.task_key _ s.snapshots))

  -- However the calls answer, fail or time out, a generation for at least one article ends with
  -- nothing loading, returns true exactly if no error is shown, and leaves a snapshot under its key
  -- that carries the shown error, or none.
  pub generate_feed_briefing_lem :
      (s : BriefingState Item) (id : ℕ) (ids : List ℕ)
      → request.article_ids ≡ id ∷ ids
      → IsSettledWith (generate_feed_briefing env request s)
  unfolding generate_feed_briefing await_briefing begin_briefing
  generate_feed_briefing_lem s id ids q =
      subst (λ article_ids. IsSettledWith (generate_for env request article_ids s)) (sym q)
        (end-IsSettledWith (await_briefing env request (begin_briefing env request s))
          (accept-KeepsError (begin_briefing env request s) env.accept_reply))
