-- ===== src/Panel/Selected.antt =====
-- The handlers of many sources end and leave nothing running.
use urwhaturead.Prelude.{
  ℕ, text_eq, length, ltb, ◌≡◌, refl, Bool, true, false, Option, none, some, List, arith,
  Bool-cases, inl, inr,
}
use urwhaturead.Stream.{is_nil}
use urwhaturead.Panel.{Call, Panel, Params, Service}
use urwhaturead.Panel.Action.{Action, set_bulk, positive_int}
use urwhaturead.Panel.Bulk.{
  Outcome, for_all, SourceAction, update_polls, on_run_bulk_source_action,
  on_run_bulk_poll_interval_update, on_run_bulk_ai_briefing_action,
}
use urwhaturead.Panel.Create.{created_urls, on_batch_create_sources}
use urwhaturead.Panel.Outcomes.{
  Does, for_all_lem, poll_outcome, poll_requests, poll-Does, ai-Does, on_run_bulk_source_action_lem,
}
use urwhaturead.Panel.Batch.{urls, tags, create_all_lem, results}
use urwhaturead.Panel.Flags.{flags, no_flags, IsIdle, Settles}

module _ (service : Service) (params : Params) where
  for_all-flags :
      (act : ℕ → Action Outcome) (outcome : ℕ → Outcome) (requests : ℕ → List Call)
      → Does act outcome requests
      → (ids : List ℕ) (s : Panel) → flags (for_all act ids s).1 ≡ flags s
  for_all-flags act outcome requests does ids s =
      rw (for_all_lem act outcome requests does ids s) refl

  no_batch : (s : Panel) → IsIdle s → flags (record s { batch_creating_sources = false }) ≡ no_flags
  no_batch s i = ground arith

  no_bulk : (s : Panel) → IsIdle s → flags (set_bulk none s) ≡ no_flags
  no_bulk s i = ground arith

  pub batch-Settles : Settles (on_batch_create_sources service params)
  unfolding on_batch_create_sources
  batch-Settles s i = elim (Bool-cases (is_nil (urls service params))) [
    | inl e ↦ rw e (refl, i)
    | inr e ↦
        rw
          (
            e,
            create_all_lem service (tags service params) params (urls service params)
                (record s { batch_creating_sources = true; batch_create_result = none }),
          )
          (elim (Bool-cases (
            ltb 0 (
              length
                (created_urls (results service (tags service params) (urls service params)))))) [
                  | inl p ↦ rw p (refl, no_batch s i)
                  | inr p ↦ rw p (refl, no_batch s i)
                ])
  ]

  pub bulk-Settles :
      (action : SourceAction) → Settles (on_run_bulk_source_action service params action)
  bulk-Settles action s i = elim (Bool-cases (is_nil params.selected_source_ids)) [
    | inl e ↦ unfold on_run_bulk_source_action in rw e (refl, i)
    | inr e ↦ rw (on_run_bulk_source_action_lem service params action s e) (refl, no_bulk s i)
  ]

  pub update_polls-Settles : (sec : Option ℕ) → Settles (update_polls service params sec)
  update_polls-Settles none s i = (refl, i)
  update_polls-Settles (some sec) s i =
      rw
        (for_all_lem _ (poll_outcome service params sec) (poll_requests service params sec)
          (poll-Does service params sec) params.selected_source_ids)
        (refl, no_bulk s i)

  pub poll-Settles : Settles (on_run_bulk_poll_interval_update service params)
  unfolding on_run_bulk_poll_interval_update
  poll-Settles s i = elim (Bool-cases (is_nil params.selected_source_ids)) [
    | inl e ↦ rw e (refl, i)
    | inr e ↦ rw e (update_polls-Settles (positive_int params.bulk_poll_sec) s i)
  ]

  pub ai-Settles :
      (enabled : Bool) (interval : Option ℕ)
      → Settles (on_run_bulk_ai_briefing_action service params enabled interval)
  unfolding on_run_bulk_ai_briefing_action
  ai-Settles enabled interval s i = elim (Bool-cases (is_nil params.selected_source_ids)) [
    | inl e ↦ rw e (refl, i)
    | inr e ↦
        rw
          (
            e,
            for_all_lem _ _ _ (ai-Does service params enabled interval) params.selected_source_ids,
          )
          (refl, no_bulk s i)
  ]
