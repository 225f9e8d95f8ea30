-- ===== src/Panel/Outcomes.antt =====
-- What the handlers of all selected sources do, source by source.
use urwhaturead.Prelude.{
  ℕ, ◌≡◌, refl, Bool, true, false, not, Option, none, some, List, [], ◌∷◌, ◌++◌, map, filter,
  length, if◌then◌else◌, lookup, nat_eq, arith,
}
use mathlib.Core.List.{append_assoc}
use urwhaturead.Stream.{is_nil}
use urwhaturead.Task.Summary.{Reply, threw, answered}
use urwhaturead.Sources.{Source}
use urwhaturead.Panel.{
  Panel, Params, Service, Call, SourcePatch, empty_patch, update_source, refresh_source,
  test_source, load_sources, load_feed, refresh_status,
}
use urwhaturead.Panel.Action.{Action, set_bulk}
use urwhaturead.Panel.Bulk.{
  Outcome, succeeded, skipped, failed, is_failed, for_all, SourceAction, enable, disable, refresh,
  test, act_by_id, act_if_known, poll_one, ai_by_id, ai_if_known, interval_or, poll_patch, ai_patch,
  reload_after, notice_kind, counted, bulk_of, on_run_bulk_source_action,
}

abbrev pub reply_outcome : {A : Type 0} → Reply A → Outcome
reply_outcome (answered a) = succeeded
reply_outcome (threw message) = failed message

-- The calls for a list of ids, newest first.
pub calls_for : (ℕ → List Call) → List ℕ → List Call
calls_for requests [] = []
calls_for requests (id ∷ ids) = calls_for requests ids ++ requests id

-- An action that makes `requests` and ends with `outcome`, for each id.
abbrev pub Does : (ℕ → Action Outcome) → (ℕ → Outcome) → (ℕ → List Call) → Type 0
Does act outcome requests =
    (id : ℕ) (s : Panel)
    → act id s ≡ (answered (outcome id), record s { calls = requests id ++ s.calls })

pub for_all_lem :
    (act : ℕ → Action Outcome) (outcome : ℕ → Outcome) (requests : ℕ → List Call)
    → Does act outcome requests
    → (ids : List ℕ) (s : Panel)
    → for_all act ids s
      ≡ (answered (map outcome ids), record s { calls = calls_for requests ids ++ s.calls })
unfolding for_all calls_for
for_all_lem act outcome requests does [] s = refl
for_all_lem act outcome requests does (id ∷ ids) s =
    rw
      (
        does id s,
        for_all_lem act outcome requests does ids (record s { calls = requests id ++ s.calls }),
        append_assoc,
      )
      refl

-- The two sources' states in which an action asks nothing: it would change nothing.
abbrev pub is_moot : SourceAction → Option Source → Bool
is_moot action none = true
is_moot enable (some source) = source.enabled
is_moot disable (some source) = not source.enabled
is_moot refresh (some source) = false
is_moot test (some source) = false

abbrev enabled_patch : Bool → SourcePatch
enabled_patch enabled = record empty_patch { enabled = some enabled }

abbrev pub call_of : SourceAction → ℕ → Call
call_of enable id = update_source id (enabled_patch true)
call_of disable id = update_source id (enabled_patch false)
call_of refresh id = refresh_source id
call_of test id = test_source id

abbrev pub reloads : SourceAction → List Call
reloads enable = refresh_status ∷ load_feed none ∷ load_sources ∷ []
reloads disable = refresh_status ∷ load_feed none ∷ load_sources ∷ []
reloads refresh = refresh_status ∷ load_feed none ∷ []
reloads test = refresh_status ∷ []

pub reload_after_lem :
    (action : SourceAction) (s : Panel)
    → reload_after action s ≡ (answered tt, record s { calls = reloads action ++ s.calls })
reload_after_lem enable s = refl
reload_after_lem disable s = refl
reload_after_lem refresh s = refl
reload_after_lem test s = refl

module _ (service : Service) (params : Params) where
  open params use {selected_source_ids, source_by_id}

  abbrev pub answer_of : SourceAction → ℕ → Outcome
  answer_of enable id = reply_outcome (service.update id (enabled_patch true))
  answer_of disable id = reply_outcome (service.update id (enabled_patch false))
  answer_of refresh id = reply_outcome (service.refresh id)
  answer_of test id = reply_outcome (service.test id)

  abbrev pub outcome : SourceAction → ℕ → Outcome
  outcome action id =
      if is_moot action (lookup id source_by_id) then skipped else answer_of action id

  abbrev pub requests : SourceAction → ℕ → List Call
  requests action id =
      if is_moot action (lookup id source_by_id) then [] else call_of action id ∷ []

  act-Does-by :
      (action : SourceAction) (id : ℕ) (found : Option Source) (s : Panel)
      → act_if_known service params action id found s ≡ (
        answered (if is_moot action found then skipped else answer_of action id),
        record s {
          calls = (if is_moot action found then [] else call_of action id ∷ []) ++ s.calls;
        },
      )
  act-Does-by action id found s = ground arith

  pub act-Does :
      (action : SourceAction)
      → Does (act_by_id service params action) (outcome action) (requests action)
  act-Does action id s = act-Does-by action id (lookup id source_by_id) s

  pub on_run_bulk_source_action_lem :
      (action : SourceAction) (s : Panel)
      → is_nil selected_source_ids ≡ false
      → on_run_bulk_source_action service params action s ≡ (
        answered tt,
        record s {
          calls = reloads action ++ (calls_for (requests action) selected_source_ids ++ s.calls);
          bulk_source_action = none;
          notice = some (record {
            kind =
                notice_kind (length (filter is_failed (map (outcome action) selected_source_ids)));
            text = counted (bulk_of action) (map (outcome action) selected_source_ids);
          });
        },
      )
  unfolding on_run_bulk_source_action
  on_run_bulk_source_action_lem action s some_ids =
      rw
        (
          some_ids,
          for_all_lem _ _ _ (act-Does action) selected_source_ids
              (set_bulk (some (bulk_of action)) s),
          reload_after_lem action,
        )
        refl

  abbrev pub poll_outcome : ℕ → ℕ → Outcome
  poll_outcome sec id = reply_outcome (service.update id (poll_patch sec))

  abbrev pub poll_requests : ℕ → ℕ → List Call
  poll_requests sec id = update_source id (poll_patch sec) ∷ []

  pub poll-Does :
      (sec : ℕ) → Does (poll_one service params sec) (poll_outcome sec) (poll_requests sec)
  poll-Does sec id s = ground arith

  abbrev pub ai_outcome : Bool → Option ℕ → ℕ → Option Source → Outcome
  ai_outcome enabled interval id none = skipped
  ai_outcome enabled interval id (some source) = reply_outcome (
      service.update id
        (ai_patch enabled (interval_or interval source.ai_briefing_interval_min 180)))

  abbrev pub ai_requests : Bool → Option ℕ → ℕ → Option Source → List Call
  ai_requests enabled interval id none = []
  ai_requests enabled interval id (some source) =
      update_source id (ai_patch enabled (interval_or interval source.ai_briefing_interval_min 180))
      ∷ []

  ai-Does-by :
      (enabled : Bool) (interval : Option ℕ) (id : ℕ) (found : Option Source) (s : Panel)
      → ai_if_known service params enabled interval id found s ≡ (
        answered (ai_outcome enabled interval id found),
        record s { calls = ai_requests enabled interval id found ++ s.calls },
      )
  ai-Does-by enabled interval id found s = ground arith

  pub ai-Does :
      (enabled : Bool) (interval : Option ℕ)
      → Does
          (ai_by_id service params enabled interval)
          (λ id. ai_outcome enabled interval id (lookup id source_by_id))
          (λ id. ai_requests enabled interval id (lookup id source_by_id))
  ai-Does enabled interval id s = ai-Does-by enabled interval id (lookup id source_by_id) s
