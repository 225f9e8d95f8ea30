-- ===== src/Panel/Bulk.antt =====
-- The handlers that act on all selected sources. The calls of one `Promise.all` start in the order of
-- the ids and do not look at each other, so they are made one after the other.
use urwhaturead.Prelude.{
  ℕ, Bool, true, false, Option, none, some, List, [], ◌∷◌, ◌++◌, filter, length, if◌then◌else◌, ltb,
  nat_eq, lookup, Text, codes,
}
use urwhaturead.Prelude.Decimal.{decimal}
use urwhaturead.Stream.{is_nil}
use urwhaturead.Task.Poller.{NoticeKind}
use urwhaturead.Task.Summary.{Reply, threw, answered}
use urwhaturead.Sources.{Source, parse_source_tag_input}
use urwhaturead.Panel.{
  Params, Service, SourcePatch, empty_patch, BulkSourceAction, bulk_action_label, update_source,
  refresh_source, test_source, bulk_update_source_tags, reclassify_sources, BulkTagsResult,
  ReclassifyMeta,
}
use urwhaturead.Panel.Action.{
  Action, ◌>>=◌, ◌>>◌, modify, request, try_catch, finally, set_notice, set_bulk, reload_sources,
  reload_feed, reload_status, positive_int,
}

-- What became of one source.
pub data Outcome : Type 0 where
  succeeded skipped : Outcome
  failed : Text → Outcome

abbrev pub is_succeeded : Outcome → Bool
is_succeeded succeeded = true
is_succeeded _ = false

abbrev pub is_skipped : Outcome → Bool
is_skipped skipped = true
is_skipped _ = false

abbrev pub is_failed : Outcome → Bool
is_failed (failed message) = true
is_failed _ = false

abbrev outcome_of : {A : Type 0} → Reply A → Action Outcome
outcome_of (answered a) s = (answered succeeded, s)
outcome_of (threw message) s = (answered (failed message), s)

-- A call whose throw is caught for its source alone.
abbrev pub attempt : {A : Type 0} → Action A → Action Outcome
attempt m s = outcome_of (m s).0 (m s).1

abbrev pub skip : Action Outcome
skip s = (answered skipped, s)

-- `Promise.all(ids.map(act))`
unfoldable pub for_all : (ℕ → Action Outcome) → List ℕ → Action (List Outcome)
for_all act [] s = (answered [], s)
for_all act (id ∷ ids) s = (act id >>= λ r. for_all act ids >>= λ rs. λ t. (answered (r ∷ rs), t)) s

-- The four actions of `onRunBulkSourceAction`.
pub data SourceAction : Type 0 where
  enable disable refresh test : SourceAction

abbrev pub bulk_of : SourceAction → BulkSourceAction
bulk_of enable = BulkSourceAction.enable
bulk_of disable = BulkSourceAction.disable
bulk_of refresh = BulkSourceAction.refresh
bulk_of test = BulkSourceAction.test

abbrev pub notice_kind : ℕ → NoticeKind
notice_kind n = if ltb 0 n then NoticeKind.error else NoticeKind.info

abbrev choose_first : Action (Unit {0})
choose_first = set_notice NoticeKind.error (codes "请先勾选至少一个来源。")

abbrev pub counted : BulkSourceAction → List Outcome → Text
counted action rs =
    codes "批量"
    ++ (bulk_action_label action
        ++ (codes "完成：成功 "
            ++ (decimal (length (filter is_succeeded rs))
                ++ (codes "，跳过 "
                    ++ (decimal (length (filter is_skipped rs))
                        ++ (codes "，失败 " ++ decimal (length (filter is_failed rs))))))))

abbrev tag_label : Bool → Text
tag_label is_add = if is_add then codes "添加标签" else codes "移除标签"

abbrev tags_done : Bool → BulkTagsResult → Text
tags_done is_add r =
    codes "批量"
    ++ (tag_label is_add
        ++ (codes "完成：更新 " ++ (decimal r.updated ++ (codes " / " ++ decimal r.total))))

abbrev pub poll_patch : ℕ → SourcePatch
poll_patch sec = record empty_patch { poll_interval_sec = some sec }

abbrev pub polled : List Outcome → Text
polled rs =
    let count = length (filter is_succeeded rs) in
    codes "批量"
    ++ (bulk_action_label BulkSourceAction.set_poll
        ++ (codes "完成：成功 "
            ++ (decimal count ++ (codes "，失败 " ++ decimal (length (filter is_failed rs))))))

-- `given ?? known ?? fallback`
abbrev pub interval_or : Option ℕ → Option ℕ → ℕ → ℕ
interval_or (some given) known fallback = given
interval_or none (some known) fallback = known
interval_or none none fallback = fallback

abbrev pub ai_patch : Bool → ℕ → SourcePatch
ai_patch enabled interval = record empty_patch {
  ai_briefing_enabled = some enabled;
  ai_briefing_interval_min = some interval;
}

abbrev reclassified : ReclassifyMeta → Text
reclassified r =
    codes "自动重分类完成：变更 "
    ++ (decimal r.changed
        ++ (codes "，错误 " ++ (decimal r.errors ++ (codes "，总计 " ++ decimal r.count))))

abbrev pub reload_after : SourceAction → Action (Unit {0})
reload_after enable = do reload_sources; reload_feed none; reload_status
reload_after disable = do reload_sources; reload_feed none; reload_status
reload_after refresh = do reload_feed none; reload_status
reload_after test = reload_status

module _ (service : Service) (params : Params) where
  open params use {selected_source_ids, source_by_id}

  abbrev pub set_enabled : ℕ → Bool → Action Outcome
  set_enabled id enabled =
      let patch = record empty_patch { enabled = some enabled } in
      attempt (request (update_source id patch) (service.update id patch))

  abbrev pub act_on : SourceAction → ℕ → Source → Action Outcome
  act_on enable id source = if source.enabled then skip else set_enabled id true
  act_on disable id source = if source.enabled then set_enabled id false else skip
  act_on refresh id source = attempt (request (refresh_source id) (service.refresh id))
  act_on test id source = attempt (request (test_source id) (service.test id))

  abbrev pub act_if_known : SourceAction → ℕ → Option Source → Action Outcome
  act_if_known action id none = skip
  act_if_known action id (some source) = act_on action id source

  abbrev pub act_by_id : SourceAction → ℕ → Action Outcome
  act_by_id action id = act_if_known action id (lookup id source_by_id)

  unfoldable pub on_run_bulk_source_action : SourceAction → Action (Unit {0})
  on_run_bulk_source_action action =
      if is_nil selected_source_ids
      then choose_first
      else finally
          (do
            modify (set_bulk (some (bulk_of action)))
            results ← for_all (act_by_id action) selected_source_ids
            reload_after action
            set_notice (notice_kind (length (filter is_failed results)))
                (counted (bulk_of action) results))
          (set_bulk none)

  -- `is_add` stands for the action `add`, and else `remove`.
  unfoldable pub on_run_bulk_tag_action : Bool → Action (Unit {0})
  on_run_bulk_tag_action is_add =
      let tags = parse_source_tag_input service.host params.bulk_tag_input in
      let run : Action (Unit {0}) =
        finally
          (modify (
              set_bulk
                (some (if is_add then BulkSourceAction.add_tags else BulkSourceAction.remove_tags)))
            >> try_catch
                (do
                  result ←
                      request (bulk_update_source_tags selected_source_ids is_add tags)
                        service.bulk_tags
                  reload_sources
                  reload_feed none
                  reload_status
                  set_notice NoticeKind.info (tags_done is_add result))
                (λ message. set_notice NoticeKind.error (codes "批量标签操作失败: " ++ message)))
          (set_bulk none) in
      if is_nil selected_source_ids
      then choose_first
      else if is_nil tags
      then set_notice NoticeKind.error (codes "请先输入至少一个标签。")
      else run

  abbrev pub poll_one : ℕ → ℕ → Action Outcome
  poll_one sec id =
      attempt (request (update_source id (poll_patch sec)) (service.update id (poll_patch sec)))

  abbrev pub update_polls : Option ℕ → Action (Unit {0})
  update_polls none = set_notice NoticeKind.error (codes "批量抓取间隔必须是正整数秒。")
  update_polls (some sec) =
      finally
        (do
          modify (set_bulk (some BulkSourceAction.set_poll))
          results ← for_all (poll_one sec) selected_source_ids
          reload_sources
          reload_status
          set_notice (notice_kind (length (filter is_failed results))) (polled results))
        (set_bulk none)

  unfoldable pub on_run_bulk_poll_interval_update : Action (Unit {0})
  on_run_bulk_poll_interval_update =
      if is_nil selected_source_ids
      then choose_first
      else update_polls (positive_int params.bulk_poll_sec)

  abbrev pub ai_if_known : Bool → Option ℕ → ℕ → Option Source → Action Outcome
  ai_if_known enabled interval_min id none = skip
  ai_if_known enabled interval_min id (some source) =
      let patch = ai_patch enabled (interval_or interval_min source.ai_briefing_interval_min 180) in
      attempt (request (update_source id patch) (service.update id patch))

  abbrev pub ai_by_id : Bool → Option ℕ → ℕ → Action Outcome
  ai_by_id enabled interval_min id = ai_if_known enabled interval_min id (lookup id source_by_id)

  unfoldable pub on_run_bulk_ai_briefing_action : Bool → Option ℕ → Action (Unit {0})
  on_run_bulk_ai_briefing_action enabled interval_min =
      let action = if enabled then BulkSourceAction.enable_ai else BulkSourceAction.disable_ai in
      if is_nil selected_source_ids
      then choose_first
      else finally
          (do
            modify (set_bulk (some action))
            results ← for_all (ai_by_id enabled interval_min) selected_source_ids
            reload_sources
            reload_status
            set_notice (notice_kind (length (filter is_failed results))) (counted action results))
          (set_bulk none)

  unfoldable pub on_reclassify_sources : Action (Unit {0})
  on_reclassify_sources =
      finally
        (try_catch
          (do
            modify (λ s. record s { reclassifying_sources = true })
            r ← request reclassify_sources service.reclassify
            reload_sources
            reload_feed none
            reload_status
            set_notice (notice_kind r.errors) (reclassified r))
          (λ message. set_notice NoticeKind.error (codes "自动重分类失败: " ++ message)))
        (λ s. record s { reclassifying_sources = false })
