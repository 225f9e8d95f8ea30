-- ===== src/Panel/Single.antt =====
-- The handlers that act on one source.
use urwhaturead.Prelude.{
  ℕ, Bool, false, not, ◌||◌, Option, none, some, List, [], ◌∷◌, ◌++◌, if◌then◌else◌, nat_beq,
  nat_eq, text_eq, includes, join, Text, codes, trim, is_empty,
}
use urwhaturead.Prelude.Decimal.{decimal}
use urwhaturead.Task.Poller.{NoticeKind}
use urwhaturead.Sources.{Source, source_tag_list, parse_source_tag_input}
use urwhaturead.Feed.{parse_source_id_filter}
use urwhaturead.Panel.{
  Panel, Params, Service, EditForm, SourcePatch, empty_patch, update_source, delete_source,
  refresh_source, test_source, TestResult,
}
use urwhaturead.Panel.Action.{
  Action, ◌>>=◌, ◌>>◌, done, modify, request, try_catch, finally, set_notice, set_busy,
  reload_sources, reload_feed, reload_status, positive_int,
}

abbrev pub no_edit : EditForm
no_edit = record {
  editing_source_id = none;
  name = [];
  url = [];
  tags = [];
  poll_sec = codes "900";
}

unfoldable pub on_cancel_edit : Panel → Panel
on_cancel_edit s = record s { edit = no_edit }

abbrev pub is_source : ℕ → Option ℕ → Bool
is_source id none = false
is_source id (some other) = nat_beq other id

abbrev set_enabled : Bool → Source → Source
set_enabled enabled source = record source { enabled = enabled }

-- `previous?.id === id ? { ...previous, enabled } : previous`
abbrev pub enabled_in_profile : ℕ → Bool → Option Source → Option Source
enabled_in_profile id enabled none = none
enabled_in_profile id enabled (some source) =
    some (if nat_beq source.id id then set_enabled enabled source else source)

module _ (service : Service) (params : Params) where
  open service use {host, update, delete, refresh, test}

  -- `try { m } catch { setNotice(error) } finally { setBusySourceID(null) }`, once it is busy
  abbrev pub while_busy : ℕ → Action (Unit {0}) → Text → Action (Unit {0})
  while_busy id m failure =
      finally
        (try_catch (modify (set_busy (some id)) >> m)
          (λ message. set_notice NoticeKind.error (failure ++ message)))
        (set_busy none)

  unfoldable pub on_start_edit : Source → ℕ → Panel → Panel
  on_start_edit source poll_interval_sec s = record s {
    edit = record {
      editing_source_id = some source.id;
      name = source.name;
      url = source.rss_url;
      tags = join (codes ", ") (source_tag_list host source);
      poll_sec = decimal poll_interval_sec;
    };
  }

  abbrev tested : TestResult → Text
  tested r = codes "测试成功: " ++ (r.title ++ (codes "（" ++ (decimal r.item_count ++ codes " 条）")))

  unfoldable pub on_test_source : ℕ → Action (Unit {0})
  on_test_source id =
      while_busy id
        (request (test_source id) (test id) >>= λ r. set_notice NoticeKind.info (tested r))
        (codes "测试来源失败: ")

  unfoldable pub on_refresh_source : ℕ → Action (Unit {0})
  on_refresh_source id =
      while_busy id
        (do
          request (refresh_source id) (refresh id)
          set_notice NoticeKind.info (codes "来源 " ++ (decimal id ++ codes " 强制刷新成功。"))
          reload_feed none
          reload_status)
        (codes "强制刷新来源失败: ")

  abbrev save_patch : Text → Text → List Text → ℕ → SourcePatch
  save_patch name rss_url tags poll_interval_sec = record empty_patch {
    name = some name;
    rss_url = some rss_url;
    tags = some tags;
    poll_interval_sec = some poll_interval_sec;
  }

  abbrev save_with : ℕ → Text → Text → List Text → Option ℕ → Action (Unit {0})
  save_with id name rss_url tags none = set_notice NoticeKind.error (codes "抓取间隔必须是正整数。")
  save_with id name rss_url tags (some poll_interval_sec) =
      while_busy id
        (do
          answer ←
              request (update_source id (save_patch name rss_url tags poll_interval_sec))
                (update id (save_patch name rss_url tags poll_interval_sec))
          set_notice NoticeKind.info (codes "来源 " ++ (decimal id ++ codes " 更新成功。"))
          modify on_cancel_edit
          reload_sources
          reload_feed none
          reload_status)
        (codes "更新来源失败: ")

  unfoldable pub on_save_source_edit : ℕ → Action (Unit {0})
  unfolding on_cancel_edit
  on_save_source_edit id =
      let name = trim params.edit.name in
      let rss_url = trim params.edit.url in
      if is_empty name || is_empty rss_url
      then set_notice NoticeKind.error (codes "名称和 RSS URL 不能为空。")
      else save_with id name rss_url (parse_source_tag_input host params.edit.tags)
          (positive_int params.edit.poll_sec)

  abbrev enable_patch : Bool → SourcePatch
  enable_patch enabled = record empty_patch { enabled = some enabled }

  unfoldable pub on_toggle_source_enabled : Source → Action (Unit {0})
  on_toggle_source_enabled source =
      while_busy source.id
        (do
          answer ←
              request (update_source source.id (enable_patch (not source.enabled)))
                (update source.id (enable_patch (not source.enabled)))
          set_notice NoticeKind.info (
              codes "来源 "
              ++ (decimal source.id
                  ++ (codes " 已" ++ (if source.enabled then codes "停用。" else codes "启用。"))))
          reload_sources
          reload_status)
        (codes "切换状态失败: ")

  -- `onAfterDeleteSourceStateSync` is a callback of the page: what it is given is recorded.
  abbrev sync_deleted : ℕ → Bool → Panel → Panel
  sync_deleted id is_filtered s = record s { deleted = (id, is_filtered) ∷ s.deleted }

  abbrev pub filters_on : ℕ → Bool
  filters_on id = includes (parse_source_id_filter params.source_filter) id

  unfoldable pub delete_source_and_refresh : Source → Action (Unit {0})
  unfolding on_cancel_edit
  delete_source_and_refresh source =
      finally
        (try_catch
          (do
            modify (set_busy (some source.id))
            request (delete_source source.id) (delete source.id)
            modify (sync_deleted source.id (filters_on source.id))
            set_notice NoticeKind.info (codes "来源 " ++ (decimal source.id ++ codes " 已删除。"))
            reload_sources
            reload_feed (if filters_on source.id then some [] else none)
            reload_status)
          (λ message. set_notice NoticeKind.error (codes "删除来源失败: " ++ message)))
        (λ s.
          set_busy none
            (if is_source source.id params.edit.editing_source_id then on_cancel_edit s else s))

  -- `confirmed` is the answer of `window.confirm`.
  unfoldable pub on_delete_source : Bool → Source → Action (Unit {0})
  on_delete_source confirmed source = if confirmed then delete_source_and_refresh source else done

  abbrev pub delete_given : Option Source → Action (Unit {0})
  delete_given none = done
  delete_given (some source) = delete_source_and_refresh source

  unfoldable pub on_confirm_delete_source : Action (Unit {0})
  on_confirm_delete_source = delete_given params.pending_delete_source

  abbrev quick_set : Source → Bool → Action (Unit {0})
  quick_set source enabled =
      while_busy source.id
        (do
          answer ←
              request (update_source source.id (enable_patch enabled))
                (update source.id (enable_patch enabled))
          modify (λ s. record s { shows_context_menu = false })
          modify (λ s. record s {
            source_profile_source = enabled_in_profile source.id enabled s.source_profile_source;
          })
          set_notice NoticeKind.info (
              codes "订阅源 "
              ++ (source.name ++ (codes " 已" ++ (if enabled then codes "启用。" else codes "停用。"))))
          reload_sources
          reload_feed none
          reload_status)
        (codes "更新订阅源失败: ")

  abbrev pub same_bool : Bool → Bool → Bool
  same_bool a b = if a then b else not b

  unfoldable pub on_quick_set_source_enabled : Source → Bool → Action (Unit {0})
  on_quick_set_source_enabled source enabled =
      if same_bool source.enabled enabled
      then set_notice NoticeKind.info (if enabled then codes "该订阅源已启用。" else codes "该订阅源已停用。")
      else quick_set source enabled
