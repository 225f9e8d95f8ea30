-- ===== src/Sidebar/Filters.antt =====
-- hooks/use-reader-filter-controls.ts: applying, clearing and removing filters, the choice of the
-- model, and muting a site.
use urwhaturead.Prelude.{
  ℕ, suc, false, ◌||◌, Option, none, some, [], ◌∷◌, ◌++◌, if◌then◌else◌, ltb, ◌==◌, text_eq, Text,
  codes, trim, is_empty, includes, without,
}
use urwhaturead.Task.Poller.{NoticeKind}
use urwhaturead.Sidebar.Controls.{
  Controls, load_cached_summary, cancel_sidebar_tag_feed_reload, reset_feed_briefing_state,
  no_overrides, perform, restart, reload, leave_article,
}

pub data FilterType : Type 0 where
  keyword tag source muted_sites unread favorite : FilterType

unfoldable pub apply_filters : Controls → Controls
apply_filters s = reload no_overrides (leave_article (restart s))

unfoldable pub clear_filters : Controls → Controls
clear_filters s =
    reload (record { tag = some []; source_id = some []; keyword = some []; cursor = some [] })
      (leave_article (record (restart s) {
        keyword = [];
        tag_filter = [];
        source_filter = [];
        unread_only = false;
        favorite_only = false;
        source_group_filter = none;
        sidebar_tag_filters = [];
        muted_site_keys = [];
      }))

abbrev cancelled : Controls → Controls
cancelled = perform cancel_sidebar_tag_feed_reload

unfoldable pub remove_filter : FilterType → Controls → Controls
remove_filter keyword s =
    reload (record no_overrides { keyword = some [] }) (record (restart s) { keyword = [] })
remove_filter tag s =
    reload (record no_overrides { tag = some [] }) (record (restart s) { tag_filter = [] })
remove_filter muted_sites s = record (cancelled s) { muted_site_keys = [] }
remove_filter unread s = record (cancelled s) { unread_only = false }
remove_filter favorite s = record (cancelled s) { favorite_only = false }
remove_filter source s =
    reload (record no_overrides { source_id = some [] })
      (record (restart s) {
        source_filter = [];
        source_group_filter = none;
        sidebar_tag_filters = [];
      })

-- An id of 0 selects nothing, as `null` does.
abbrev load_summary : Option ℕ → Text → ℕ → Controls → Controls
load_summary none model request_id s = s
load_summary (some id) model request_id s =
    if ltb 0 id then perform (load_cached_summary id model request_id) s else s

unfoldable pub on_change_ai_model : Text → Controls → Controls
on_change_ai_model next_model s =
    let model = trim next_model in
    let request_id = suc s.summary_request_seq in
    let changed =
      record (load_summary s.selected_article_id model request_id
        (record (perform reset_feed_briefing_state s) {
          summary_request_seq = request_id;
          ai_model = model;
          article_summary = [];
          article_summary_meta = [];
          article_summary_error = none;
        })) {
          show_manage_model_picker = false;
          notice = some (record { kind = NoticeKind.info; text = codes "已切换模型：" ++ model });
        } in
    if is_empty model || model == s.ai_model then s else changed

unfoldable pub toggle_site_muted : Text → Controls → Controls
toggle_site_muted site_key s = record (perform reset_feed_briefing_state s) {
  muted_site_keys =
      if includes s.muted_site_keys site_key
      then without site_key s.muted_site_keys
      else s.muted_site_keys ++ site_key ∷ [];
}
