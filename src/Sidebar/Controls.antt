-- ===== src/Sidebar/Controls.antt =====
-- The handlers that change what the feed is filtered by. `Controls` is what the setters change, with
-- what a handler reads of it; what a handler calls is recorded in `effects`, newest first.
use urwhaturead.Prelude.{
  ℕ, suc, Bool, true, false, not, Option, none, some, List, [], ◌∷◌, ◌++◌, map, filter, length,
  if◌then◌else◌, ltb, nat_beq, nat_eq, ◌==◌, text_eq, all, any, Text, codes, trim, is_empty,
  includes, distinct_from, without, find?, join, sort, by_asc, ℤ, pos, negsuc,
}
use urwhaturead.Prelude.Host.{Host}
use urwhaturead.Prelude.Decimal.{decimal}
use urwhaturead.Stream.{is_nil}
use urwhaturead.Task.Poller.{Notice}
use urwhaturead.Feed.{FeedLoadOverrides}
use urwhaturead.Sources.{Source, ids_of, source_tag_list}
use urwhaturead.Sidebar.{SidebarTagFilterMode, or, and, SourceGroup}

pub data AppliedKind : Type 0 where
  tag site : AppliedKind

pub record AppliedSourceGroupFilter : Type 0 where
  pub key : Text
  pub label : Text
  pub kind : AppliedKind

pub data Effect : Type 0 where
  cancel_sidebar_tag_feed_reload reset_feed_briefing_state close_source_context_menu : Effect
  load_feed : FeedLoadOverrides → Effect
  load_cached_summary : ℕ → Text → ℕ → Effect

pub record Controls : Type 0 where
  pub source_group_filter : Option AppliedSourceGroupFilter
  pub sidebar_tag_filters : List Text
  pub sidebar_tag_filter_mode : SidebarTagFilterMode
  pub show_subscription_sidebar : Bool
  pub keyword : Text
  pub tag_filter : Text
  pub source_filter : Text
  pub unread_only : Bool
  pub favorite_only : Bool
  pub muted_site_keys : List Text
  pub selected_article_id : Option ℕ
  pub shows_article : Bool
  pub feed_cursor : Text
  pub ai_model : Text
  pub show_manage_model_picker : Bool
  pub summary_request_seq : ℕ
  pub article_summary : Text
  pub article_summary_meta : Text
  pub article_summary_error : Option Text
  pub notice : Option Notice
  pub source_profile_source : Option Source
  pub source_profile_tag_picker_open : Bool
  pub source_profile_tag_input : Text
  pub pending_delete_source : Option Source
  pub effects : List Effect

abbrev pub no_overrides : FeedLoadOverrides
no_overrides = record { tag = none; source_id = none; keyword = none; cursor = none }

abbrev pub perform : Effect → Controls → Controls
perform effect s = record s { effects = effect ∷ s.effects }

-- `cancelSidebarTagFeedReload(); resetFeedBriefingState()`
abbrev pub restart : Controls → Controls
restart s = perform reset_feed_briefing_state (perform cancel_sidebar_tag_feed_reload s)

abbrev pub reload : FeedLoadOverrides → Controls → Controls
reload overrides = perform (load_feed overrides)

-- `setSelectedArticle(null); setSelectedArticleID(null); setFeedCursor('')`
abbrev pub leave_article : Controls → Controls
leave_article s = record s { shows_article = false; selected_article_id = none; feed_cursor = [] }

abbrev pub hide_if : Bool → Controls → Controls
hide_if is_narrow s = record s {
  show_subscription_sidebar = if is_narrow then false else s.show_subscription_sidebar;
}

-- `is_narrow` is the answer of the media query.
unfoldable pub apply_source_filter_from_sidebar : Bool → Text → Bool → Controls → Controls
apply_source_filter_from_sidebar is_narrow source_id preserve_sidebar_tags s = hide_if is_narrow (
    reload (record no_overrides { source_id = some source_id })
      (leave_article (record (restart s) {
        source_group_filter = none;
        sidebar_tag_filters = if preserve_sidebar_tags then s.sidebar_tag_filters else [];
        source_filter = source_id;
      })))

-- The order of `sort()` on texts, by their UTF-16 units.
unfoldable pub compare_texts : Text → Text → ℤ
compare_texts [] [] = pos 0
compare_texts [] (b ∷ right) = negsuc 0
compare_texts (a ∷ left) [] = pos 1
compare_texts (a ∷ left) (b ∷ right) =
    let rest = compare_texts left right in
    if nat_beq a b then rest else if ltb a b then negsuc 0 else pos 1

-- `ids.length > 0 ? ids.sort((left, right) => left - right).join(',') : '0'`
unfoldable pub source_id_value : List ℕ → Text
source_id_value ids =
    if is_nil ids
    then codes "0"
    else join (codes ",") (map decimal (sort (by_asc (λ id. pos id)) ids))

module _ (host : Host) where
  unfoldable pub normalize_tag_keys : List Text → List Text
  normalize_tag_keys keys = sort compare_texts (
      distinct_from []
        (filter (λ key. not (is_empty key)) (map (λ key. host.to_lower_case (trim key)) keys)))

  -- The filter of this handler: `every` or `some` of the keys among the source's lower-case tags.
  unfoldable pub matches_keys : SidebarTagFilterMode → List Text → Source → Bool
  matches_keys mode keys source =
      let tag_set = map host.to_lower_case (source_tag_list host source) in
      elim mode [
        | and ↦ all (λ key. includes tag_set key) keys
        | or ↦ any (λ key. includes tag_set key) keys
      ]

  module _ (feed_sources : List Source) (groups : List SourceGroup) where
    abbrev label_or : Text → Option SourceGroup → Text
    label_or key none = key
    label_or key (some g) = g.label

    abbrev label_of : Text → Text
    label_of key = label_or key (find? (λ (g : SourceGroup). g.key == key) groups)

    abbrev mode_label : SidebarTagFilterMode → Text
    mode_label and = codes "全部"
    mode_label or = codes "任一"

    abbrev mode_name : SidebarTagFilterMode → Text
    mode_name and = codes "and"
    mode_name or = codes "or"

    -- Of the labels of at least one key.
    abbrev labels_text : SidebarTagFilterMode → List Text → Text
    labels_text mode [] = []
    labels_text mode (label ∷ []) = label ++ (codes " (" ++ (mode_label mode ++ codes ")"))
    labels_text mode (label ∷ more ∷ labels) =
        mode_label mode ++ (codes ": " ++ (label ++ (codes " +" ++ decimal (suc (length labels)))))

    abbrev tag_group : SidebarTagFilterMode → List Text → AppliedSourceGroupFilter
    tag_group mode keys = record {
      key = codes "tags:" ++ (mode_name mode ++ (codes ":" ++ join (codes ",") keys));
      label = labels_text mode (map label_of keys);
      kind = AppliedKind.tag;
    }

    abbrev pub matching_ids : SidebarTagFilterMode → List Text → List ℕ
    matching_ids mode keys = ids_of (filter (matches_keys mode keys) feed_sources)

    abbrev without_tags : Controls → Controls
    without_tags s =
        reload (record no_overrides { source_id = some [] })
          (record s { source_group_filter = none; source_filter = []; feed_cursor = [] })

    abbrev with_tags : SidebarTagFilterMode → List Text → Controls → Controls
    with_tags mode keys s =
        let value = source_id_value (matching_ids mode keys) in
        reload (record no_overrides { source_id = some value; cursor = some [] })
          (record s {
            source_group_filter = some (tag_group mode keys);
            source_filter = value;
            feed_cursor = [];
          })

    unfoldable pub apply_sidebar_tag_filters :
        List Text → SidebarTagFilterMode → Controls → Controls
    apply_sidebar_tag_filters next_keys mode s =
        let keys = normalize_tag_keys next_keys in
        let set = record (perform reset_feed_briefing_state s) {
          sidebar_tag_filters = keys;
          sidebar_tag_filter_mode = mode;
        } in
        if is_nil keys then without_tags set else with_tags mode keys set

    unfoldable pub toggle_sidebar_tag_filter : Text → Controls → Controls
    unfolding apply_sidebar_tag_filters
    toggle_sidebar_tag_filter key s =
        apply_sidebar_tag_filters
          (if includes s.sidebar_tag_filters key
            then without key s.sidebar_tag_filters
            else s.sidebar_tag_filters ++ key ∷ [])
          s.sidebar_tag_filter_mode s

    abbrev pub same_mode : SidebarTagFilterMode → SidebarTagFilterMode → Bool
    same_mode or or = true
    same_mode and and = true
    same_mode _ _ = false

    unfoldable pub switch_sidebar_tag_filter_mode : SidebarTagFilterMode → Controls → Controls
    unfolding apply_sidebar_tag_filters
    switch_sidebar_tag_filter_mode mode s =
        if same_mode mode s.sidebar_tag_filter_mode
        then s
        else if is_nil s.sidebar_tag_filters
        then record s { sidebar_tag_filter_mode = mode }
        else apply_sidebar_tag_filters s.sidebar_tag_filters mode s

unfoldable pub apply_source_group_filter_from_sidebar :
    Bool → Text → Text → List ℕ → Controls → Controls
apply_source_group_filter_from_sidebar is_narrow key label source_ids s =
    let value = source_id_value source_ids in
    hide_if is_narrow (
      reload (record no_overrides { source_id = some value; cursor = some [] })
        (leave_article (record (restart s) {
          source_group_filter = some (record { key = key; label = label; kind = AppliedKind.site });
          source_filter = value;
        })))

unfoldable pub open_source_profile : Source → Controls → Controls
open_source_profile source s = perform close_source_context_menu (record s {
  source_profile_source = some source;
  source_profile_tag_picker_open = false;
  source_profile_tag_input = [];
})

unfoldable pub open_delete_source_confirm : Source → Controls → Controls
open_delete_source_confirm source s =
    perform close_source_context_menu (record s { pending_delete_source = some source })
