-- ===== src/Keyboard/Tests.antt =====
-- Concrete presses of keys, and menus.
use urwhaturead.Prelude.{
  ◌≡◌, refl, true, false, none, some, [], ◌∷◌, codes, pos, includes, lookup, arith,
}
use urwhaturead.Stream.{
  StreamParams, reader_stream_items, visible_feed, visible_feed_base, passes_filters, is_unmuted,
  feed_briefing_insert_index, is_anchor,
}
use urwhaturead.Session.Tests.{closed}
use urwhaturead.Keyboard.Walk.{keys_of, walked, walked_lem}
use urwhaturead.Keyboard.{Action, handle_key_down, SourceContextMenu, adjust_source_context_menu}
use urwhaturead.Keyboard.Moves.{press, stands, has_room, adjust_source_context_menu_settles}
use urwhaturead.Panel.Tests.{source}

-- Two articles, with the briefing between them.
abbrev params : StreamParams
params = record {
  feed = record { id = 9; source_id = 1 } ∷ record { id = 4; source_id = 1 } ∷ [];
  unread_only = false;
  favorite_only = false;
  read_article_ids = [];
  favorite_article_ids = [];
  source_site_key_map = [];
  muted_sites = [];
  has_feed_briefing_entry = true;
  feed_briefing_anchor_article_ids = 4 ∷ [];
  selected_feed_briefing = false;
  selected_article_id = none;
}

-- The second press opens the briefing.
walked_lem_example :
    handle_key_down
      (keys_of params none (walked params none [] (λ n. pos n) closed 1))
      (press (codes "j"))
    ≡ some Action.open_feed_briefing
unfolding reader_stream_items visible_feed visible_feed_base passes_filters is_unmuted
    feed_briefing_insert_index is_anchor includes lookup
walked_lem_example =
    walked_lem params none [] (λ n. pos n) closed (refl, (refl, (refl, tt)))
      (omega arith, (tt, (omega arith, tt))) (omega arith) refl refl 1

abbrev menu : SourceContextMenu
menu = record { source = source 3 true; x = pos 780; y = pos 4 }

adjust_source_context_menu_settles_example :
    let adjusted = adjust_source_context_menu (pos 800) (pos 600) (pos 200) (pos 300) menu in
    (adjust_source_context_menu (pos 800) (pos 600) (pos 200) (pos 300) adjusted ≡ adjusted)
    × (stands (pos 800) (pos 200) adjusted.x ≡ has_room (pos 800) (pos 200))
    × (stands (pos 600) (pos 300) adjusted.y ≡ has_room (pos 600) (pos 300))
adjust_source_context_menu_settles_example =
    adjust_source_context_menu_settles (pos 800) (pos 600) (pos 200) (pos 300) menu
