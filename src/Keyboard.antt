-- ===== src/Keyboard.antt =====
-- hooks/use-reader-keyboard-shortcuts.ts and use-reader-overlay-shortcuts.ts: what a key does, and
-- hooks/use-source-context-menu.ts with `clampContextMenuPosition`: where the menu stands.
pub mod Moves
pub mod Walk
mod Tests
use urwhaturead.Prelude.{
  ℕ, suc, ◌+◌, ◌-◌, Bool, true, false, ◌&&◌, ◌||◌, Option, none, some, List, [], ◌∷◌, length,
  get_elem?, if◌then◌else◌, ltb, leb, ◌==◌, text_eq, Text, codes, is_empty, ℤ, pos, ◌-ℤ◌, leb_ℤ,
}
use urwhaturead.Stream.{ReaderStreamItem, article, briefing, is_nil}
use urwhaturead.Sources.{Source}

-- The element that has the focus.
pub record Target : Type 0 where
  pub tag_name : Text
  pub is_content_editable : Bool

pub record KeyEvent : Type 0 where
  pub key : Text
  pub target : Option Target

pub record KeyParams : Type 0 where
  pub reader_stream_items : List ReaderStreamItem
  pub selected_feed_index : Option ℕ
  pub selected_article_link : Option Text
  pub is_blocking_overlay_open : Bool

-- What the handler calls.
pub data Action : Type 0 where
  open_article : ℕ → Action
  open_feed_briefing close_overlays : Action
  open_link : Text → Action

abbrev is_typing : Option Target → Bool
is_typing none = false
is_typing (some t) =
    t.tag_name == codes "INPUT"
    || (t.tag_name == codes "TEXTAREA" || (t.tag_name == codes "SELECT" || t.is_content_editable))

-- `Math.min(Math.max(base + direction, 0), length - 1)`, where an index of -1 is `none`.
unfoldable pub next_index : Bool → Option ℕ → ℕ → ℕ
next_index forward none count = 0
next_index forward (some i) count =
    if forward
    then (if ltb (i + 1) count then i + 1 else count - 1)
    else if ltb (i - 1) count
    then i - 1
    else count - 1

abbrev open_item : Option ReaderStreamItem → Option Action
open_item none = none
open_item (some briefing) = some open_feed_briefing
open_item (some (article id)) = some (open_article id)

abbrev move : Bool → KeyParams → Option Action
move forward params = open_item (
    get_elem? params.reader_stream_items
      (next_index forward params.selected_feed_index (length params.reader_stream_items)))

abbrev open_if_linked : Option Text → Option Action
open_if_linked none = none
open_if_linked (some link) = if is_empty link then none else some (open_link link)

unfoldable pub handle_key_down : KeyParams → KeyEvent → Option Action
handle_key_down params event =
    if is_typing event.target
    then none
    else if params.is_blocking_overlay_open
    then if event.key == codes "Escape" then some close_overlays else none
    else if event.key == codes "j" || event.key == codes "k"
    then if is_nil params.reader_stream_items then none else move (event.key == codes "j") params
    else if event.key == codes "o"
    then open_if_linked params.selected_article_link
    else none

pub record SourceContextMenu : Type 0 where
  pub source : Source
  pub x : ℤ
  pub y : ℤ

pub record Overlays : Type 0 where
  pub source_profile_source : Option Source
  pub source_context_menu : Option SourceContextMenu
  pub pending_delete_source : Option Source
  pub show_feed_ai_more_menu : Bool
  pub show_detail_more_menu : Bool

abbrev given {ℓ} : {A : Type ℓ} → Option A → Bool
given none = false
given (some a) = true

unfoldable pub has_blocking_overlay_open : Overlays → Bool
has_blocking_overlay_open s =
    given s.source_profile_source
    || (given s.source_context_menu
        || (given s.pending_delete_source || (s.show_feed_ai_more_menu || s.show_detail_more_menu)))

unfoldable pub close_transient_overlays : Overlays → Overlays
close_transient_overlays s = record {
  source_profile_source = none;
  source_context_menu = none;
  pending_delete_source = none;
  show_feed_ai_more_menu = false;
  show_detail_more_menu = false;
}

abbrev pub min_ℤ : ℤ → ℤ → ℤ
min_ℤ a b = if leb_ℤ a b then a else b

abbrev pub max_ℤ : ℤ → ℤ → ℤ
max_ℤ a b = if leb_ℤ a b then b else a

abbrev pub margin : ℤ
margin = pos 10

-- Of the window's size.
unfoldable pub open_source_context_menu_at : ℤ → ℤ → Source → ℤ → ℤ → SourceContextMenu
open_source_context_menu_at width height source x y = record {
  source = source;
  x = max_ℤ margin (min_ℤ x (width -ℤ margin));
  y = max_ℤ margin (min_ℤ y (height -ℤ margin));
}

-- One coordinate of `clampContextMenuPosition`, for a window and a menu of these sizes.
unfoldable pub clamp_coordinate : ℤ → ℤ → ℤ → ℤ
clamp_coordinate window menu x = min_ℤ (max_ℤ x margin) (max_ℤ margin ((window -ℤ menu) -ℤ margin))

unfoldable pub adjust_source_context_menu : ℤ → ℤ → ℤ → ℤ → SourceContextMenu → SourceContextMenu
unfolding clamp_coordinate
adjust_source_context_menu width height menu_width menu_height menu = record menu {
  x = clamp_coordinate width menu_width menu.x;
  y = clamp_coordinate height menu_height menu.y;
}
