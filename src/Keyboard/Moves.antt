-- ===== src/Keyboard/Moves.antt =====
-- The items that keys open, and the place of the menu.
use urwhaturead.Prelude.{
  ℕ, zero, suc, ◌+◌, ◌-◌, ◌<◌, ◌≡◌, refl, Bool, true, false, Option, none, some, List, [], ◌∷◌,
  length, get_elem?, if◌then◌else◌, ltb, text_eq, text_beq, Text, codes, ℤ, ◌-ℤ◌, leb_ℤ, ◌&&◌,
  arith,
}
use urwhaturead.Stream.{ReaderStreamItem, is_nil}
use urwhaturead.Keyboard.{
  KeyParams, KeyEvent, next_index, handle_key_down, open_item, SourceContextMenu, margin,
  clamp_coordinate, adjust_source_context_menu,
}

pub next_index-lt :
    (forward : Bool) (selected : Option ℕ) (count : ℕ)
    → 0 < count
    → next_index forward selected count < count
unfolding next_index
next_index-lt forward selected count h = ground arith

-- The index behind some presses of `j`, each of which selects what it opens.
pub walk : ℕ → ℕ → ℕ
walk zero count = next_index true none count
walk (suc n) count = next_index true (some (walk n count)) count

pub walk_lem : (n count : ℕ) → 0 < count → walk n count ≡ (if ltb n count then n else count - 1)
unfolding walk next_index
walk_lem zero count h = ground arith
walk_lem (suc n) count h = ground (arith, walk_lem n count h)

-- Of a selection before the last item, `k` goes back to where `j` came from.
pub next_index-next_index :
    (i count : ℕ)
    → i + 1 < count
    → next_index false (some (next_index true (some i) count)) count ≡ i
unfolding next_index
next_index-next_index i count h = ground arith

-- The event of a key on an element that is no field.
abbrev pub press : Text → KeyEvent
press key = record { key = key; target = none }

-- What is selected before the press of `j` with this number, from 0.
unfoldable pub behind : ℕ → ℕ → Option ℕ
behind zero count = none
behind (suc n) count = some (walk n count)

pub next_index-behind : (n count : ℕ) → next_index true (behind n count) count ≡ walk n count
unfolding behind walk
next_index-behind zero count = refl
next_index-behind (suc n) count = refl

get_elem?-nil :
    (items : List ReaderStreamItem) (n : ℕ) (item : ReaderStreamItem)
    → get_elem? items n ≡ some item
    → is_nil items ≡ false
get_elem?-nil [] n item h = ground arith
get_elem?-nil (x ∷ items) n item h = refl

count-get_elem? :
    (items : List ReaderStreamItem) (n : ℕ) (item : ReaderStreamItem)
    → get_elem? items n ≡ some item
    → 0 < length items
count-get_elem? [] n item h = ground arith
count-get_elem? (x ∷ items) n item h = omega arith

-- If the selection is the one behind some presses of `j`, and no menu or dialog is open, the next one
-- opens the item at that number of the list, or the last one.
pub handle_key_down_lem :
    (n : ℕ) (params : KeyParams) (item : ReaderStreamItem)
    → params.is_blocking_overlay_open ≡ false
    → (let count = length params.reader_stream_items in
        get_elem? params.reader_stream_items (if ltb n count then n else count - 1) ≡ some item)
    → handle_key_down
        (record params { selected_feed_index = behind n (length params.reader_stream_items) })
        (press (codes "j"))
      ≡ open_item (some item)
unfolding handle_key_down text_beq
handle_key_down_lem n params item h k =
    let items = params.reader_stream_items in
    let count = length items in
    let i = if ltb n count then n else count - 1 in
    rw (
      h,
      get_elem?-nil items i item k,
      next_index-behind n count,
      walk_lem n count (count-get_elem? items i item k),
      k,
    )

clamp-twice :
    (window menu x : ℤ)
    → clamp_coordinate window menu (clamp_coordinate window menu x) ≡ clamp_coordinate window menu x
unfolding clamp_coordinate
clamp-twice window menu x = ground arith

-- Whether a menu of this size at this offset leaves the margin free on both sides.
abbrev pub stands : ℤ → ℤ → ℤ → Bool
stands window menu x = leb_ℤ margin x && leb_ℤ x ((window -ℤ menu) -ℤ margin)

-- Whether the window has room for a menu of this size and its two margins.
abbrev pub has_room : ℤ → ℤ → Bool
has_room window menu = leb_ℤ margin ((window -ℤ menu) -ℤ margin)

clamp-stands :
    (window menu x : ℤ) → stands window menu (clamp_coordinate window menu x) ≡ has_room window menu
unfolding clamp_coordinate
clamp-stands window menu x = ground arith

-- The effect that moves the menu into the window settles: run on its own result, it moves nothing.
-- In either direction the menu then has its margins free on both sides exactly if the window has
-- room for the menu and the margins.
pub adjust_source_context_menu_settles :
    (width height menu_width menu_height : ℤ) (menu : SourceContextMenu)
    → let adjusted = adjust_source_context_menu width height menu_width menu_height menu in
      (adjust_source_context_menu width height menu_width menu_height adjusted ≡ adjusted)
      × (stands width menu_width adjusted.x ≡ has_room width menu_width)
      × (stands height menu_height adjusted.y ≡ has_room height menu_height)
unfolding adjust_source_context_menu
adjust_source_context_menu_settles width height menu_width menu_height menu = (
  (λ i. record menu {
    x = clamp-twice width menu_width menu.x i;
    y = clamp-twice height menu_height menu.y i;
  }),
  clamp-stands width menu_width menu.x,
  clamp-stands height menu_height menu.y,
)
