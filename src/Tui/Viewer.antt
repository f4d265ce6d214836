-- ===== src/Tui/Viewer.antt =====
-- The view of a message (`ScrollableViewer`): its rows, its text, a scroll position and a
-- selection in the text. As for the editor, the box, the focus and what the clipboard answers are
-- arguments, and what is handed to the clipboard is appended to `copied`.
use burp_tui.Prelude.{
  ℕ, zero, suc, ◌+◌, ◌-◌, min, max, Bytes, codes, Bool, true, false, List, [], ◌∷◌, ◌++◌, ◌==◌,
  ◌&&◌, ◌||◌, bytes_eq, ltb, leb, is_empty, length, get_or, to_string, if◌then◌else◌,
}
use burp_tui.Http.Raw.{lines}
use burp_tui.Tui.Mouse.{
  Mouse, left, right, wheel_up, wheel_down, other_button, Motion, is_pressed, is_released, Box,
  contain, Position, line_at, text_between, word_at,
}
use burp_tui.Tui.Marking.{Pieces, in_order, mark, rows_from}
use burp_tui.Tui.Formatter.{Element, text, separator, format_body_lines}
use burp_tui.Tui.TextEditor.{
  origin, without_returns, bytes_note, is_close, Key, arrow_up, arrow_down, home_key, end_key,
  page_up, page_down, character, Event, mouse_event, key_event,
}
pub mod Scrolled
pub mod Drawn
mod Tests

pub record Viewer : Type 0 where
  pub raw_text : Bytes
  pub rows : List Element
  pub raw_lines : List Bytes
  pub scroll_y : ℕ
  pub max_scroll : ℕ
  pub status_msg : Bytes
  pub selecting : Bool
  pub has_selection : Bool
  pub sel_start : Position
  pub sel_end : Position
  pub copied : List Bytes

abbrev pub new_viewer : Viewer
new_viewer = record {
  raw_text = [];
  rows = [];
  raw_lines = [];
  scroll_y = 0;
  max_scroll = 0;
  status_msg = [];
  selecting = false;
  has_selection = false;
  sel_start = origin;
  sel_end = origin;
  copied = [];
}

-- `updateRawLines`
unfoldable pub raw_lines_of : Bytes → List Bytes
unfolding without_returns lines
raw_lines_of raw =
    let found = lines (without_returns raw) in if is_empty found then [] ∷ [] else found

abbrev pub set_content : List Element → Bytes → Viewer → Viewer
set_content rows raw v = record v {
  rows = rows;
  raw_text = raw;
  raw_lines = raw_lines_of raw;
  scroll_y = 0;
  status_msg = [];
  has_selection = false;
  selecting = false;
}

abbrev pub set_raw_text : Bytes → Bytes → Viewer → Viewer
set_raw_text raw content_type v = set_content (format_body_lines raw content_type) raw v

abbrev pub scroll_to : ℕ → Viewer → Viewer
scroll_to y v = record v { scroll_y = min v.max_scroll y }

-- `ScrollBy` of a negative and of a positive number
abbrev pub scroll_up : ℕ → Viewer → Viewer
scroll_up n v = scroll_to (v.scroll_y - n) v

abbrev pub scroll_down : ℕ → Viewer → Viewer
scroll_down n v = scroll_to (v.scroll_y + n) v

unfoldable pub copy_to_clipboard : Bool → Viewer → Viewer × Bool
copy_to_clipboard ok v =
    let tried = record v {
      copied = v.copied ++ v.raw_text ∷ [];
      status_msg =
          if ok then bytes_note (codes "Copied entire text") v.raw_text else codes "Failed to copy";
    } in
    if is_empty v.raw_text then (v, false) else (tried, ok)

unfoldable pub get_selected_text : Viewer → Bytes
unfolding text_between
get_selected_text v = if v.has_selection then text_between v.raw_lines v.sel_start v.sel_end else []

abbrev pub copy_text : Bytes → Bytes → Viewer → Viewer
copy_text status sel v = record v { copied = v.copied ++ sel ∷ []; status_msg = status }

-- the same where there is a text to copy
abbrev pub copy_some : Bytes → Bytes → Viewer → Viewer
copy_some status sel v = if is_empty sel then v else copy_text status sel v

abbrev pub target : Box → Mouse → Viewer → Position
target box m v = record { row = v.scroll_y + (m.y - box.y_min); col = m.x - box.x_min }

-- a press of the right button
unfoldable pub copy_at : Bool → Position → Viewer → Viewer
unfolding get_selected_text word_at copy_to_clipboard
copy_at ok p v =
    let sel = get_selected_text v in
    let word = word_at v.raw_lines p.row p.col in
    if v.has_selection
    then copy_some (bytes_note (codes "Copied selection") sel) sel v
    else if is_empty word
    then (copy_to_clipboard ok v).0
    else copy_text (codes "Copied word: " ++ word) word v

-- a release of the left button that ends a selection
unfoldable pub finish_selection : Position → Viewer → Viewer
unfolding get_selected_text
finish_selection p v =
    let v' = record v { selecting = false; sel_end = p } in
    let sel = get_selected_text v' in
    if v.sel_start.row == p.row && is_close v.sel_start.col p.col
    then record v' { has_selection = false }
    else copy_some (bytes_note (codes "Copied") sel) sel v'

-- The left button, its tests in the order of the code.
unfoldable pub on_left : Position → Motion → Viewer → Viewer × Bool
unfolding finish_selection
on_left p motion v =
    let begun = record v { sel_start = p; sel_end = p; selecting = true; has_selection = true } in
    if is_pressed motion
    then (begun, true)
    else if v.selecting
    then (record v { sel_end = p }, true)
    else if is_released motion
    then (if v.selecting then finish_selection p v else v, true)
    else (v, false)

unfoldable pub on_button : Bool → Position → Mouse → Viewer → Viewer × Bool
unfolding on_left copy_at
on_button ok p m v = elim m.button [
  | wheel_up ↦ (scroll_up 3 v, true)
  | wheel_down ↦ (scroll_down 3 v, true)
  | left ↦ on_left p m.motion v
  | right ↦ if is_pressed m.motion then (copy_at ok p v, true) else (v, false)
  | other_button ↦ (v, false)
]

-- `y`, `c` and `C`
unfoldable pub copy_key : Bool → Viewer → Viewer
unfolding get_selected_text copy_to_clipboard
copy_key ok v =
    let sel = get_selected_text v in
    if v.has_selection
    then copy_text (bytes_note (codes "Copied selection") sel) sel v
    else (copy_to_clipboard ok v).0

abbrev pub is_copy_key : Bytes → Bool
is_copy_key s = bytes_eq s (codes "y") || bytes_eq s (codes "c") || bytes_eq s (codes "C")

unfoldable pub press_key : Bool → Key → Viewer → Viewer × Bool
unfolding copy_key
press_key ok arrow_up v = (scroll_up 1 v, true)
press_key ok arrow_down v = (scroll_down 1 v, true)
press_key ok page_up v = (scroll_up 12 v, true)
press_key ok page_down v = (scroll_down 12 v, true)
press_key ok home_key v = (scroll_to 0 v, true)
press_key ok end_key v = (scroll_to v.max_scroll v, true)
press_key ok (character s) v =
    if bytes_eq s (codes "k")
    then (scroll_up 1 v, true)
    else if bytes_eq s (codes "j")
    then (scroll_down 1 v, true)
    else if is_copy_key s
    then (copy_key ok v, true)
    else (v, false)
press_key ok _ v = (v, false)

-- `OnEvent`: the state after it, and whether the event was taken
unfoldable pub on_event : Bool → Box → Event → Viewer → Viewer × Bool
unfolding on_button press_key
on_event ok box (mouse_event m) v =
    if contain box m
    then on_button ok (target box m v) m v
    else if v.selecting && is_released m.motion
    then (record v { selecting = false }, true)
    else (v, false)
on_event ok box (key_event focused k) v = if focused then press_key ok k v else (v, false)

-- a row as it is drawn: a line of the text with a part marked, or the row that was set
pub data Shown : Type 0 where
  marked_row : Pieces → Shown
  plain_row : Element → Shown

abbrev pub visible_height : Box → ℕ
visible_height box = max 2 (box.y_max - box.y_min + 1 - 2)

abbrev pub is_marked : Viewer → ℕ → Bool
is_marked v i =
    let (p, q) = in_order v.sel_start v.sel_end in
    v.has_selection && (leb p.row i && leb i q.row) && ltb i (length v.raw_lines)

abbrev pub draw_row : Viewer → ℕ → Element → Shown
draw_row v i row =
    let (p, q) = in_order v.sel_start v.sel_end in
    if is_marked v i then marked_row (mark p q i (line_at v.raw_lines i)) else plain_row row

abbrev pub clamped : Box → Viewer → Viewer
clamped box v =
    let most = length v.rows - visible_height box in
    record v { max_scroll = most; scroll_y = min most v.scroll_y }

abbrev pub pos_info : Viewer → Bytes
pos_info v =
    let place =
      codes "["
      ++ (to_string (v.scroll_y + 1)
          ++ (codes "/" ++ (to_string (max 1 (length v.rows)) ++ codes "]"))) in
    if is_empty v.status_msg then place else v.status_msg ++ (codes "  " ++ place)

-- the state after it, the rows and the position in the footer
unfoldable pub render : Box → Viewer → Viewer × List Shown × Bytes
unfolding mark rows_from
render box v =
    let v' = clamped box v in
    let rows =
      rows_from (λ i. draw_row v' i (get_or v'.rows i separator)) (length v'.rows)
        (visible_height box) v'.scroll_y in
    (v', if is_empty rows then plain_row (text (codes "(No content)")) ∷ [] else rows, pos_info v')
