-- ===== src/Tui/TextEditor.antt =====
-- The editor of a request (`TextEditor`): lines of text, a cursor, a scroll position and a
-- selection.
--
-- The box that the layout gives the component, whether it has the focus, and whether
-- `Clipboard::copy` succeeds are arguments; what is handed to it is appended to `copied`.
-- `TakeFocus` is left out, and what `Render` draws is in TextEditor/Render. The fields of the
-- selection are -1 at first, which does not matter before a press sets them; here they are 0.
use burp_tui.Prelude.{
  ℕ, zero, suc, ◌+◌, ◌-◌, min, max, Bytes, codes, Bool, true, false, not, Option, none, some, List,
  [], ◌∷◌, ◌++◌, ◌==◌, ◌&&◌, ◌||◌, ltb, leb, find, is_empty, length, take, drop, to_string, set,
  insert_at, erase_idx, if◌then◌else◌,
}
use burp_tui.Tui.Mouse.{
  Mouse, Button, Motion, left, right, wheel_up, wheel_down, other_button, is_pressed, is_released,
  Box, contain, Position, line_at, text_between, word_at,
}
pub mod Text
pub mod Valid
pub mod History
pub mod Refine
pub mod Keys
pub mod Selection
pub mod Render
mod Tests

pub record TextEditor : Type 0 where
  pub lines : List Bytes
  pub cursor_row : ℕ
  pub cursor_col : ℕ
  pub scroll_y : ℕ
  pub status_msg : Bytes
  pub selecting : Bool
  pub has_selection : Bool
  pub sel_start : Position
  pub sel_end : Position
  pub copied : List Bytes

abbrev pub origin : Position
origin = record { row = 0; col = 0 }

-- the constructor
abbrev pub new_editor : TextEditor
new_editor = record {
  lines = [] ∷ [];
  cursor_row = 0;
  cursor_col = 0;
  scroll_y = 0;
  status_msg = [];
  selecting = false;
  has_selection = false;
  sel_start = origin;
  sel_end = origin;
  copied = [];
}

unfoldable pub without_returns : Bytes → Bytes
without_returns [] = []
without_returns (c ∷ cs) = let rest = without_returns cs in if c == 13 then rest else c ∷ rest

-- The loop of `SetText` on what is left of the text, with the rounds that it may take.
unfoldable pub split_loop : ℕ → Bytes → List Bytes
split_loop zero text = []
split_loop (suc n) text =
    let from_line : List Bytes = elim (find text (10 ∷ [])) [
      | none ↦ text ∷ []
      | some end ↦
          let rest = drop (end + 1) text in
          let more = take end text ∷ split_loop n rest in
          if is_empty rest then take end text ∷ [] ∷ [] else more
    ] in
    if is_empty text then [] else from_line

unfoldable pub split_lines : Bytes → List Bytes
unfolding split_loop
split_lines clean =
    let found = split_loop (length clean) clean in if is_empty found then [] ∷ [] else found

abbrev pub at_top : TextEditor → TextEditor
at_top e = record e {
  cursor_row = 0;
  cursor_col = 0;
  scroll_y = 0;
  has_selection = false;
  selecting = false;
}

unfoldable pub set_text : Bytes → TextEditor → TextEditor
unfolding without_returns split_lines
set_text text e = record (at_top e) { lines = split_lines (without_returns text); status_msg = [] }

unfoldable pub joined_lines : List Bytes → Bytes
joined_lines [] = []
joined_lines (l ∷ []) = l
joined_lines (l ∷ m ∷ ls) = l ++ (13 ∷ 10 ∷ joined_lines (m ∷ ls))

abbrev pub get_text : TextEditor → Bytes
get_text e = joined_lines e.lines

unfoldable pub clear : TextEditor → TextEditor
clear e = record (at_top e) { lines = [] ∷ []; status_msg = codes "Cleared" }

abbrev pub bytes_note : Bytes → Bytes → Bytes
bytes_note note text = note ++ (codes " (" ++ (to_string (length text) ++ codes " B)"))

-- `ok`: what `Clipboard::copy` answers
unfoldable pub copy_to_clipboard : Bool → TextEditor → TextEditor × Bool
unfolding joined_lines
copy_to_clipboard ok e =
    let text = get_text e in
    let tried = record e {
      copied = e.copied ++ text ∷ [];
      status_msg =
          if ok then bytes_note (codes "Copied entire text") text else codes "Failed to copy";
    } in
    if is_empty text then (e, false) else (tried, ok)

unfoldable pub get_selected_text : TextEditor → Bytes
unfolding text_between
get_selected_text e = if e.has_selection then text_between e.lines e.sel_start e.sel_end else []

unfoldable pub ensure_cursor_visible : ℕ → TextEditor → TextEditor
ensure_cursor_visible height e =
    let scrolled =
      if ltb e.cursor_row e.scroll_y
      then e.cursor_row
      else if leb (e.scroll_y + height) e.cursor_row
      then e.cursor_row + 1 - height
      else e.scroll_y in
    if height == 0 then e else record e { scroll_y = min (length e.lines - height) scrolled }

abbrev pub cursor_line : TextEditor → Bytes
cursor_line e = line_at e.lines e.cursor_row

-- The line is cut at the cursor, and the rest becomes the next line.
unfoldable pub break_line : TextEditor → TextEditor
break_line e = record e {
  lines =
      insert_at (set e.lines e.cursor_row (take e.cursor_col (cursor_line e))) (e.cursor_row + 1)
        (drop e.cursor_col (cursor_line e));
  cursor_row = e.cursor_row + 1;
  cursor_col = 0;
}

abbrev pub put_in_line : Bytes → TextEditor → TextEditor
put_in_line s e = record e {
  lines =
      set e.lines e.cursor_row
        (take e.cursor_col (cursor_line e) ++ (s ++ drop e.cursor_col (cursor_line e)));
  cursor_col = e.cursor_col + length s;
}

-- `insertString`, one byte
unfoldable pub insert_byte : ℕ → TextEditor → TextEditor
unfolding break_line
insert_byte c e = if c == 13 then e else if c == 10 then break_line e else put_in_line (c ∷ []) e

unfoldable pub insert_string : Bytes → TextEditor → TextEditor
unfolding insert_byte
insert_string [] e = e
insert_string (c ∷ cs) e = insert_string cs (insert_byte c e)

unfoldable pub backspace : ℕ → TextEditor → TextEditor
unfolding ensure_cursor_visible
backspace height e =
    let line = cursor_line e in
    let above = line_at e.lines (e.cursor_row - 1) in
    let erased = record e {
      lines = set e.lines e.cursor_row (take (e.cursor_col - 1) line ++ drop e.cursor_col line);
      cursor_col = e.cursor_col - 1;
    } in
    let merged = record e {
      lines = erase_idx (set e.lines (e.cursor_row - 1) (above ++ line)) e.cursor_row;
      cursor_row = e.cursor_row - 1;
      cursor_col = length above;
    } in
    if ltb 0 e.cursor_col
    then erased
    else if ltb 0 e.cursor_row
    then ensure_cursor_visible height merged
    else e

unfoldable pub delete : ℕ → TextEditor → TextEditor
unfolding ensure_cursor_visible
delete height e =
    let line = cursor_line e in
    let erased = record e {
      lines = set e.lines e.cursor_row (take e.cursor_col line ++ drop (e.cursor_col + 1) line);
    } in
    let merged = record e {
      lines =
          erase_idx (set e.lines e.cursor_row (line ++ line_at e.lines (e.cursor_row + 1)))
            (e.cursor_row + 1);
    } in
    if ltb e.cursor_col (length line)
    then erased
    else if ltb (e.cursor_row + 1) (length e.lines)
    then ensure_cursor_visible height merged
    else e

-- to row `r`, where the column is cut to the length of the line
abbrev pub to_row : ℕ → ℕ → TextEditor → TextEditor
to_row height r e =
    ensure_cursor_visible height
      (record e { cursor_row = r; cursor_col = min e.cursor_col (length (line_at e.lines r)) })

abbrev pub arrow_left : ℕ → TextEditor → TextEditor
arrow_left height e =
    if ltb 0 e.cursor_col
    then record e { cursor_col = e.cursor_col - 1 }
    else if ltb 0 e.cursor_row
    then ensure_cursor_visible height (record e {
      cursor_row = e.cursor_row - 1;
      cursor_col = length (line_at e.lines (e.cursor_row - 1));
    })
    else e

abbrev pub arrow_right : ℕ → TextEditor → TextEditor
arrow_right height e =
    if ltb e.cursor_col (length (cursor_line e))
    then record e { cursor_col = e.cursor_col + 1 }
    else if ltb (e.cursor_row + 1) (length e.lines)
    then ensure_cursor_visible height (record e { cursor_row = e.cursor_row + 1; cursor_col = 0 })
    else e

-- The keys that `OnEvent` tells apart; `character` is a character or a pasted text.
pub data Key : Type 0 where
  arrow_up arrow_down left_key right_key home_key end_key page_up page_down : Key
  return_key backspace_key delete_key tab_key : Key
  character : Bytes → Key
  other_key : Key

-- What a key does, but for the end of the selection.
unfoldable pub press_key : ℕ → Key → TextEditor → TextEditor
unfolding ensure_cursor_visible insert_string break_line backspace delete
press_key height arrow_up e = if ltb 0 e.cursor_row then to_row height (e.cursor_row - 1) e else e
press_key height arrow_down e =
    if ltb (e.cursor_row + 1) (length e.lines) then to_row height (e.cursor_row + 1) e else e
press_key height left_key e = arrow_left height e
press_key height right_key e = arrow_right height e
press_key height home_key e = record e { cursor_col = 0 }
press_key height end_key e = record e { cursor_col = length (cursor_line e) }
press_key height page_up e = to_row height (e.cursor_row - 10) e
press_key height page_down e = to_row height (min (length e.lines - 1) (e.cursor_row + 10)) e
press_key height return_key e = ensure_cursor_visible height (break_line e)
press_key height backspace_key e = backspace height e
press_key height delete_key e = delete height e
press_key height tab_key e = put_in_line (codes "    ") e
press_key height (character s) e = ensure_cursor_visible height (insert_string s e)
press_key height other_key e = e

abbrev pub is_known : Key → Bool
is_known other_key = false
is_known _ = true

-- `std::max(2, y_max - y_min - 2)`
abbrev pub visible_height : Box → ℕ
visible_height box = max 2 (box.y_max - box.y_min - 2)

-- the cell of the text under the mouse
abbrev pub target : Box → Mouse → TextEditor → Position
target box m e =
    let r = min (length e.lines - 1) (e.scroll_y + (m.y - box.y_min - 1)) in
    record { row = r; col = min (length (line_at e.lines r)) (m.x - box.x_min - 6) }

abbrev pub move_cursor : Position → TextEditor → TextEditor
move_cursor p e = record e { cursor_row = p.row; cursor_col = p.col }

abbrev pub copy_text : Bytes → Bytes → TextEditor → TextEditor
copy_text status text e =
    if is_empty text then e else record e { copied = e.copied ++ text ∷ []; status_msg = status }

-- a press of the right button
unfoldable pub copy_at : Bool → Position → TextEditor → TextEditor
unfolding get_selected_text word_at copy_to_clipboard
copy_at ok p e =
    let sel = get_selected_text e in
    let word = word_at e.lines p.row p.col in
    if e.has_selection
    then copy_text (bytes_note (codes "Copied selection") sel) sel e
    else if is_empty word
    then (copy_to_clipboard ok e).0
    else copy_text (codes "Copied word: " ++ word) word e

-- `std::abs(a - b) <= 1`
abbrev pub is_close : ℕ → ℕ → Bool
is_close a b = leb a (b + 1) && leb b (a + 1)

-- a release of the left button that ends a selection
unfoldable pub finish_selection : Position → TextEditor → TextEditor
unfolding get_selected_text
finish_selection p e =
    let e' = record e { selecting = false; sel_end = p } in
    let sel = get_selected_text e' in
    if e.sel_start.row == p.row && is_close e.sel_start.col p.col
    then record e' { has_selection = false }
    else copy_text (bytes_note (codes "Copied") sel) sel e'

-- The left button, its tests in the order of the code.
unfoldable pub on_left : Position → Motion → TextEditor → TextEditor × Bool
unfolding finish_selection
on_left p motion e =
    let begun = record (move_cursor p e) {
      sel_start = p;
      sel_end = p;
      selecting = true;
      has_selection = true;
    } in
    if is_pressed motion
    then (begun, true)
    else if e.selecting
    then (record (move_cursor p e) { sel_end = p }, true)
    else if is_released motion
    then (if e.selecting then finish_selection p e else e, true)
    else (e, false)

-- a mouse event within the box
unfoldable pub on_button : Bool → Box → Position → Mouse → TextEditor → TextEditor × Bool
unfolding on_left copy_at
on_button ok box p m e = elim m.button [
  | wheel_up ↦ (record e { scroll_y = e.scroll_y - 3 }, true)
  | wheel_down ↦
      (record e { scroll_y = min (length e.lines - visible_height box) (e.scroll_y + 3) }, true)
  | left ↦ on_left p m.motion e
  | right ↦ if is_pressed m.motion then (copy_at ok p e, true) else (e, false)
  | other_button ↦ (e, false)
]

pub data Event : Type 0 where
  mouse_event : Mouse → Event
  key_event : (focused : Bool) → Key → Event

-- `OnEvent`: the state after it, and whether the event was taken
unfoldable pub on_event : Bool → Box → Event → TextEditor → TextEditor × Bool
unfolding on_button press_key
on_event ok box (mouse_event m) e =
    if contain box m
    then on_button ok box (target box m e) m e
    else if e.selecting && is_released m.motion
    then (record e { selecting = false }, true)
    else (e, false)
on_event ok box (key_event focused k) e =
    if focused && is_known k
    then (record (press_key (visible_height box) k e) { has_selection = false }, true)
    else (e, false)

-- What the rest of the interface and the user may do with an editor, each with what the clipboard
-- answers and the box at that time.
pub data Action : Type 0 where
  setting : Bytes → Action
  clearing : Action
  copying : (ok : Bool) → Action
  rendering : (height : ℕ) → Action
  event : (ok : Bool) (box : Box) → Event → Action

unfoldable pub act : Action → TextEditor → TextEditor
unfolding set_text clear copy_to_clipboard on_event ensure_cursor_visible
act (setting s) e = set_text s e
act clearing e = clear e
act (copying ok) e = (copy_to_clipboard ok e).0
act (rendering height) e = ensure_cursor_visible height e
act (event ok box ev) e = (on_event ok box ev e).0

unfoldable pub run : List Action → TextEditor → TextEditor
unfolding act
run [] e = e
run (a ∷ more) e = run more (act a e)
