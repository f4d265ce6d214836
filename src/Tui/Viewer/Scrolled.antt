-- ===== src/Tui/Viewer/Scrolled.antt =====
-- The scroll position stays in its bounds, and the lines are those of the text.
use burp_tui.Prelude.{
  ℕ, ◌+◌, ◌-◌, ◌≤◌, ◌≡◌, refl, ◌⊎◌, inl, inr, Bytes, Bool, true, false, List, [], ◌∷◌, ◌==◌, ◌&&◌,
  arith, bytes_eq, codes, is_empty, if◌then◌else◌,
}
use burp_tui.Tui.Mouse.{
  Button, left, right, wheel_up, wheel_down, other_button, Motion, is_pressed, is_released, Box,
  contain, Position, word_at,
}
use burp_tui.Tui.Formatter.{Element}
use burp_tui.Tui.TextEditor.{
  Key, arrow_up, arrow_down, left_key, right_key, home_key, end_key, page_up, page_down, return_key,
  backspace_key, delete_key, tab_key, character, other_key, Event, mouse_event, key_event, is_close,
}
use burp_tui.Tui.Viewer.{
  Viewer, new_viewer, raw_lines_of, set_content, set_raw_text, scroll_to, scroll_up, scroll_down,
  copy_to_clipboard, get_selected_text, copy_at, finish_selection, on_left, on_button, target,
  copy_key, is_copy_key, press_key, on_event, render,
}

-- What the rest of the interface and the user may do with a viewer.
pub data Action : Type 0 where
  content : List Element → Bytes → Action
  raw : Bytes → (content_type : Bytes) → Action
  to_line up_by down_by : ℕ → Action
  copying : (ok : Bool) → Action
  rendering : Box → Action
  event : (ok : Bool) → Box → Event → Action

unfoldable pub act : Action → Viewer → Viewer
unfolding copy_to_clipboard on_event render
act (content rows s) v = set_content rows s v
act (raw s content_type) v = set_raw_text s content_type v
act (to_line y) v = scroll_to y v
act (up_by n) v = scroll_up n v
act (down_by n) v = scroll_down n v
act (copying ok) v = (copy_to_clipboard ok v).0
act (rendering box) v = (render box v).0
act (event ok box ev) v = (on_event ok box ev v).0

unfoldable pub run : List Action → Viewer → Viewer
unfolding act
run [] v = v
run (a ∷ more) v = run more (act a v)

-- the lines of the text, or nothing yet
abbrev pub IsText : Bytes → List Bytes → Type 0
IsText text lines = (lines ≡ raw_lines_of text) ⊎ ((lines ≡ []) × (text ≡ []))

abbrev pub IsValid : Viewer → Type 0
IsValid v = (v.scroll_y ≤ v.max_scroll) × IsText v.raw_text v.raw_lines

if_IsValid : (b : Bool) (v v' : Viewer) → IsValid v → IsValid v' → IsValid (if b then v else v')
if_IsValid true v v' h k = h
if_IsValid false v v' h k = k

if_IsValid_answer :
    (b : Bool) (r r' : Viewer × Bool) → IsValid r.0 → IsValid r'.0 → IsValid (if b then r else r').0
if_IsValid_answer true r r' h k = h
if_IsValid_answer false r r' h k = k

scroll_to-IsValid : (y : ℕ) (v : Viewer) → IsValid v → IsValid (scroll_to y v)
scroll_to-IsValid y v (h, k) = (omega arith, k)

copy_to_clipboard-IsValid :
    (ok : Bool) (v : Viewer) → IsValid v → IsValid (copy_to_clipboard ok v).0
unfolding copy_to_clipboard
copy_to_clipboard-IsValid ok v h = if_IsValid_answer (is_empty v.raw_text) _ _ h h

copy_at-IsValid : (ok : Bool) (p : Position) (v : Viewer) → IsValid v → IsValid (copy_at ok p v)
unfolding copy_at
copy_at-IsValid ok p v h =
    if_IsValid v.has_selection _ _ (if_IsValid (is_empty (get_selected_text v)) v _ h h) (
      if_IsValid (is_empty (word_at v.raw_lines p.row p.col)) _ _ (copy_to_clipboard-IsValid ok v h)
        h)

finish-IsValid : (p : Position) (v : Viewer) → IsValid v → IsValid (finish_selection p v)
unfolding finish_selection
finish-IsValid p v h =
    if_IsValid (v.sel_start.row == p.row && is_close v.sel_start.col p.col) _ _ h (
      if_IsValid (is_empty (get_selected_text (record v { selecting = false; sel_end = p }))) _ _ h
        h)

on_left-IsValid : (p : Position) (m : Motion) (v : Viewer) → IsValid v → IsValid (on_left p m v).0
unfolding on_left
on_left-IsValid p m v h = if_IsValid_answer (is_pressed m) _ _ h (
    if_IsValid_answer v.selecting _ _ h (
      if_IsValid_answer (is_released m) _ _
        (if_IsValid v.selecting (finish_selection p v) v (finish-IsValid p v h) h) h))

on_button-IsValid :
    (ok : Bool) (p : Position) (b : Button) (x y : ℕ) (mo : Motion) (v : Viewer)
    → IsValid v
    → IsValid (on_button ok p (record { x = x; y = y; button = b; motion = mo }) v).0
unfolding on_button
on_button-IsValid ok p wheel_up x y mo v h = scroll_to-IsValid (v.scroll_y - 3) v h
on_button-IsValid ok p wheel_down x y mo v h = scroll_to-IsValid (v.scroll_y + 3) v h
on_button-IsValid ok p left x y mo v h = on_left-IsValid p mo v h
on_button-IsValid ok p right x y mo v h =
    if_IsValid_answer (is_pressed mo) _ _ (copy_at-IsValid ok p v h) h
on_button-IsValid ok p other_button x y mo v h = h

copy_key-IsValid : (ok : Bool) (v : Viewer) → IsValid v → IsValid (copy_key ok v)
unfolding copy_key
copy_key-IsValid ok v h = if_IsValid v.has_selection _ _ h (copy_to_clipboard-IsValid ok v h)

press_key-IsValid : (ok : Bool) (k : Key) (v : Viewer) → IsValid v → IsValid (press_key ok k v).0
unfolding press_key
press_key-IsValid ok arrow_up v h = scroll_to-IsValid (v.scroll_y - 1) v h
press_key-IsValid ok arrow_down v h = scroll_to-IsValid (v.scroll_y + 1) v h
press_key-IsValid ok page_up v h = scroll_to-IsValid (v.scroll_y - 12) v h
press_key-IsValid ok page_down v h = scroll_to-IsValid (v.scroll_y + 12) v h
press_key-IsValid ok home_key v h = scroll_to-IsValid 0 v h
press_key-IsValid ok end_key v h = scroll_to-IsValid v.max_scroll v h
press_key-IsValid ok (character s) v h =
    if_IsValid_answer (bytes_eq s (codes "k")) _ _ (scroll_to-IsValid (v.scroll_y - 1) v h) (
      if_IsValid_answer (bytes_eq s (codes "j")) _ _ (scroll_to-IsValid (v.scroll_y + 1) v h)
        (if_IsValid_answer (is_copy_key s) _ _ (copy_key-IsValid ok v h) h))
press_key-IsValid ok left_key v h = h
press_key-IsValid ok right_key v h = h
press_key-IsValid ok return_key v h = h
press_key-IsValid ok backspace_key v h = h
press_key-IsValid ok delete_key v h = h
press_key-IsValid ok tab_key v h = h
press_key-IsValid ok other_key v h = h

on_event-IsValid :
    (ok : Bool) (box : Box) (ev : Event) (v : Viewer) → IsValid v → IsValid (on_event ok box ev v).0
unfolding on_event
on_event-IsValid ok box (mouse_event m) v h =
    if_IsValid_answer (contain box m) _ _
      (on_button-IsValid ok (target box m v) m.button m.x m.y m.motion v h)
      (if_IsValid_answer (v.selecting && is_released m.motion) _ _ h h)
on_event-IsValid ok box (key_event focused k) v h =
    if_IsValid_answer focused _ _ (press_key-IsValid ok k v h) h

act-IsValid : (a : Action) (v : Viewer) → IsValid v → IsValid (act a v)
unfolding act render
act-IsValid (content rows s) v h = (omega arith, inl refl)
act-IsValid (raw s content_type) v h = (omega arith, inl refl)
act-IsValid (to_line y) v h = scroll_to-IsValid y v h
act-IsValid (up_by n) v h = scroll_to-IsValid (v.scroll_y - n) v h
act-IsValid (down_by n) v h = scroll_to-IsValid (v.scroll_y + n) v h
act-IsValid (copying ok) v h = copy_to_clipboard-IsValid ok v h
act-IsValid (rendering box) v (h, k) = (omega arith, k)
act-IsValid (event ok box ev) v h = on_event-IsValid ok box ev v h

run_from : (actions : List Action) (v : Viewer) → IsValid v → IsValid (run actions v)
unfolding run
run_from [] v h = h
run_from (a ∷ more) v h = run_from more (act a v) (act-IsValid a v h)

-- From a new viewer, whatever is set, scrolled, clicked, dragged, pressed and drawn, with any box:
-- the scroll position is at most the last one that was worked out, and the lines that a selection
-- is taken from are those of the text that is shown, or both are empty.
pub scroll_in_bounds : (actions : List Action) → IsValid (run actions new_viewer)
scroll_in_bounds actions = run_from actions new_viewer (omega arith, inr (refl, refl))
