-- ===== src/Tui/TextEditor/History.antt =====
-- The cursor over all histories of an editor.
use burp_tui.Prelude.{
  ℕ, ◌+◌, ◌-◌, ◌<◌, min, ◌≡◌, refl, Bytes, Bool, true, false, List, [], ◌∷◌, ◌==◌, ◌&&◌, arith,
  codes, ltb, ltb→lt, is_empty, length, if◌then◌else◌, Bool-cases, inl, inr,
}
use burp_tui.Tui.Mouse.{
  Mouse, Button, Motion, left, right, wheel_up, wheel_down, other_button, Box, contain, Position,
  word_at, is_pressed, is_released,
}
use burp_tui.Tui.TextEditor.{
  TextEditor, new_editor, without_returns, set_text, clear, cursor_line, break_line, insert_string,
  to_row, Key, arrow_up, arrow_down, left_key, right_key, home_key, end_key, page_up, page_down,
  return_key, backspace_key, delete_key, tab_key, character, other_key, press_key, visible_height,
  target, copy_text, copy_at, finish_selection, on_left, on_button, Event, mouse_event, key_event,
  on_event, is_known, copy_to_clipboard, get_selected_text, get_text, is_close, Action, setting,
  clearing, copying, rendering, event, act, run,
}
use burp_tui.Tui.TextEditor.Text.{
  lines_of, split_lines_lem, lines_of-IsClean, lines_of_nonempty, All-without_returns,
}
use burp_tui.Tui.TextEditor.Valid.{
  InText, IsValid, ensure-IsValid, break_line-IsValid, put_in_line-IsValid, insert_string-IsValid,
  backspace-IsValid, delete-IsValid,
}

to_row-IsValid :
    (h r : ℕ) (e : TextEditor) → IsValid e → r < length e.lines → IsValid (to_row h r e)
to_row-IsValid h r e (_, _, k) b = ensure-IsValid h _ (b, omega arith, k)

if_IsValid :
    (b : Bool) (e e' : TextEditor)
    → (b ≡ true → IsValid e)
    → IsValid e'
    → IsValid (if b then e else e')
if_IsValid true e e' h k = h refl
if_IsValid false e e' h k = k

press_key-IsValid : (h : ℕ) (k : Key) (e : TextEditor) → IsValid e → IsValid (press_key h k e)
unfolding press_key
press_key-IsValid h arrow_up e v =
    if_IsValid (ltb 0 e.cursor_row) _ e (λ p. to_row-IsValid h (e.cursor_row - 1) e v (omega arith))
      v
press_key-IsValid h arrow_down e v =
    if_IsValid (ltb (e.cursor_row + 1) (length e.lines)) _ e
      (λ p. to_row-IsValid h (e.cursor_row + 1) e v (ltb→lt _ _ p)) v
press_key-IsValid h left_key e (r, c, k) =
    if_IsValid (ltb 0 e.cursor_col) _ _ (λ p. (r, omega arith, k))
      (if_IsValid (ltb 0 e.cursor_row) _ e (λ p. ensure-IsValid h _ (omega arith, omega arith, k))
        (r, c, k))
press_key-IsValid h right_key e (r, c, k) =
    if_IsValid (ltb e.cursor_col (length (cursor_line e))) _ _
      (λ p. let q = ltb→lt _ _ p in (r, omega arith, k))
      (if_IsValid (ltb (e.cursor_row + 1) (length e.lines)) _ e
        (λ p. ensure-IsValid h _ (ltb→lt _ _ p, omega arith, k)) (r, c, k))
press_key-IsValid h home_key e (r, c, k) = (r, omega arith, k)
press_key-IsValid h end_key e (r, c, k) = (r, omega arith, k)
press_key-IsValid h page_up e v = to_row-IsValid h (e.cursor_row - 10) e v (omega arith)
press_key-IsValid h page_down e v =
    to_row-IsValid h (min (length e.lines - 1) (e.cursor_row + 10)) e v (omega arith)
press_key-IsValid h return_key e v = ensure-IsValid h (break_line e) (break_line-IsValid e v)
press_key-IsValid h backspace_key e v = backspace-IsValid h e v
press_key-IsValid h delete_key e v = delete-IsValid h e v
press_key-IsValid h tab_key e v =
    put_in_line-IsValid (codes "    ") e
      ((refl, refl), ((refl, refl), ((refl, refl), ((refl, refl), tt)))) v
press_key-IsValid h (character s) e v =
    ensure-IsValid h (insert_string s e) (insert_string-IsValid s e v)
press_key-IsValid h other_key e v = v

copy_text-IsValid :
    (status text : Bytes) (e : TextEditor) → IsValid e → IsValid (copy_text status text e)
copy_text-IsValid status text e v = if_IsValid (is_empty text) e _ (λ p. v) v

copy_to_clipboard-IsValid :
    (ok : Bool) (e : TextEditor) → IsValid e → IsValid (copy_to_clipboard ok e).0
unfolding copy_to_clipboard
copy_to_clipboard-IsValid ok e v = elim (Bool-cases (is_empty (get_text e))) [
  | inl p ↦ rw (copy_to_clipboard, p) v
  | inr p ↦ rw (copy_to_clipboard, p) v
]

copy_at-IsValid : (ok : Bool) (p : Position) (e : TextEditor) → IsValid e → IsValid (copy_at ok p e)
unfolding copy_at
copy_at-IsValid ok p e v =
    if_IsValid e.has_selection _ _ (λ s. copy_text-IsValid _ (get_selected_text e) e v)
      (if_IsValid (is_empty (word_at e.lines p.row p.col)) _ _
        (λ w. copy_to_clipboard-IsValid ok e v)
        (copy_text-IsValid _ (word_at e.lines p.row p.col) e v))

finish-IsValid : (p : Position) (e : TextEditor) → IsValid e → IsValid (finish_selection p e)
unfolding finish_selection
finish-IsValid p e v =
    let e' = record e { selecting = false; sel_end = p } in
    if_IsValid (e.sel_start.row == p.row && is_close e.sel_start.col p.col) _ _ (λ q. v)
      (copy_text-IsValid _ (get_selected_text e') e' v)

-- the same of a result with its answer
if_IsValid_answer :
    (b : Bool) (r r' : TextEditor × Bool)
    → (b ≡ true → IsValid r.0)
    → IsValid r'.0
    → IsValid (if b then r else r').0
if_IsValid_answer true r r' h k = h refl
if_IsValid_answer false r r' h k = k

on_left-IsValid :
    (p : Position) (m : Motion) (e : TextEditor)
    → IsValid e
    → InText e.lines p.row p.col
    → IsValid (on_left p m e).0
unfolding on_left
on_left-IsValid p m e v t =
    if_IsValid_answer (is_pressed m) _ _ (λ q. t)
      (if_IsValid_answer e.selecting _ _ (λ q. t)
        (if_IsValid_answer (is_released m) _ _
          (λ q. if_IsValid e.selecting (finish_selection p e) e (λ s. finish-IsValid p e v) v) v))

on_button-IsValid :
    (ok : Bool) (box : Box) (p : Position) (b : Button) (x y : ℕ) (mo : Motion) (e : TextEditor)
    → IsValid e
    → InText e.lines p.row p.col
    → IsValid (on_button ok box p (record { x = x; y = y; button = b; motion = mo }) e).0
unfolding on_button
on_button-IsValid ok box p wheel_up x y mo e v t = v
on_button-IsValid ok box p wheel_down x y mo e v t = v
on_button-IsValid ok box p left x y mo e v t = on_left-IsValid p mo e v t
on_button-IsValid ok box p right x y mo e v t =
    if_IsValid_answer (is_pressed mo) _ _ (λ q. copy_at-IsValid ok p e v) v
on_button-IsValid ok box p other_button x y mo e v t = v

target-InText :
    (box : Box) (m : Mouse) (e : TextEditor)
    → IsValid e
    → InText e.lines (target box m e).row (target box m e).col
target-InText box m e (r, c, k) = (omega arith, omega arith, k)

on_event-IsValid :
    (ok : Bool) (box : Box) (ev : Event) (e : TextEditor)
    → IsValid e
    → IsValid (on_event ok box ev e).0
unfolding on_event
on_event-IsValid ok box (mouse_event m) e v =
    if_IsValid_answer (contain box m) _ _
      (λ q.
        on_button-IsValid ok box (target box m e) m.button m.x m.y m.motion e v
          (target-InText box m e v))
      (if_IsValid_answer (e.selecting && is_released m.motion) _ _ (λ q. v) v)
on_event-IsValid ok box (key_event focused k) e v =
    if_IsValid_answer (focused && is_known k) _ _
      (λ q. press_key-IsValid (visible_height box) k e v) v

set_text-IsValid : (s : Bytes) (e : TextEditor) → IsValid (set_text s e)
unfolding set_text
set_text-IsValid s e = rw (split_lines_lem (without_returns s)) (
  nonempty (lines_of (without_returns s)) (lines_of_nonempty (without_returns s)),
  omega arith,
  lines_of-IsClean (without_returns s) (All-without_returns s),
)
  where
    nonempty : (ls : List Bytes) → is_empty ls ≡ false → 0 < length ls
    nonempty [] h = cc
    nonempty (l ∷ ls) h = omega arith

act-IsValid : (a : Action) (e : TextEditor) → IsValid e → IsValid (act a e)
unfolding act clear
act-IsValid (setting s) e v = set_text-IsValid s e
act-IsValid clearing e v = (omega arith, omega arith, (tt, tt))
act-IsValid (copying ok) e v = copy_to_clipboard-IsValid ok e v
act-IsValid (rendering h) e v = ensure-IsValid h e v
act-IsValid (event ok box ev) e v = on_event-IsValid ok box ev e v

run_from : (actions : List Action) (e : TextEditor) → IsValid e → IsValid (run actions e)
unfolding run
run_from [] e v = v
run_from (a ∷ more) e v = run_from more (act a e) (act-IsValid a e v)

-- From a new editor, whatever is set, typed, pasted, erased, clicked, dragged and scrolled, with
-- any box: the cursor stands on a line of the text and within it or at its end, and no line holds
-- a `\r` or a `\n`. So every access to a line and every cut at the cursor is in range.
pub cursor_in_text : (actions : List Action) → IsValid (run actions new_editor)
cursor_in_text actions = run_from actions new_editor (omega arith, omega arith, (tt, tt))
