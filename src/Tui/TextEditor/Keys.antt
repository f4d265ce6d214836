-- ===== src/Tui/TextEditor/Keys.antt =====
-- What each key does to the text and the cursor, whichever line it is on.
use burp_tui.Prelude.{
  ℕ, ◌+◌, ◌-◌, ◌<◌, min, ◌≡◌, refl, sym, ap, ◌∙◌, Bytes, codes, Bool, true, false, List, [], ◌∷◌,
  ◌++◌, arith, ltb, ltb→lt, length, take, drop, append_assoc, take-append-drop, if◌then◌else◌,
}
use burp_tui.Tui.Mouse.{line_at, Box}
use burp_tui.Tui.TextEditor.{
  TextEditor, without_returns, to_row, Key, arrow_up, arrow_down, left_key, right_key, home_key,
  end_key, page_up, page_down, return_key, backspace_key, delete_key, tab_key, character, other_key,
  press_key, visible_height, key_event, on_event, break_line, insert_string,
}
use burp_tui.Tui.TextEditor.Valid.{IsValid}
use burp_tui.Tui.TextEditor.Refine.{
  Buffer, view_at, view, typed, erase_back, erase_front, step_left, step_right, view-ensure,
  view-break_line, view-put_in_line, view-insert_string,
}
use burp_tui.Tui.TextEditor.Refine.Moves.{view-arrow_left, view-arrow_right}
use burp_tui.Tui.TextEditor.Refine.Erasing.{view-backspace, view-delete}
use burp_tui.Tui.TextEditor.Refine.Cut.{head_text, rest_text, whole_text, whole_lem}

abbrev whole : Buffer → Bytes
whole b = b.before ++ b.after

-- The specification: what a key may make of a text with a cursor.
abbrev pub KeyStep : Key → Buffer → Buffer → Type 0
KeyStep left_key b b' = b' ≡ step_left b
KeyStep right_key b b' = b' ≡ step_right b
KeyStep return_key b b' = b' ≡ typed (10 ∷ []) b
KeyStep backspace_key b b' = b' ≡ erase_back b
KeyStep delete_key b b' = b' ≡ erase_front b
KeyStep tab_key b b' = b' ≡ typed (codes "    ") b
KeyStep (character s) b b' = b' ≡ typed (without_returns s) b
KeyStep other_key b b' = b' ≡ b
KeyStep arrow_up b b' = whole b' ≡ whole b
KeyStep arrow_down b b' = whole b' ≡ whole b
KeyStep home_key b b' = whole b' ≡ whole b
KeyStep end_key b b' = whole b' ≡ whole b
KeyStep page_up b b' = whole b' ≡ whole b
KeyStep page_down b b' = whole b' ≡ whole b

-- Wherever it is cut, it is the same text.
whole-view_at : (ls : List Bytes) (r c : ℕ) → r < length ls → whole (view_at ls r c) ≡ whole_text ls
whole-view_at ls r c h =
    append_assoc (head_text ls r) (take c (line_at ls r)) (drop c (line_at ls r) ++ rest_text ls r)
    ∙ ap (head_text ls r ++◌) (
        sym (append_assoc (take c (line_at ls r)) (drop c (line_at ls r)) (rest_text ls r))
        ∙ ap (◌++ rest_text ls r) (take-append-drop c (line_at ls r)))
    ∙ whole_lem ls r h

moved :
    (ls : List Bytes) (r c r' c' : ℕ)
    → r < length ls
    → r' < length ls
    → whole (view_at ls r' c') ≡ whole (view_at ls r c)
moved ls r c r' c' h h' = whole-view_at ls r' c' h' ∙ sym (whole-view_at ls r c h)

to_row-whole :
    (h r : ℕ) (e : TextEditor)
    → IsValid e
    → r < length e.lines
    → whole (view (to_row h r e)) ≡ whole (view e)
to_row-whole h r e (v, _, _) b =
    ap whole (view-ensure h _) ∙ moved e.lines e.cursor_row e.cursor_col r _ v b

if_whole :
    (b : Bool) (e e' : TextEditor)
    → (b ≡ true → whole (view e') ≡ whole (view e))
    → whole (view (if b then e' else e)) ≡ whole (view e)
if_whole true e e' h = h refl
if_whole false e e' h = refl

press_key-KeyStep :
    (h : ℕ) (k : Key) (e : TextEditor) → IsValid e → KeyStep k (view e) (view (press_key h k e))
unfolding press_key
press_key-KeyStep h arrow_up e v =
    if_whole (ltb 0 e.cursor_row) e _ (λ p. to_row-whole h (e.cursor_row - 1) e v (omega arith))
press_key-KeyStep h arrow_down e v =
    if_whole (ltb (e.cursor_row + 1) (length e.lines)) e _
      (λ p. to_row-whole h (e.cursor_row + 1) e v (ltb→lt _ _ p))
press_key-KeyStep h left_key e v = view-arrow_left h e v
press_key-KeyStep h right_key e v = view-arrow_right h e v
press_key-KeyStep h home_key e (r, c, k) =
    moved e.lines e.cursor_row e.cursor_col e.cursor_row 0 r r
press_key-KeyStep h end_key e (r, c, k) = moved e.lines e.cursor_row e.cursor_col e.cursor_row _ r r
press_key-KeyStep h page_up e v = to_row-whole h (e.cursor_row - 10) e v (omega arith)
press_key-KeyStep h page_down e v =
    to_row-whole h (min (length e.lines - 1) (e.cursor_row + 10)) e v (omega arith)
press_key-KeyStep h return_key e v = view-ensure h (break_line e) ∙ view-break_line e v
press_key-KeyStep h backspace_key e v = view-backspace h e v
press_key-KeyStep h delete_key e v = view-delete h e v
press_key-KeyStep h tab_key e v = view-put_in_line (codes "    ") e v
press_key-KeyStep h (character s) e v = view-ensure h (insert_string s e) ∙ view-insert_string s e v
press_key-KeyStep h other_key e v = refl

-- For an editor whose cursor stands in its text, with the focus: a key does to the text, cut at
-- the cursor, what it does to a plain text. Left and right move the cut by one byte over line ends
-- too; return, tab and characters put `\n`, four spaces and the bytes but `\r` before the cut;
-- backspace and delete take the byte before and after it away, a line end too, and do nothing at
-- the start and at the end of the text; the other keys that move the cursor leave the text as it
-- is, and an unknown key changes nothing.
pub on_event-KeyStep :
    (ok : Bool) (box : Box) (k : Key) (e : TextEditor)
    → IsValid e
    → KeyStep k (view e) (view (on_event ok box (key_event true k) e).0)
unfolding on_event
on_event-KeyStep ok box k e v = by_key k (press_key-KeyStep (visible_height box) k e v)
  where
    by_key :
        (k : Key)
        → KeyStep k (view e) (view (press_key (visible_height box) k e))
        → KeyStep k (view e) (view (on_event ok box (key_event true k) e).0)
    by_key arrow_up s = s
    by_key arrow_down s = s
    by_key left_key s = s
    by_key right_key s = s
    by_key home_key s = s
    by_key end_key s = s
    by_key page_up s = s
    by_key page_down s = s
    by_key return_key s = s
    by_key backspace_key s = s
    by_key delete_key s = s
    by_key tab_key s = s
    by_key (character t) s = s
    by_key other_key s = refl
