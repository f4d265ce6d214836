-- ===== src/Tui/TextEditor/Render.antt =====
-- What `Render` of the editor draws.
use burp_tui.Prelude.{
  ℕ, zero, suc, ◌+◌, ◌-◌, ◌≤◌, ◌<◌, max, ◌≡◌, refl, sym, ap, ◌∙◌, Bytes, codes, Bool, true, false,
  List, [], ◌∷◌, ◌++◌, ◌==◌, ◌&&◌, arith, ltb, leb, ltb→lt, length, take, drop, get_or, to_string,
  is_empty, map, append-nil, append_assoc, length-drop, if◌then◌else◌, Bool-cases, inl, inr,
  take-append-drop, take_of_length-le,
}
use burp_tui.Tui.Mouse.{Box, line_at}
use burp_tui.Tui.Marking.{
  Pieces, joined, joined-if, drop_if, in_order, in_order-is_after, mark, joined-mark, rows_from,
  rows_from_lem, drawn,
}
use burp_tui.Tui.TextEditor.{TextEditor, ensure_cursor_visible}
use burp_tui.Tui.TextEditor.Valid.{IsValid, ensure_lem}
use burp_tui.Tui.TextEditor.Refine.Cut.{take-suc}

abbrev pub render_height : Box → ℕ
render_height box = max 2 (box.y_max - box.y_min + 1 - 2)

abbrev is_marked : TextEditor → ℕ → Bool
is_marked e i =
    let (p, q) = in_order e.sel_start e.sel_end in e.has_selection && (leb p.row i && leb i q.row)

-- the row of the cursor; past the end of the line the cursor is a blank
abbrev pub cursor_pieces : ℕ → Bytes → Pieces
cursor_pieces col line = record {
  before = if leb col (length line) then take col line else line;
  marked = if ltb col (length line) then get_or line col 0 ∷ [] else codes " ";
  after = if ltb (col + 1) (length line) then drop (col + 1) line else [];
}

abbrev pub row_pieces : Bool → TextEditor → ℕ → Bytes → Pieces
row_pieces focused e i line =
    let (p, q) = in_order e.sel_start e.sel_end in
    if is_marked e i
    then mark p q i line
    else if focused && i == e.cursor_row
    then cursor_pieces e.cursor_col line
    else record { before = line; marked = []; after = [] }

-- `std::setw(4)`, and ` │ ` in UTF-8
abbrev pub gutter : ℕ → Bytes
gutter i =
    let number = to_string (i + 1) in
    drop (length number) (codes "    ") ++ (number ++ (32 ∷ 226 ∷ 148 ∷ 130 ∷ 32 ∷ []))

pub record Row : Type 0 where
  pub number : Bytes
  pub text : Pieces

abbrev pub pos_info : TextEditor → Bytes
pos_info e =
    let place =
      codes "[Ln "
      ++ (to_string (e.cursor_row + 1)
          ++ (codes ", Col "
              ++ (to_string (e.cursor_col + 1)
                  ++ (codes " | Total " ++ (to_string (length e.lines) ++ codes " lines]"))))) in
    if is_empty e.status_msg then place else e.status_msg ++ (codes "  " ++ place)

abbrev draw_row : Bool → TextEditor → ℕ → Bytes → Row
draw_row focused e i line = record { number = gutter i; text = row_pieces focused e i line }

-- the state after it, the rows and the text of the footer
unfoldable pub render : Bool → Box → TextEditor → TextEditor × List Row × Bytes
unfolding ensure_cursor_visible rows_from
render focused box e =
    let e' = ensure_cursor_visible (render_height box) e in
    let rows =
      rows_from (λ i. draw_row focused e' i (line_at e'.lines i)) (length e'.lines)
        (render_height box) e'.scroll_y in
    (
      e',
      if is_empty rows
          then record {
            number = [];
            text = record { before = codes " (empty) "; marked = []; after = [] };
          }
            ∷ []
          else rows,
      pos_info e',
    )

-- What a row shows: the line, and a blank where the cursor is shown past the end of it.
abbrev pub shown_line : Bool → TextEditor → ℕ → Bytes → Bytes
shown_line focused e i line =
    if is_marked e i
    then line
    else if focused && i == e.cursor_row && leb (length line) e.cursor_col
    then line ++ codes " "
    else line

joined-cursor :
    (col : ℕ) (line : Bytes)
    → joined (cursor_pieces col line) ≡ (if leb (length line) col then line ++ codes " " else line)
joined-cursor col line = elim (Bool-cases (ltb col (length line))) [
  | inl p ↦
      let q = ltb→lt col (length line) p in
      let below : leb (length line) col ≡ false = ground arith in
      let within : leb col (length line) ≡ true = ground arith in
      let next : col + 1 ≡ suc col = omega arith in
      rw (p, below, within)
        (ap (λ t. take col line ++ (get_or line col 0 ∷ t)) (drop_if (col + 1) line)
          ∙ rw next (
              sym (append_assoc (take col line) (get_or line col 0 ∷ []) (drop (suc col) line))
              ∙ ap (◌++ drop (suc col) line) (sym (take-suc col line q))
              ∙ take-append-drop (suc col) line))
  | inr p ↦
      let over : leb (length line) col ≡ true = ground arith in
      let none_left : ltb (col + 1) (length line) ≡ false = ground arith in
      let full : (if leb col (length line) then take col line else line) ≡ line =
        full_line (leb col (length line)) (take_of_length-le col line (ground arith)) in
      rw (p, over, none_left) (ap (◌++ codes " ") full)
]
  where
    full_line : (b : Bool) → take col line ≡ line → (if b then take col line else line) ≡ line
    full_line true h = h
    full_line false h = refl

at_cursor :
    (b c : Bool) (x : Pieces) (line more : Bytes)
    → joined x ≡ (if c then more else line)
    → joined (if b then x else record { before = line; marked = []; after = [] })
      ≡ (if b && c then more else line)
at_cursor true c x line more h = h
at_cursor false c x line more h = append-nil line

joined-row :
    (focused : Bool) (e : TextEditor) (i : ℕ) (line : Bytes)
    → joined (row_pieces focused e i line) ≡ shown_line focused e i line
joined-row focused e i line =
    let a = in_order e.sel_start e.sel_end in
    joined-if (is_marked e i) _ _ line _
      (joined-mark a.0 a.1 i line (in_order-is_after e.sel_start e.sel_end))
      (at_cursor (focused && i == e.cursor_row) (leb (length line) e.cursor_col)
        (cursor_pieces e.cursor_col line) line (line ++ codes " ")
        (joined-cursor e.cursor_col line))

-- After scrolling the cursor is in view, and no row after the last line is.
pub ensure_scroll :
    (h : ℕ) (e : TextEditor)
    → 0 < h
    → e.cursor_row < length e.lines
    → ((ensure_cursor_visible h e).scroll_y ≤ e.cursor_row)
      × (e.cursor_row < (ensure_cursor_visible h e).scroll_y + h)
      × ((ensure_cursor_visible h e).scroll_y ≤ length e.lines - h)
unfolding ensure_cursor_visible
ensure_scroll h e p r = elim (Bool-cases (h == 0)) [
  | inl q ↦ absurd (ground arith)
  | inr q ↦ rw q (ground arith, ground arith, ground arith)
]

map-drawn :
    (focused : Bool) (e : TextEditor) (i : ℕ) (ls : List Bytes)
    → map (λ r. joined r.text) (drawn (draw_row focused e) i ls) ≡ drawn (shown_line focused e) i ls
map-drawn focused e i [] = refl
map-drawn focused e i (l ∷ ls) = ap2 (joined-row focused e i l) (map-drawn focused e (suc i) ls)
  where
    ap2 : {x y : Bytes} {xs ys : List Bytes} → x ≡ y → xs ≡ ys → x ∷ xs ≡ y ∷ ys
    ap2 p q = cc

drawn_some :
    (n i : ℕ) (focused : Bool) (e : TextEditor)
    → 0 < n
    → i < length e.lines
    → is_empty (drawn (draw_row focused e) i (take n (drop i e.lines))) ≡ false
drawn_some n i focused e p h = by n (drop i e.lines) p (omega (arith, length-drop i e.lines))
  where
    by :
        (n : ℕ) (ls : List Bytes)
        → 0 < n
        → 0 < length ls
        → is_empty (drawn (draw_row focused e) i (take n ls)) ≡ false
    by zero ls p h = absurd (omega arith)
    by (suc n) [] p h = absurd (omega arith)
    by (suc n) (l ∷ ls) p h = refl

-- For an editor whose cursor stands in its text: the rows drawn are the lines from the scroll
-- position on, as many as the box has place for, in order and each whole, cut in pieces by the
-- selection or the cursor; only the line at whose end the cursor is shown has a blank more. The
-- row of the cursor is among them, and the view does not go past the last line when there are
-- lines enough to fill it.
pub render_lem :
    (focused : Bool) (box : Box) (e : TextEditor)
    → IsValid e
    → let r = render focused box e in
      (map (λ row. joined row.text) r.1
        ≡ drawn
            (shown_line focused r.0)
            r.0.scroll_y
            (take (render_height box) (drop r.0.scroll_y e.lines)))
      × (r.0.scroll_y ≤ e.cursor_row)
      × (e.cursor_row < r.0.scroll_y + render_height box)
      × (r.0.scroll_y ≤ length e.lines - render_height box)
unfolding render
render_lem focused box e (r, c, k) =
    let h = render_height box in
    let e' = ensure_cursor_visible h e in
    let (same, _, _) = ensure_lem h e in
    let (low, high, fill) = ensure_scroll h e (omega arith) r in
    let rows = rows_from_lem (draw_row focused e') e'.lines [] h e'.scroll_y in
    let inside : e'.scroll_y < length e'.lines = rw same (omega arith) in
    let some_row = ap is_empty rows ∙ drawn_some h e'.scroll_y focused e' (omega arith) inside in
    (
      rw some_row (
          ap (map (λ row. joined row.text)) rows
          ∙ map-drawn focused e' e'.scroll_y (take h (drop e'.scroll_y e'.lines))
          ∙ ap (λ ls. drawn (shown_line focused e') e'.scroll_y (take h (drop e'.scroll_y ls)))
              same),
      low,
      high,
      fill,
    )
