-- ===== src/Tui/Viewer/Drawn.antt =====
-- What `Render` of the viewer draws.
use burp_tui.Prelude.{
  ℕ, zero, suc, ◌-◌, ◌≤◌, ◌<◌, ◌≡◌, refl, ap, ◌∙◌, Bool, true, false, List, [], ◌∷◌, arith,
  is_empty, length, take, drop, map, length-drop, if◌then◌else◌,
}
use burp_tui.Tui.Mouse.{Box, line_at}
use burp_tui.Tui.Marking.{
  joined, joined-mark, in_order, in_order-is_after, mark, drawn, rows_from_lem,
}
use burp_tui.Tui.Formatter.{Element, text, separator}
use burp_tui.Tui.Viewer.{
  Viewer, Shown, marked_row, plain_row, visible_height, is_marked, draw_row, clamped, render,
}

abbrev pub shown_text : Shown → Element
shown_text (marked_row p) = text (joined p)
shown_text (plain_row e) = e

-- What a row shows: the line of the text where the selection is, else the row that was set.
abbrev pub shown_row : Viewer → ℕ → Element → Element
shown_row v i row = if is_marked v i then text (line_at v.raw_lines i) else row

row_lem : (v : Viewer) (i : ℕ) (row : Element) → shown_text (draw_row v i row) ≡ shown_row v i row
row_lem v i row = by (is_marked v i)
  where
    by :
        (b : Bool)
        → shown_text (
            if b
            then marked_row (
                mark
                  (in_order v.sel_start v.sel_end).0
                  (in_order v.sel_start v.sel_end).1
                  i
                  (line_at v.raw_lines i))
            else plain_row row)
          ≡ (if b then text (line_at v.raw_lines i) else row)
    by true = ap text (
        joined-mark (in_order v.sel_start v.sel_end).0 (in_order v.sel_start v.sel_end).1 i
          (line_at v.raw_lines i) (in_order-is_after v.sel_start v.sel_end))
    by false = refl

cons_eq : {x y : Element} {xs ys : List Element} → x ≡ y → xs ≡ ys → x ∷ xs ≡ y ∷ ys
cons_eq p q = cc

map-drawn :
    (v : Viewer) (i : ℕ) (rows : List Element)
    → map shown_text (drawn (draw_row v) i rows) ≡ drawn (shown_row v) i rows
map-drawn v i [] = refl
map-drawn v i (r ∷ rows) = cons_eq (row_lem v i r) (map-drawn v (suc i) rows)

drawn_some :
    (v : Viewer) (n i : ℕ) (rows : List Element)
    → 0 < n
    → i < length rows
    → is_empty (drawn (draw_row v) i (take n (drop i rows))) ≡ false
drawn_some v n i rows p h = by n (drop i rows) p (omega (arith, length-drop i rows))
  where
    by :
        (n : ℕ) (ls : List Element)
        → 0 < n
        → 0 < length ls
        → is_empty (drawn (draw_row v) i (take n ls)) ≡ false
    by zero ls p h = absurd (omega arith)
    by (suc n) [] p h = absurd (omega arith)
    by (suc n) (l ∷ ls) p h = refl

-- For a viewer with a row at least: drawing puts the scroll position where the last row is in
-- view at the latest, and shows the rows from it on, as many as the box has place for, in order;
-- a row of the selection is shown as its line of the text, whole.
pub drawn_rows :
    (box : Box) (v : Viewer)
    → 0 < length v.rows
    → let r = render box v in
      (map shown_text r.1
        ≡ drawn (shown_row r.0) r.0.scroll_y (take (visible_height box) (drop r.0.scroll_y v.rows)))
      × (r.0.scroll_y ≤ v.scroll_y)
      × (r.0.scroll_y ≤ length v.rows - visible_height box)
unfolding render
drawn_rows box v h =
    let v' = clamped box v in
    let rows = rows_from_lem (draw_row v') v.rows separator (visible_height box) v'.scroll_y in
    let some_row =
      ap is_empty rows
      ∙ drawn_some v' (visible_height box) v'.scroll_y v.rows (omega arith) (omega arith) in
    (
      rw some_row (
          ap (map shown_text) rows
          ∙ map-drawn v' v'.scroll_y (take (visible_height box) (drop v'.scroll_y v.rows))),
      omega arith,
      omega arith,
    )
