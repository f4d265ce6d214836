-- ===== src/Tui/TextEditor/Refine/Moves.antt =====
-- The arrows to the left and to the right, against the specification.
use burp_tui.Prelude.{
  ℕ, suc, ◌+◌, ◌-◌, ◌≡◌, refl, sym, ap, ◌∙◌, Bytes, [], ◌∷◌, ◌++◌, arith, ltb, ltb→lt, length, take,
  drop, append_assoc, append-nil, Bool-cases, inl, inr, drop-get_or,
}
use burp_tui.Tui.Mouse.{line_at}
use burp_tui.Tui.TextEditor.{TextEditor, cursor_line, arrow_left, arrow_right}
use burp_tui.Tui.TextEditor.Valid.{IsValid}
use burp_tui.Tui.TextEditor.Refine.Cut.{head_text, rest_text, head-suc, rest-suc, take-suc}
use burp_tui.Tui.TextEditor.Refine.{
  buffer, buffer_eq, view_at, view, step_left, step_right, step_left-snoc, view-ensure,
}
use burp_tui.Tui.TextEditor.Refine.Cells.{
  before_in_line, after_in_line, before_at_start, after_at_end, take_full, drop_full,
  nothing_before, step_left-nil, rest_last,
}

pub view-arrow_left :
    (h : ℕ) (e : TextEditor) → IsValid e → view (arrow_left h e) ≡ step_left (view e)
view-arrow_left h e (r, c, k) = elim (Bool-cases (ltb 0 e.cursor_col)) [
  | inl p ↦
      let q = ltb→lt 0 e.cursor_col p in
      rw p (
        buffer_eq refl (
          ap (◌++ rest_text e.lines e.cursor_row)
            (after_in_line e.lines e.cursor_row e.cursor_col q c))
        ∙ sym (step_left-snoc _ _ _ (before_in_line e.lines e.cursor_row e.cursor_col q c)))
  | inr p ↦
      let z : e.cursor_col ≡ 0 = ground arith in
      elim (Bool-cases (ltb 0 e.cursor_row)) [
        | inl q ↦
            let lt = ltb→lt 0 e.cursor_row q in
            let above = line_at e.lines (e.cursor_row - 1) in
            rw (p, q)
              (view-ensure h _
                ∙ buffer_eq (ap (head_text e.lines (e.cursor_row - 1) ++◌) (take_full above)) (
                    ap (◌++ rest_text e.lines (e.cursor_row - 1)) (drop_full above)
                    ∙ after_at_end e.lines e.cursor_row lt r)
                ∙ sym (step_left-snoc _ _ _ (before_at_start e.lines e.cursor_row lt r))
                ∙ ap (λ j. step_left (view_at e.lines e.cursor_row j)) (sym z))
        | inr q ↦
            let y : e.cursor_row ≡ 0 = ground arith in
            rw (p, q) (sym (step_left-nil _ (nothing_before e.lines y z)))
      ]
]

step_right-cons :
    {a : Bytes} (b : Bytes) {x : ℕ} (a' : Bytes)
    → a ≡ x ∷ a'
    → step_right (buffer b a) ≡ buffer (b ++ x ∷ []) a'
step_right-cons b a' h = rw h refl

step_right-nil : {a : Bytes} (b : Bytes) → a ≡ [] → step_right (buffer b a) ≡ buffer b a
step_right-nil b h = rw h (buffer_eq (append-nil b) refl)

pub view-arrow_right :
    (h : ℕ) (e : TextEditor) → IsValid e → view (arrow_right h e) ≡ step_right (view e)
view-arrow_right h e (r, c, k) = elim (Bool-cases (ltb e.cursor_col (length (cursor_line e)))) [
  | inl p ↦
      let q = ltb→lt e.cursor_col (length (cursor_line e)) p in
      let next : e.cursor_col + 1 ≡ suc e.cursor_col = omega arith in
      let head = head_text e.lines e.cursor_row in
      let rest = rest_text e.lines e.cursor_row in
      rw (p, next)
        (buffer_eq
            (ap (head ++◌) (take-suc e.cursor_col (cursor_line e) q)
              ∙ sym (append_assoc head (take e.cursor_col (cursor_line e)) _))
            refl
          ∙ sym
              (step_right-cons _ _ (ap (◌++ rest) (drop-get_or (cursor_line e) e.cursor_col 0 q))))
  | inr p ↦
      let z : e.cursor_col ≡ length (cursor_line e) = ground arith in
      let done : drop e.cursor_col (cursor_line e) ≡ [] =
        ap (λ j. drop j (cursor_line e)) z ∙ drop_full (cursor_line e) in
      let full : take e.cursor_col (cursor_line e) ≡ cursor_line e =
        ap (λ j. take j (cursor_line e)) z ∙ take_full (cursor_line e) in
      let head = head_text e.lines e.cursor_row in
      let rest = rest_text e.lines e.cursor_row in
      elim (Bool-cases (ltb (e.cursor_row + 1) (length e.lines))) [
        | inl q ↦
            let lt = ltb→lt (e.cursor_row + 1) (length e.lines) q in
            let next : e.cursor_row + 1 ≡ suc e.cursor_row = omega arith in
            rw (p, q)
              (view-ensure h _
                ∙ rw next (
                    buffer_eq
                      (append-nil _
                        ∙ head-suc e.lines e.cursor_row r
                        ∙ sym (append_assoc head (cursor_line e) (10 ∷ []))
                        ∙ ap (λ t. (head ++ t) ++ (10 ∷ [])) (sym full))
                      refl)
                ∙ sym (
                    step_right-cons _ _
                      (ap (◌++ rest) done ∙ rest-suc e.lines e.cursor_row (omega arith))))
        | inr q ↦
            let bottom : length e.lines ≡ suc e.cursor_row = ground arith in
            rw (p, q)
              (sym (step_right-nil _ (ap (◌++ rest) done ∙ rest_last e.lines e.cursor_row bottom)))
      ]
]
