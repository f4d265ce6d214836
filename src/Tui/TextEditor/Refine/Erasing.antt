-- ===== src/Tui/TextEditor/Refine/Erasing.antt =====
-- Backspace and delete, against the specification.
use burp_tui.Prelude.{
  ℕ, suc, ◌+◌, ◌-◌, ◌<◌, ◌≡◌, refl, sym, ap, ◌∙◌, Bytes, List, [], ◌∷◌, ◌++◌, arith, ltb, ltb→lt,
  length, take, drop, Bool-cases, inl, inr, set, erase_idx, get_or-set, drop-get_or,
  get_or-erase_idx_before,
}
use burp_tui.Tui.Mouse.{line_at}
use burp_tui.Tui.TextEditor.{TextEditor, cursor_line, backspace, delete}
use burp_tui.Tui.TextEditor.Valid.{IsValid}
use burp_tui.Tui.TextEditor.Refine.Cut.{
  head_text, rest_text, head-set, rest-set, rest-suc, head-erase_idx, rest-erase_idx,
  rest-set_before, take-put, drop-put,
}
use burp_tui.Tui.TextEditor.Refine.{
  buffer, buffer_eq, view_at, view, erase_back, erase_front, erase_back-snoc, view-ensure,
}
use burp_tui.Tui.TextEditor.Refine.Cells.{
  before_in_line, before_at_start, take_full, drop_full, nothing_before, erase_back-nil, rest_last,
  take_front, drop_front,
}

-- Two lines made one.
merged_view :
    (ls : List Bytes) (r : ℕ)
    → suc r < length ls
    → view_at
        (erase_idx (set ls r (line_at ls r ++ line_at ls (suc r))) (suc r))
        r
        (length (line_at ls r))
      ≡ buffer (head_text ls r ++ line_at ls r) (line_at ls (suc r) ++ rest_text ls (suc r))
merged_view ls r h =
    let v = line_at ls r ++ line_at ls (suc r) in
    let ls' = set ls r v in
    let g : line_at (erase_idx ls' (suc r)) r ≡ v =
      get_or-erase_idx_before ls' r [] ∙ get_or-set ls r v [] (omega arith) in
    rw (g, head-erase_idx ls' r, head-set ls r v, rest-erase_idx ls' r, rest-set_before ls r v)
      (buffer_eq (ap (head_text ls r ++◌) (take_front (line_at ls r) (line_at ls (suc r))))
        (ap (◌++ rest_text ls (suc r)) (drop_front (line_at ls r) (line_at ls (suc r)))))

pub view-backspace :
    (h : ℕ) (e : TextEditor) → IsValid e → view (backspace h e) ≡ erase_back (view e)
unfolding backspace
view-backspace h e (r, c, k) = elim (Bool-cases (ltb 0 e.cursor_col)) [
  | inl p ↦
      let q = ltb→lt 0 e.cursor_col p in
      let line = cursor_line e in
      let v = take (e.cursor_col - 1) line ++ drop e.cursor_col line in
      let g = get_or-set e.lines e.cursor_row v [] r in
      let head = head_text e.lines e.cursor_row in
      let rest = rest_text e.lines e.cursor_row in
      rw (p, g, head-set e.lines e.cursor_row v, rest-set e.lines e.cursor_row v)
        (buffer_eq
            (ap (head ++◌)
              (take-put (e.cursor_col - 1) line (drop e.cursor_col line) (omega arith)))
            (ap (◌++ rest)
              (drop-put (e.cursor_col - 1) line (drop e.cursor_col line) (omega arith)))
          ∙ sym (erase_back-snoc _ _ _ (before_in_line e.lines e.cursor_row e.cursor_col q c)))
  | inr p ↦
      let z : e.cursor_col ≡ 0 = ground arith in
      elim (Bool-cases (ltb 0 e.cursor_row)) [
        | inl q ↦
            let lt = ltb→lt 0 e.cursor_row q in
            let next : suc (e.cursor_row - 1) ≡ e.cursor_row = omega arith in
            let above = line_at e.lines (e.cursor_row - 1) in
            let m : view_at
                  (erase_idx (set e.lines (e.cursor_row - 1) (above ++ cursor_line e)) e.cursor_row)
                  (e.cursor_row - 1) (length above)
                ≡ buffer (head_text e.lines (e.cursor_row - 1) ++ above)
                    (cursor_line e ++ rest_text e.lines e.cursor_row) =
              ap
                (λ j.
                  view_at
                    (erase_idx (set e.lines (e.cursor_row - 1) (above ++ line_at e.lines j)) j)
                    (e.cursor_row - 1) (length above))
                (sym next)
              ∙ merged_view e.lines (e.cursor_row - 1) (omega arith)
              ∙ ap
                  (λ j.
                    buffer (head_text e.lines (e.cursor_row - 1) ++ above)
                      (line_at e.lines j ++ rest_text e.lines j))
                  next in
            rw (p, q)
              (view-ensure h _
                ∙ m
                ∙ sym (erase_back-snoc _ _ _ (before_at_start e.lines e.cursor_row lt r))
                ∙ ap (λ j. erase_back (view_at e.lines e.cursor_row j)) (sym z))
        | inr q ↦
            let y : e.cursor_row ≡ 0 = ground arith in
            rw (p, q) (sym (erase_back-nil _ (nothing_before e.lines y z)))
      ]
]

erase_front-cons :
    {a : Bytes} (b : Bytes) (x : ℕ) (a' : Bytes)
    → a ≡ x ∷ a'
    → erase_front (buffer b a) ≡ buffer b a'
erase_front-cons b x a' h = rw h refl

erase_front-nil : {a : Bytes} (b : Bytes) → a ≡ [] → erase_front (buffer b a) ≡ buffer b a
erase_front-nil b h = rw h refl

pub view-delete : (h : ℕ) (e : TextEditor) → IsValid e → view (delete h e) ≡ erase_front (view e)
unfolding delete
view-delete h e (r, c, k) =
    let line = cursor_line e in
    let head = head_text e.lines e.cursor_row in
    let rest = rest_text e.lines e.cursor_row in
    elim (Bool-cases (ltb e.cursor_col (length line))) [
      | inl p ↦
          let q = ltb→lt e.cursor_col (length line) p in
          let next : e.cursor_col + 1 ≡ suc e.cursor_col = omega arith in
          let v = take e.cursor_col line ++ drop (suc e.cursor_col) line in
          let g = get_or-set e.lines e.cursor_row v [] r in
          rw (p, next, g, head-set e.lines e.cursor_row v, rest-set e.lines e.cursor_row v)
            (buffer_eq (ap (head ++◌) (take-put e.cursor_col line (drop (suc e.cursor_col) line) c))
                (ap (◌++ rest) (drop-put e.cursor_col line (drop (suc e.cursor_col) line) c))
              ∙ sym (erase_front-cons _ _ _ (ap (◌++ rest) (drop-get_or line e.cursor_col 0 q))))
      | inr p ↦
          let z : e.cursor_col ≡ length line = ground arith in
          let done : drop e.cursor_col line ≡ [] = ap (λ j. drop j line) z ∙ drop_full line in
          let full : take e.cursor_col line ≡ line = ap (λ j. take j line) z ∙ take_full line in
          elim (Bool-cases (ltb (e.cursor_row + 1) (length e.lines))) [
            | inl q ↦
                let lt = ltb→lt (e.cursor_row + 1) (length e.lines) q in
                let next : e.cursor_row + 1 ≡ suc e.cursor_row = omega arith in
                let v = line ++ line_at e.lines (suc e.cursor_row) in
                rw (p, q)
                  (view-ensure h _
                    ∙ rw next (
                        ap
                          (view_at (erase_idx (set e.lines e.cursor_row v) (suc e.cursor_row))
                            e.cursor_row)
                          z
                        ∙ merged_view e.lines e.cursor_row (omega arith)
                        ∙ ap
                            (λ t. buffer (head ++ t) (
                              line_at e.lines (suc e.cursor_row)
                              ++ rest_text e.lines (suc e.cursor_row)))
                            (sym full))
                    ∙ sym (
                        erase_front-cons _ _ _
                          (ap (◌++ rest) done ∙ rest-suc e.lines e.cursor_row (omega arith))))
            | inr q ↦
                let bottom : length e.lines ≡ suc e.cursor_row = ground arith in
                rw (p, q)
                  (sym (
                    erase_front-nil _ (ap (◌++ rest) done ∙ rest_last e.lines e.cursor_row bottom)))
          ]
    ]
