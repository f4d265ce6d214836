-- ===== src/Tui/TextEditor/Valid.antt =====
-- The cursor stays in the text.
use burp_tui.Prelude.{
  ℕ, suc, ◌+◌, ◌-◌, ◌≤◌, ◌<◌, ◌≡◌, refl, sym, ap, ◌∙◌, Bytes, List, [], ◌∷◌, ◌++◌, ◌==◌, arith, All,
  All-append, ltb, ltb→lt, length, take, drop, length-append, length-take, set, erase_idx,
  length-set, length-insert_at, length-erase_idx, get_or-set, get_or-erase_idx_before, All-get_or,
  All-set, All-insert_at, All-erase_idx, All-take, All-drop, Bool-cases, inl, inr,
}
use burp_tui.Tui.Mouse.{line_at}
use burp_tui.Tui.TextEditor.{
  TextEditor, cursor_line, ensure_cursor_visible, break_line, put_in_line, insert_byte,
  insert_string, backspace, delete,
}
use burp_tui.Tui.TextEditor.Text.{IsInner, IsClean}

-- a cell where the cursor may stand
abbrev pub InText : List Bytes → ℕ → ℕ → Type 0
InText ls r c = (r < length ls) × (c ≤ length (line_at ls r)) × IsClean ls

abbrev pub IsValid : TextEditor → Type 0
IsValid e = InText e.lines e.cursor_row e.cursor_col

-- Scrolling leaves the text and the cursor as they are.
pub ensure_lem :
    (h : ℕ) (e : TextEditor)
    → ((ensure_cursor_visible h e).lines ≡ e.lines)
      × ((ensure_cursor_visible h e).cursor_row ≡ e.cursor_row)
      × ((ensure_cursor_visible h e).cursor_col ≡ e.cursor_col)
unfolding ensure_cursor_visible
ensure_lem h e = elim (Bool-cases (h == 0)) [
  | inl p ↦ rw p (refl, refl, refl)
  | inr p ↦ rw p (refl, refl, refl)
]

pub ensure-IsValid : (h : ℕ) (e : TextEditor) → IsValid e → IsValid (ensure_cursor_visible h e)
ensure-IsValid h e v = let (a, b, c) = ensure_lem h e in rw (a, b, c) v

pub line-IsInner : (ls : List Bytes) (r : ℕ) → IsClean ls → All IsInner (line_at ls r)
line-IsInner ls r h = All-get_or (All IsInner) ls r [] h tt

pub break_line-IsValid : (e : TextEditor) → IsValid e → IsValid (break_line e)
unfolding break_line
break_line-IsValid e (r, c, h) =
    let line = line-IsInner e.lines e.cursor_row h in
    let n = length-set e.lines e.cursor_row (take e.cursor_col (cursor_line e)) in
    let upper = set e.lines e.cursor_row (take e.cursor_col (cursor_line e)) in
    (
      omega (
        arith,
        n,
        length-insert_at upper (e.cursor_row + 1) (drop e.cursor_col (cursor_line e)) (omega arith),
      ),
      omega arith,
      All-insert_at (All IsInner) upper (e.cursor_row + 1) _
          (All-set (All IsInner) e.lines e.cursor_row _ h
            (All-take IsInner e.cursor_col (cursor_line e) line))
          (All-drop IsInner e.cursor_col (cursor_line e) line),
    )

pub put_in_line-IsValid :
    (s : Bytes) (e : TextEditor) → All IsInner s → IsValid e → IsValid (put_in_line s e)
put_in_line-IsValid s e hs (r, c, h) =
    let line = line-IsInner e.lines e.cursor_row h in
    let cut = drop e.cursor_col (cursor_line e) in
    let changed = take e.cursor_col (cursor_line e) ++ (s ++ cut) in
    let n = length-set e.lines e.cursor_row changed in
    let g = get_or-set e.lines e.cursor_row changed [] r in
    (
      omega (arith, n),
      rw g (
          omega (
            arith,
            length-append (take e.cursor_col (cursor_line e)) (s ++ cut),
            length-append s cut,
            length-take e.cursor_col (cursor_line e),
          )),
      All-set (All IsInner) e.lines e.cursor_row changed h (
          All-append IsInner _ _ (All-take IsInner e.cursor_col (cursor_line e) line)
            (All-append IsInner s cut hs (All-drop IsInner e.cursor_col (cursor_line e) line))),
    )

pub insert_byte-IsValid : (c : ℕ) (e : TextEditor) → IsValid e → IsValid (insert_byte c e)
unfolding insert_byte
insert_byte-IsValid c e v = elim (Bool-cases (c == 13)) [
  | inl p ↦ rw p v
  | inr p ↦ elim (Bool-cases (c == 10)) [
    | inl q ↦ rw (p, q) (break_line-IsValid e v)
    | inr q ↦ rw (p, q) (put_in_line-IsValid (c ∷ []) e ((q, p), tt) v)
  ]
]

pub insert_string-IsValid : (s : Bytes) (e : TextEditor) → IsValid e → IsValid (insert_string s e)
unfolding insert_string
insert_string-IsValid [] e v = v
insert_string-IsValid (c ∷ s) e v =
    insert_string-IsValid s (insert_byte c e) (insert_byte-IsValid c e v)

pub backspace-IsValid : (h : ℕ) (e : TextEditor) → IsValid e → IsValid (backspace h e)
unfolding backspace
backspace-IsValid h e (r, c, k) =
    let line = cursor_line e in
    let above = line_at e.lines (e.cursor_row - 1) in
    let inner = line-IsInner e.lines e.cursor_row k in
    let inner_above = line-IsInner e.lines (e.cursor_row - 1) k in
    elim (Bool-cases (ltb 0 e.cursor_col)) [
      | inl p ↦
          let v = take (e.cursor_col - 1) line ++ drop e.cursor_col line in
          let n = length-set e.lines e.cursor_row v in
          let g = get_or-set e.lines e.cursor_row v [] r in
          rw p (
            omega (arith, n),
            rw g (
                omega (
                  arith,
                  length-append (take (e.cursor_col - 1) line) (drop e.cursor_col line),
                  length-take (e.cursor_col - 1) line,
                )),
            All-set (All IsInner) e.lines e.cursor_row v k (
                All-append IsInner _ _ (All-take IsInner (e.cursor_col - 1) line inner)
                  (All-drop IsInner e.cursor_col line inner)),
          )
      | inr p ↦ elim (Bool-cases (ltb 0 e.cursor_row)) [
        | inl q ↦
            let lt = ltb→lt 0 e.cursor_row q in
            let joined = set e.lines (e.cursor_row - 1) (above ++ line) in
            let n = length-set e.lines (e.cursor_row - 1) (above ++ line) in
            let m = length-erase_idx joined e.cursor_row (omega (arith, n)) in
            let next : suc (e.cursor_row - 1) ≡ e.cursor_row = omega arith in
            let g : line_at (erase_idx joined e.cursor_row) (e.cursor_row - 1) ≡ above ++ line =
              ap (λ i. line_at (erase_idx joined i) (e.cursor_row - 1)) (sym next)
              ∙ get_or-erase_idx_before joined (e.cursor_row - 1) []
              ∙ get_or-set e.lines (e.cursor_row - 1) (above ++ line) [] (omega arith) in
            rw (p, q)
              (ensure-IsValid h _ (
                omega (arith, n, m),
                rw g (omega (arith, length-append above line)),
                All-erase_idx (All IsInner) joined e.cursor_row (
                    All-set (All IsInner) e.lines (e.cursor_row - 1) (above ++ line) k
                      (All-append IsInner above line inner_above inner)),
              ))
        | inr q ↦ rw (p, q) (r, c, k)
      ]
    ]

pub delete-IsValid : (h : ℕ) (e : TextEditor) → IsValid e → IsValid (delete h e)
unfolding delete
delete-IsValid h e (r, c, k) =
    let line = cursor_line e in
    let below = line_at e.lines (e.cursor_row + 1) in
    let inner = line-IsInner e.lines e.cursor_row k in
    let inner_below = line-IsInner e.lines (e.cursor_row + 1) k in
    elim (Bool-cases (ltb e.cursor_col (length line))) [
      | inl p ↦
          let v = take e.cursor_col line ++ drop (e.cursor_col + 1) line in
          let n = length-set e.lines e.cursor_row v in
          let g = get_or-set e.lines e.cursor_row v [] r in
          rw p (
            omega (arith, n),
            rw g (
                omega (
                  arith,
                  length-append (take e.cursor_col line) (drop (e.cursor_col + 1) line),
                  length-take e.cursor_col line,
                )),
            All-set (All IsInner) e.lines e.cursor_row v k (
                All-append IsInner _ _ (All-take IsInner e.cursor_col line inner)
                  (All-drop IsInner (e.cursor_col + 1) line inner)),
          )
      | inr p ↦ elim (Bool-cases (ltb (e.cursor_row + 1) (length e.lines))) [
        | inl q ↦
            let lt = ltb→lt (e.cursor_row + 1) (length e.lines) q in
            let joined = set e.lines e.cursor_row (line ++ below) in
            let n = length-set e.lines e.cursor_row (line ++ below) in
            let m = length-erase_idx joined (e.cursor_row + 1) (omega (arith, n)) in
            let next : suc e.cursor_row ≡ e.cursor_row + 1 = omega arith in
            let g : line_at (erase_idx joined (e.cursor_row + 1)) e.cursor_row ≡ line ++ below =
              ap (λ i. line_at (erase_idx joined i) e.cursor_row) (sym next)
              ∙ get_or-erase_idx_before joined e.cursor_row []
              ∙ get_or-set e.lines e.cursor_row (line ++ below) [] r in
            rw (p, q)
              (ensure-IsValid h _ (
                omega (arith, n, m),
                rw g (omega (arith, length-append line below)),
                All-erase_idx (All IsInner) joined (e.cursor_row + 1) (
                    All-set (All IsInner) e.lines e.cursor_row (line ++ below) k
                      (All-append IsInner line below inner inner_below)),
              ))
        | inr q ↦ rw (p, q) (r, c, k)
      ]
    ]
