-- ===== src/Tui/TextEditor/Selection.antt =====
-- The selection: what of the text it is, and how it ends.
use burp_tui.Prelude.{
  ℕ, zero, suc, ◌+◌, ◌-◌, ◌<◌, min, ◌≡◌, refl, sym, ap, ◌∙◌, Bytes, Bool, true, false, not, List,
  [], ◌∷◌, ◌++◌, ◌==◌, arith, All, ltb, length, take, drop, drop-get_or, length-drop, map,
  append-nil, is_empty, if◌then◌else◌, Bool-cases, inl, inr, take_of_length-le, drop_of_length-le,
}
use burp_tui.Tui.Mouse.{
  Mouse, left, Motion, is_pressed, Box, contain, Position, is_after, line_at, row_part, rows_text,
  text_between,
}
use burp_tui.Tui.TextEditor.{
  TextEditor, origin, joined_lines, get_text, get_selected_text, on_left, on_event, act, event,
  mouse_event, run, target,
}

swapped :
    (a b : Position)
    → Path
        (Position × Position)
        (if is_after a b then (b, a) else (a, b))
        (if is_after b a then (a, b) else (b, a))
swapped a b = elim (Bool-cases (is_after a b)) [
  | inl p ↦ let q : is_after b a ≡ false = ground arith in rw (p, q) refl
  | inr p ↦ elim (Bool-cases (is_after b a)) [
    | inl q ↦ rw (p, q) refl
    | inr q ↦
        let rows : a.row ≡ b.row = ground arith in
        let cols : a.col ≡ b.col = ground arith in rw (p, q) (same rows cols)
  ]
]
  where
    same : a.row ≡ b.row → a.col ≡ b.col → Path (Position × Position) (a, b) (b, a)
    same rows cols = cc

-- A selection made backwards selects the same text.
pub text_between_comm :
    (ls : List Bytes) (a b : Position) → text_between ls a b ≡ text_between ls b a
unfolding text_between
text_between_comm ls a b = ap (ordered_text ls) (swapped a b)
  where
    ordered_text : List Bytes → Position × Position → Bytes
    ordered_text ls (p, q) =
        let p' : Position = record p { row = min (length ls - 1) p.row } in
        let q' : Position = record q { row = min (length ls - 1) q.row } in
        if is_empty ls then [] else rows_text ls p' q' (q'.row + 1 - p'.row) p'.row

-- the end of the text
abbrev pub end_of : List Bytes → Position
end_of ls = record { row = length ls - 1; col = length (line_at ls (length ls - 1)) }

whole_row : (ls : List Bytes) (r : ℕ) → row_part ls origin (end_of ls) r ≡ line_at ls r
whole_row ls r =
    let line = line_at ls r in
    let start : (if r == 0 then min (length line) 0 else 0) ≡ 0 = ground arith in
    rw (start, at_end (r == (length ls - 1)) (ground arith)) (whole line)
  where
    at_end :
        (b : Bool)
        → (b ≡ true → r ≡ length ls - 1)
        → (if b
            then min (length (line_at ls r)) (length (line_at ls (length ls - 1)))
            else length (line_at ls r))
          ≡ length (line_at ls r)
    at_end true h = rw (h refl) (omega arith)
    at_end false h = refl

    whole : (l : Bytes) → (if ltb 0 (length l) then take (length l - 0) l else []) ≡ l
    whole [] = refl
    whole (x ∷ l) =
        let e : length (x ∷ l) - 0 ≡ length (x ∷ l) = omega arith in
        let some_byte : ltb 0 (length (x ∷ l)) ≡ true = ground arith in
        rw (e, some_byte) (ap (x ∷◌) (take_of_length-le (length l) l (omega arith)))

joined-cons :
    (b : Bool) (l : Bytes) (ls : List Bytes)
    → is_empty ls ≡ not b
    → l ++ ((if b then 13 ∷ 10 ∷ [] else []) ++ joined_lines ls) ≡ joined_lines (l ∷ ls)
unfolding joined_lines
joined-cons true l [] h = cc
joined-cons true l (m ∷ ls) h = refl
joined-cons false l [] h = append-nil l
joined-cons false l (m ∷ ls) h = cc

is_empty-length : (ls : List Bytes) → is_empty ls ≡ not (ltb 0 (length ls))
is_empty-length [] = refl
is_empty-length (l ∷ ls) = ground arith

rows_text-joined :
    (ls : List Bytes) (n r : ℕ)
    → r + n ≡ length ls
    → rows_text ls origin (end_of ls) n r ≡ joined_lines (drop r ls)
unfolding rows_text joined_lines
rows_text-joined ls zero r h = ap joined_lines (sym (drop_of_length-le r ls (omega arith)))
rows_text-joined ls (suc n) r h =
    let next : r + 1 ≡ suc r = omega arith in
    rw (whole_row ls r, next, rows_text-joined ls n (suc r) (omega arith))
      (joined-cons (ltb r (length ls - 1)) (line_at ls r) (drop (suc r) ls)
          (is_empty-length (drop (suc r) ls) ∙ (ground (arith, length-drop (suc r) ls)))
        ∙ ap joined_lines (sym (drop-get_or ls r [] (omega arith))))

-- The left button within the box, whatever moves, presses and releases it reports.
abbrev pub IsLeftInside : Box → Mouse → Type 0
IsLeftInside box m = (contain box m ≡ true) × (m.button ≡ left)

on_left-selecting :
    (p : Position) (m : Motion) (e : TextEditor)
    → e.selecting ≡ true
    → ((on_left p m e).0.selecting ≡ true) × ((on_left p m e).0.copied ≡ e.copied)
unfolding on_left
on_left-selecting p m e h = elim (Bool-cases (is_pressed m)) [
  | inl q ↦ rw q (refl, refl)
  | inr q ↦ rw (q, h) (refl, refl)
]

on_event-selecting :
    (ok : Bool) (box : Box) (m : Mouse) (e : TextEditor)
    → e.selecting ≡ true
    → IsLeftInside box m
    → ((on_event ok box (mouse_event m) e).0.selecting ≡ true)
      × ((on_event ok box (mouse_event m) e).0.copied ≡ e.copied)
unfolding on_event
on_event-selecting ok box m e h (inside, button) =
    rw (inside, button) (on_left-selecting (target box m e) m.motion e h)

-- Once a selection has begun, no events of the left button within the box end it, the release of
-- the button neither: the editor still selects, and nothing is copied.
pub drags-selecting :
    (ok : Bool) (box : Box) (ms : List Mouse) (e : TextEditor)
    → e.selecting ≡ true
    → All (IsLeftInside box) ms
    → ((run (map (λ m. event ok box (mouse_event m)) ms) e).selecting ≡ true)
      × ((run (map (λ m. event ok box (mouse_event m)) ms) e).copied ≡ e.copied)
unfolding run act
drags-selecting ok box [] e h hs = (h, refl)
drags-selecting ok box (m ∷ ms) e h (hm, hs) =
    let (s, c) = on_event-selecting ok box m e h hm in
    let (s', c') = drags-selecting ok box ms (on_event ok box (mouse_event m) e).0 s hs in
    (s', c' ∙ c)

text_between-all :
    (ls : List Bytes) → 0 < length ls → text_between ls origin (end_of ls) ≡ joined_lines ls
unfolding text_between
text_between-all [] h = absurd (omega arith)
text_between-all (l ∷ more) h =
    let ls = l ∷ more in
    let forwards : is_after origin (end_of ls) ≡ false = ground arith in
    let top : min (length ls - 1) 0 ≡ 0 = omega arith in
    let bottom : min (length ls - 1) (length ls - 1) ≡ length ls - 1 = omega arith in
    let rounds : length ls - 1 + 1 - 0 ≡ length ls = omega arith in
    rw (forwards, top, bottom, rounds) (rows_text-joined ls (length ls) 0 (omega arith))

-- For an editor with at least a line: a selection from the start to the end of the text is the
-- text that `GetText` gives, made forwards or backwards.
pub get_selected_text-all :
    (e : TextEditor)
    → 0 < length e.lines
    → (get_selected_text
          (record e { has_selection = true; sel_start = origin; sel_end = end_of e.lines })
        ≡ get_text e)
      × (get_selected_text
            (record e { has_selection = true; sel_start = end_of e.lines; sel_end = origin })
          ≡ get_text e)
unfolding get_selected_text
get_selected_text-all e h =
    let all = text_between-all e.lines h in
    (all, text_between_comm e.lines (end_of e.lines) origin ∙ all)
