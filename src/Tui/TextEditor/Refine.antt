-- ===== src/Tui/TextEditor/Refine.antt =====
-- The keys against a plain text with a cursor, which is the specification of the editor.
pub mod Cut
pub mod Cells
pub mod Moves
pub mod Erasing
use burp_tui.Prelude.{
  ℕ, zero, suc, ◌+◌, ◌-◌, ◌≤◌, ◌<◌, min, ◌≡◌, refl, sym, ap, ◌∙◌, Bytes, codes, Bool, true, false,
  List, [], ◌∷◌, ◌++◌, ◌==◌, arith, ltb, ltb→lt, length, take, drop, append_assoc, append-nil,
  if◌then◌else◌, Bool-cases, inl, inr, get_or, set, insert_at, erase_idx, get_or-set, drop-get_or,
  get_or-insert_at, get_or-erase_idx_before, take_of_length-le, length-set,
}
use burp_tui.Tui.Mouse.{line_at, Box}
use burp_tui.Tui.TextEditor.{
  TextEditor, cursor_line, without_returns, ensure_cursor_visible, break_line, put_in_line,
  insert_byte, insert_string, backspace, delete, arrow_left, arrow_right,
}
use burp_tui.Tui.TextEditor.Valid.{InText, IsValid, ensure_lem, insert_byte-IsValid}
use burp_tui.Tui.TextEditor.Refine.Cut.{
  head_text, rest_text, head-set, rest-set, head-suc, rest-suc, head-insert_at, rest-insert_at,
  head-erase_idx, rest-erase_idx, rest-set_before, take-put, drop-put, take-put_more, drop-put_more,
  take-suc, take-snoc, drop-snoc,
}

-- a text, cut where the cursor stands
pub record Buffer : Type 0 where
  pub before : Bytes
  pub after : Bytes

abbrev pub buffer : Bytes → Bytes → Buffer
buffer b a = record { before = b; after = a }

pub buffer_eq : {b b' a a' : Bytes} → b ≡ b' → a ≡ a' → buffer b a ≡ buffer b' a'
buffer_eq p q = cc

-- what an editor stands for
abbrev pub view_at : List Bytes → ℕ → ℕ → Buffer
view_at ls r c =
    buffer (head_text ls r ++ take c (line_at ls r)) (drop c (line_at ls r) ++ rest_text ls r)

abbrev pub view : TextEditor → Buffer
view e = view_at e.lines e.cursor_row e.cursor_col

-- the specification
abbrev pub typed : Bytes → Buffer → Buffer
typed s b = record b { before = b.before ++ s }

abbrev pub erase_back : Buffer → Buffer
erase_back b = record b { before = take (length b.before - 1) b.before }

abbrev pub erase_front : Buffer → Buffer
erase_front b = record b { after = drop 1 b.after }

abbrev pub step_left : Buffer → Buffer
step_left b =
    buffer (take (length b.before - 1) b.before) (drop (length b.before - 1) b.before ++ b.after)

abbrev pub step_right : Buffer → Buffer
step_right b = buffer (b.before ++ take 1 b.after) (drop 1 b.after)

pub erase_back-snoc :
    {b : Bytes} (s : Bytes) (x : ℕ) (a : Bytes)
    → b ≡ s ++ x ∷ []
    → erase_back (buffer b a) ≡ buffer s a
erase_back-snoc s x a h = rw h (buffer_eq (take-snoc s x) refl)

pub step_left-snoc :
    {b : Bytes} (s : Bytes) (x : ℕ) (a : Bytes)
    → b ≡ s ++ x ∷ []
    → step_left (buffer b a) ≡ buffer s (x ∷ a)
step_left-snoc s x a h = rw h (buffer_eq (take-snoc s x) (ap (◌++ a) (drop-snoc s x)))

pub view-ensure : (h : ℕ) (e : TextEditor) → view (ensure_cursor_visible h e) ≡ view e
view-ensure h e = let (a, b, c) = ensure_lem h e in rw (a, b, c) refl

pub view-break_line : (e : TextEditor) → IsValid e → view (break_line e) ≡ typed (10 ∷ []) (view e)
unfolding break_line
view-break_line e (r, c, k) =
    let line = cursor_line e in
    let upper = set e.lines e.cursor_row (take e.cursor_col line) in
    let lower = drop e.cursor_col line in
    let n = length-set e.lines e.cursor_row (take e.cursor_col line) in
    let next : e.cursor_row + 1 ≡ suc e.cursor_row = omega arith in
    let g = get_or-set e.lines e.cursor_row (take e.cursor_col line) [] r in
    let h =
      head-insert_at upper e.cursor_row lower (omega (arith, n))
      ∙ ap (λ t. head_text upper e.cursor_row ++ (t ++ (10 ∷ []))) g
      ∙ ap (◌++ (take e.cursor_col line ++ (10 ∷ [])))
          (head-set e.lines e.cursor_row (take e.cursor_col line)) in
    let at = get_or-insert_at upper (suc e.cursor_row) lower [] (omega (arith, n)) in
    let below =
      rest-insert_at upper e.cursor_row lower
      ∙ rest-set e.lines e.cursor_row (take e.cursor_col line) in
    rw next (
      buffer_eq
        (append-nil _
          ∙ h
          ∙ sym (append_assoc (head_text e.lines e.cursor_row) (take e.cursor_col line) (10 ∷ [])))
        (ap (◌++ rest_text (insert_at upper (suc e.cursor_row) lower) (suc e.cursor_row)) at
          ∙ ap (lower ++◌) below))

pub view-put_in_line :
    (s : Bytes) (e : TextEditor) → IsValid e → view (put_in_line s e) ≡ typed s (view e)
view-put_in_line s e (r, c, k) =
    let line = cursor_line e in
    let changed = take e.cursor_col line ++ (s ++ drop e.cursor_col line) in
    let g = get_or-set e.lines e.cursor_row changed [] r in
    rw (g, head-set e.lines e.cursor_row changed, rest-set e.lines e.cursor_row changed)
      (buffer_eq
        (ap (head_text e.lines e.cursor_row ++◌)
            (take-put_more e.cursor_col line s (drop e.cursor_col line) c)
          ∙ sym (append_assoc (head_text e.lines e.cursor_row) (take e.cursor_col line) s))
        (ap (◌++ rest_text e.lines e.cursor_row)
          (drop-put_more e.cursor_col line s (drop e.cursor_col line) c)))

view-insert_byte :
    (c : ℕ) (e : TextEditor)
    → IsValid e
    → view (insert_byte c e) ≡ (if c == 13 then view e else typed (c ∷ []) (view e))
unfolding insert_byte
view-insert_byte c e v = elim (Bool-cases (c == 13)) [
  | inl p ↦ rw p refl
  | inr p ↦ elim (Bool-cases (c == 10)) [
    | inl q ↦
        let is_ten : 10 ≡ c = ground arith in
        rw (p, q) (view-break_line e v ∙ ap (λ x. typed (x ∷ []) (view e)) is_ten)
    | inr q ↦ rw (p, q) (view-put_in_line (c ∷ []) e v)
  ]
]

pub view-insert_string :
    (s : Bytes) (e : TextEditor)
    → IsValid e
    → view (insert_string s e) ≡ typed (without_returns s) (view e)
unfolding insert_string without_returns
view-insert_string [] e v = buffer_eq (sym (append-nil _)) refl
view-insert_string (c ∷ s) e v =
    view-insert_string s (insert_byte c e) (insert_byte-IsValid c e v)
    ∙ ap (typed (without_returns s)) (view-insert_byte c e v)
    ∙ first (c == 13)
  where
    first :
        (b : Bool)
        → typed (without_returns s) (if b then view e else typed (c ∷ []) (view e))
          ≡ typed (if b then without_returns s else c ∷ without_returns s) (view e)
    first true = refl
    first false = buffer_eq (append_assoc _ (c ∷ []) (without_returns s)) refl
