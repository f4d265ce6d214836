-- ===== src/Tui/Mouse.antt =====
-- What the components of the terminal interface share: mouse events, the box of a component, the
-- selected text and the word under the mouse. `TextEditor` and `ScrollableViewer` have each a copy
-- of these functions.
--
-- A row or a column is a number. A coordinate of a box or of the mouse is one too, so that a
-- subtraction that stops at 0 is the `std::max(0, ...)` around it.
use burp_tui.Prelude.{
  ℕ, zero, suc, ◌+◌, ◌-◌, min, Bytes, Bool, true, false, not, List, [], ◌∷◌, ◌++◌, ◌==◌, ◌&&◌, ◌||◌,
  ltb, leb, is_empty, length, take, drop, get_or, if◌then◌else◌,
}

pub data Button : Type 0 where
  left right wheel_up wheel_down other_button : Button

pub data Motion : Type 0 where
  pressed released moved : Motion

abbrev pub is_pressed : Motion → Bool
is_pressed pressed = true
is_pressed _ = false

abbrev pub is_released : Motion → Bool
is_released released = true
is_released _ = false

pub record Mouse : Type 0 where
  pub x : ℕ
  pub y : ℕ
  pub button : Button
  pub motion : Motion

pub record Box : Type 0 where
  pub x_min : ℕ
  pub x_max : ℕ
  pub y_min : ℕ
  pub y_max : ℕ

abbrev pub contain : Box → Mouse → Bool
contain b m = leb b.x_min m.x && leb m.x b.x_max && leb b.y_min m.y && leb m.y b.y_max

-- a cell of the text
pub record Position : Type 0 where
  pub row : ℕ
  pub col : ℕ

-- `r1 > r2 || (r1 == r2 && c1 > c2)`
abbrev pub is_after : Position → Position → Bool
is_after p q = ltb q.row p.row || (p.row == q.row && ltb q.col p.col)

abbrev pub line_at : List Bytes → ℕ → Bytes
line_at lines r = get_or lines r []

-- What row `r` of the selection from `p` to `q` adds.
abbrev pub row_part : List Bytes → Position → Position → ℕ → Bytes
row_part lines p q r =
    let line = line_at lines r in
    let start = if r == p.row then min (length line) p.col else 0 in
    let end = if r == q.row then min (length line) q.col else length line in
    if ltb start end then take (end - start) (drop start line) else []

-- the loop over the rows, with the rounds that are left
unfoldable pub rows_text : List Bytes → Position → Position → ℕ → ℕ → Bytes
rows_text lines p q zero r = []
rows_text lines p q (suc n) r =
    row_part lines p q r
    ++ ((if ltb r q.row then 13 ∷ 10 ∷ [] else []) ++ rows_text lines p q n (r + 1))

-- `GetSelectedText` where there is a selection from `a` to `b`
unfoldable pub text_between : List Bytes → Position → Position → Bytes
unfolding rows_text
text_between lines a b =
    let (p, q) = if is_after a b then (b, a) else (a, b) in
    let p' : Position = record p { row = min (length lines - 1) p.row } in
    let q' : Position = record q { row = min (length lines - 1) q.row } in
    if is_empty lines then [] else rows_text lines p' q' (q'.row + 1 - p'.row) p'.row

abbrev is_between : ℕ → ℕ → ℕ → Bool
is_between lo hi c = leb lo c && leb c hi

-- `isWordChar`; `std::isalnum` in the C locale
abbrev pub is_word_char : ℕ → Bool
is_word_char c =
    is_between b'a' b'z' c
    || is_between b'A' b'Z' c
    || is_between b'0' b'9' c
    || c == b'_'
    || c == b'-'
    || c == b'.'
    || c == b'/'
    || c == b':'
    || c == b'='
    || c == b'&'
    || c == b'?'

-- `while (start > 0 && isWordChar(line[start - 1])) start--;`
unfoldable pub word_start : Bytes → ℕ → ℕ
word_start line zero = zero
word_start line (suc s) =
    let before = word_start line s in if is_word_char (get_or line s 0) then before else suc s

-- how far the loop on `end` goes over what follows
unfoldable pub word_length : Bytes → ℕ
word_length [] = 0
word_length (c ∷ cs) = let rest = word_length cs in if is_word_char c then suc rest else 0

-- `GetWordAt`
unfoldable pub word_at : List Bytes → ℕ → ℕ → Bytes
unfolding word_start word_length
word_at lines row col =
    let line = line_at lines row in
    let start = word_start line col in
    let end = col + word_length (drop col line) in
    if leb (length lines) row || leb (length line) col || not (is_word_char (get_or line col 0))
    then []
    else take (end - start) (drop start line)
