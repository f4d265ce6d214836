-- ===== src/Tui/Formatter/Hex.antt =====
-- The rows of `FormatHexDump`.
use burp_tui.Prelude.{
  ℕ, zero, suc, ◌+◌, ◌*◌, ◌≤◌, ◌≡◌, refl, ap, Bytes, codes, Bool, true, false, [], ◌∷◌, ◌++◌, ◌==◌,
  arith, length, drop, length-drop, length-append, if◌then◌else◌, map,
}
use burp_tui.Prelude.{leb, ltb, ◌&&◌}
use burp_tui.Tui.Formatter.{hex_columns, hex_row, hex_rows, shown_char}

gap_width :
    (b : Bool) (x : Bytes)
    → length ((if b then codes " " else []) ++ x) ≡ (if b then 1 else 0) + length x
gap_width true x = omega arith
gap_width false x = omega arith

-- The columns of the bytes are as wide whether or not there are bytes for all of them.
columns_width :
    (n j : ℕ) (row : Bytes)
    → length (hex_columns n j row) ≡ 3 * n + (if leb j 7 && ltb 7 (j + n) then 1 else 0)
unfolding hex_columns
columns_width zero j row = ground arith
columns_width (suc n) j [] =
    let rest = columns_width n (j + 1) [] in
    let gap = gap_width (j == 7) (hex_columns n (j + 1) []) in ground (arith, rest, gap)
columns_width (suc n) j (c ∷ row) =
    let rest = columns_width n (j + 1) row in
    let gap = gap_width (j == 7) (hex_columns n (j + 1) row) in ground (arith, rest, gap)

-- With at least as many rounds as there are bytes the loop has ended.
no_rows : (n i : ℕ) → hex_rows n i [] ≡ []
unfolding hex_rows
no_rows zero i = refl
no_rows (suc n) i = refl

rounds_enough :
    (n k i : ℕ) (bytes : Bytes) → length bytes ≤ n → hex_rows (n + k) i bytes ≡ hex_rows n i bytes
unfolding hex_rows
rounds_enough zero k i [] h = no_rows (0 + k) i
rounds_enough zero k i (c ∷ bytes) h = absurd (omega arith)
rounds_enough (suc n) k i bytes h =
    let next : suc n + k ≡ suc (n + k) = omega arith in
    let rest = rounds_enough n k (i + 16) (drop 16 bytes) (omega (arith, length-drop 16 bytes)) in
    rw (next, rest) refl

length-map : (f : ℕ → ℕ) (l : Bytes) → length (map f l) ≡ length l
length-map f [] = refl
length-map f (x ∷ l) = ap suc (length-map f l)

-- Every row is as wide as its bytes and 63 columns more, so the characters start in one column
-- whether or not the row is full; and the loop over the rows
-- ends by its own test, whatever the sample is: rounds more than its bytes add nothing.
pub hex_rows_lem :
    (i k : ℕ) (row bytes : Bytes)
    → (length (hex_row i row) ≡ 63 + length row)
      × (hex_rows (length bytes + k) i bytes ≡ hex_rows (length bytes) i bytes)
unfolding hex_row
hex_rows_lem i k row bytes =
    let chars = map shown_char row ++ codes "|\n" in
    let width : length (hex_row i row) ≡ 63 + length row = omega (
      arith,
      columns_width 16 0 row,
      length-append (hex_columns 16 0 row) (codes " |" ++ chars),
      length-append (map shown_char row) (codes "|\n"),
      length-map shown_char row,
    ) in
    (width, rounds_enough (length bytes) k i bytes (omega arith))
