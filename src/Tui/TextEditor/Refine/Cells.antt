-- ===== src/Tui/TextEditor/Refine/Cells.antt =====
-- What stands before and after a cell, within a line and at the ends of it.
use burp_tui.Prelude.{
  ℕ, zero, suc, ◌-◌, ◌≤◌, ◌<◌, ◌≡◌, refl, sym, ap, ◌∙◌, Bytes, List, [], ◌∷◌, ◌++◌, arith, length,
  take, drop, append_assoc, append-nil, get_or, drop-get_or, take_of_length-le,
}
use burp_tui.Tui.Mouse.{line_at}
use burp_tui.Tui.TextEditor.Refine.Cut.{head_text, rest_text, head-suc, rest-suc, take-suc}
use burp_tui.Tui.TextEditor.Refine.{buffer, erase_back, step_left}

-- The text before a cell, with its last byte apart: within a line, and at the start of a line.
pub before_in_line :
    (ls : List Bytes) (r c : ℕ)
    → 0 < c
    → c ≤ length (line_at ls r)
    → head_text ls r ++ take c (line_at ls r)
      ≡ (head_text ls r ++ take (c - 1) (line_at ls r)) ++ (get_or (line_at ls r) (c - 1) 0 ∷ [])
before_in_line ls r c p h =
    let e : c ≡ suc (c - 1) = omega arith in
    ap (λ k. head_text ls r ++ take k (line_at ls r)) e
    ∙ ap (head_text ls r ++◌) (take-suc (c - 1) (line_at ls r) (omega arith))
    ∙ sym (append_assoc (head_text ls r) (take (c - 1) (line_at ls r)) _)

pub after_in_line :
    (ls : List Bytes) (r c : ℕ)
    → 0 < c
    → c ≤ length (line_at ls r)
    → drop (c - 1) (line_at ls r) ≡ get_or (line_at ls r) (c - 1) 0 ∷ drop c (line_at ls r)
after_in_line ls r c p h =
    let e : suc (c - 1) ≡ c = omega arith in
    drop-get_or (line_at ls r) (c - 1) 0 (omega arith)
    ∙ ap (λ k. get_or (line_at ls r) (c - 1) 0 ∷ drop k (line_at ls r)) e

pub before_at_start :
    (ls : List Bytes) (r : ℕ)
    → 0 < r
    → r < length ls
    → head_text ls r ++ [] ≡ (head_text ls (r - 1) ++ line_at ls (r - 1)) ++ (10 ∷ [])
before_at_start ls r p h =
    let e : r ≡ suc (r - 1) = omega arith in
    append-nil (head_text ls r)
    ∙ ap (head_text ls) e
    ∙ head-suc ls (r - 1) (omega arith)
    ∙ sym (append_assoc (head_text ls (r - 1)) (line_at ls (r - 1)) (10 ∷ []))

pub after_at_end :
    (ls : List Bytes) (r : ℕ)
    → 0 < r
    → r < length ls
    → rest_text ls (r - 1) ≡ 10 ∷ (line_at ls r ++ rest_text ls r)
after_at_end ls r p h =
    let e : suc (r - 1) ≡ r = omega arith in
    rest-suc ls (r - 1) (omega arith) ∙ ap (λ k. 10 ∷ (line_at ls k ++ rest_text ls k)) e

pub take_full : (l : Bytes) → take (length l) l ≡ l
take_full l = take_of_length-le (length l) l (omega arith)

pub drop_full : (l : Bytes) → drop (length l) l ≡ []
drop_full [] = refl
drop_full (x ∷ l) = drop_full l

pub no_text_before : (ls : List Bytes) → head_text ls 0 ≡ []
no_text_before [] = refl
no_text_before (l ∷ ls) = refl

pub nothing_before :
    (ls : List Bytes) {r c : ℕ} → r ≡ 0 → c ≡ 0 → head_text ls r ++ take c (line_at ls r) ≡ []
nothing_before ls y z = rw (y, z) (append-nil _ ∙ no_text_before ls)

pub step_left-nil : {b : Bytes} (a : Bytes) → b ≡ [] → step_left (buffer b a) ≡ buffer b a
step_left-nil a h = rw h refl

pub erase_back-nil : {b : Bytes} (a : Bytes) → b ≡ [] → erase_back (buffer b a) ≡ buffer b a
erase_back-nil a h = rw h refl

pub rest_last : (ls : List Bytes) (r : ℕ) → length ls ≡ suc r → rest_text ls r ≡ []
rest_last [] r h = refl
rest_last (l ∷ []) zero h = refl
rest_last (l ∷ m ∷ ls) zero h = absurd (omega arith)
rest_last (l ∷ ls) (suc r) h = rest_last ls r (omega arith)

pub take_front : (l m : Bytes) → take (length l) (l ++ m) ≡ l
take_front [] m = refl
take_front (x ∷ l) m = ap (x ∷◌) (take_front l m)

pub drop_front : (l m : Bytes) → drop (length l) (l ++ m) ≡ m
drop_front [] m = refl
drop_front (x ∷ l) m = drop_front l m
