-- ===== src/Tui/TextEditor/Refine/Cut.antt =====
-- The text with `\n` between the lines, cut at a cell: what the operations on the lines do to the
-- lines above, to the line and to the lines below.
use burp_tui.Prelude.{
  ℕ, zero, suc, ◌+◌, ◌-◌, ◌≤◌, ◌<◌, ◌≡◌, refl, sym, ap, ◌∙◌, Bytes, List, [], ◌∷◌, ◌++◌, arith,
  length, take, drop, append_assoc, set, insert_at, erase_idx, get_or,
}
use burp_tui.Tui.Mouse.{line_at}
use burp_tui.Tui.TextEditor.Text.{tail_text}

-- the lines above row `r`, each with its line end
abbrev pub head_text : List Bytes → ℕ → Bytes
head_text [] r = []
head_text (l ∷ ls) zero = []
head_text (l ∷ ls) (suc r) = l ++ (10 ∷ head_text ls r)

-- the lines below row `r`, each after a line end
abbrev pub rest_text : List Bytes → ℕ → Bytes
rest_text [] r = []
rest_text (l ∷ ls) zero = tail_text ls
rest_text (l ∷ ls) (suc r) = rest_text ls r

abbrev pub whole_text : List Bytes → Bytes
whole_text [] = []
whole_text (l ∷ ls) = l ++ tail_text ls

pub whole_lem :
    (ls : List Bytes) (r : ℕ)
    → r < length ls
    → head_text ls r ++ (line_at ls r ++ rest_text ls r) ≡ whole_text ls
whole_lem [] r h = absurd (omega arith)
whole_lem (l ∷ ls) zero h = refl
whole_lem (l ∷ []) (suc r) h = absurd (omega arith)
whole_lem (l ∷ m ∷ ls) (suc r) h =
    append_assoc l (10 ∷ head_text (m ∷ ls) r) _
    ∙ ap (λ t. l ++ (10 ∷ t)) (whole_lem (m ∷ ls) r (omega arith))

pub head-set : (ls : List Bytes) (r : ℕ) (v : Bytes) → head_text (set ls r v) r ≡ head_text ls r
head-set [] r v = refl
head-set (l ∷ ls) zero v = refl
head-set (l ∷ ls) (suc r) v = ap (λ t. l ++ (10 ∷ t)) (head-set ls r v)

pub rest-set : (ls : List Bytes) (r : ℕ) (v : Bytes) → rest_text (set ls r v) r ≡ rest_text ls r
rest-set [] r v = refl
rest-set (l ∷ ls) zero v = refl
rest-set (l ∷ ls) (suc r) v = rest-set ls r v

pub head-suc :
    (ls : List Bytes) (r : ℕ)
    → r < length ls
    → head_text ls (suc r) ≡ head_text ls r ++ (line_at ls r ++ (10 ∷ []))
head-suc [] r h = absurd (omega arith)
head-suc (l ∷ []) zero h = refl
head-suc (l ∷ m ∷ ls) zero h = refl
head-suc (l ∷ ls) (suc r) h =
    ap (λ t. l ++ (10 ∷ t)) (head-suc ls r (omega arith))
    ∙ sym (append_assoc l (10 ∷ head_text ls r) (line_at ls r ++ (10 ∷ [])))

pub rest-suc :
    (ls : List Bytes) (r : ℕ)
    → suc r < length ls
    → rest_text ls r ≡ 10 ∷ (line_at ls (suc r) ++ rest_text ls (suc r))
rest-suc [] r h = absurd (omega arith)
rest-suc (l ∷ []) r h = absurd (omega arith)
rest-suc (l ∷ m ∷ ls) zero h = refl
rest-suc (l ∷ m ∷ ls) (suc r) h = rest-suc (m ∷ ls) r (omega arith)

pub head-insert_at :
    (ls : List Bytes) (r : ℕ) (v : Bytes)
    → r < length ls
    → head_text (insert_at ls (suc r) v) (suc r) ≡ head_text ls r ++ (line_at ls r ++ (10 ∷ []))
head-insert_at [] r v h = absurd (omega arith)
head-insert_at (l ∷ ls) zero v h = refl
head-insert_at (l ∷ ls) (suc r) v h =
    ap (λ t. l ++ (10 ∷ t)) (head-insert_at ls r v (omega arith))
    ∙ sym (append_assoc l (10 ∷ head_text ls r) (line_at ls r ++ (10 ∷ [])))

pub rest-insert_at :
    (ls : List Bytes) (r : ℕ) (v : Bytes)
    → rest_text (insert_at ls (suc r) v) (suc r) ≡ rest_text ls r
rest-insert_at [] r v = refl
rest-insert_at (l ∷ ls) zero v = refl
rest-insert_at (l ∷ ls) (suc r) v = rest-insert_at ls r v

pub head-erase_idx : (ls : List Bytes) (r : ℕ) → head_text (erase_idx ls (suc r)) r ≡ head_text ls r
head-erase_idx [] r = refl
head-erase_idx (l ∷ []) zero = refl
head-erase_idx (l ∷ m ∷ ls) zero = refl
head-erase_idx (l ∷ ls) (suc r) = ap (λ t. l ++ (10 ∷ t)) (head-erase_idx ls r)

pub rest-erase_idx :
    (ls : List Bytes) (r : ℕ) → rest_text (erase_idx ls (suc r)) r ≡ rest_text ls (suc r)
rest-erase_idx [] r = refl
rest-erase_idx (l ∷ []) zero = refl
rest-erase_idx (l ∷ m ∷ ls) zero = refl
rest-erase_idx (l ∷ ls) (suc r) = rest-erase_idx ls r

-- the same of the line after the next one of a set line
pub rest-set_before :
    (ls : List Bytes) (r : ℕ) (v : Bytes) → rest_text (set ls r v) (suc r) ≡ rest_text ls (suc r)
rest-set_before [] r v = refl
rest-set_before (l ∷ ls) zero v = refl
rest-set_before (l ∷ ls) (suc r) v = rest-set_before ls r v

-- within a line
pub take-put : (c : ℕ) (l t : Bytes) → c ≤ length l → take c (take c l ++ t) ≡ take c l
take-put zero l t h = refl
take-put (suc c) [] t h = absurd (omega arith)
take-put (suc c) (x ∷ l) t h = ap (x ∷◌) (take-put c l t (omega arith))

pub drop-put : (c : ℕ) (l t : Bytes) → c ≤ length l → drop c (take c l ++ t) ≡ t
drop-put zero l t h = refl
drop-put (suc c) [] t h = absurd (omega arith)
drop-put (suc c) (x ∷ l) t h = drop-put c l t (omega arith)

pub take-put_more :
    (c : ℕ) (l s t : Bytes)
    → c ≤ length l
    → take (c + length s) (take c l ++ (s ++ t)) ≡ take c l ++ s
take-put_more zero l s t h = let e : 0 + length s ≡ length s = omega arith in rw e (take_all s t)
  where
    take_all : (s t : Bytes) → take (length s) (s ++ t) ≡ s
    take_all [] t = refl
    take_all (x ∷ s) t = ap (x ∷◌) (take_all s t)
take-put_more (suc c) [] s t h = absurd (omega arith)
take-put_more (suc c) (x ∷ l) s t h =
    let e : suc c + length s ≡ suc (c + length s) = omega arith in
    rw e (ap (x ∷◌) (take-put_more c l s t (omega arith)))

pub drop-put_more :
    (c : ℕ) (l s t : Bytes) → c ≤ length l → drop (c + length s) (take c l ++ (s ++ t)) ≡ t
drop-put_more zero l s t h = let e : 0 + length s ≡ length s = omega arith in rw e (drop_all s t)
  where
    drop_all : (s t : Bytes) → drop (length s) (s ++ t) ≡ t
    drop_all [] t = refl
    drop_all (x ∷ s) t = drop_all s t
drop-put_more (suc c) [] s t h = absurd (omega arith)
drop-put_more (suc c) (x ∷ l) s t h =
    let e : suc c + length s ≡ suc (c + length s) = omega arith in
    rw e (drop-put_more c l s t (omega arith))

-- one more byte of a line
pub take-suc : (c : ℕ) (l : Bytes) → c < length l → take (suc c) l ≡ take c l ++ (get_or l c 0 ∷ [])
take-suc c [] h = absurd (omega arith)
take-suc zero (x ∷ l) h = refl
take-suc (suc c) (x ∷ l) h = ap (x ∷◌) (take-suc c l (omega arith))

-- the last byte of a text
pub take-snoc : (s : Bytes) (x : ℕ) → take (length (s ++ x ∷ []) - 1) (s ++ x ∷ []) ≡ s
take-snoc [] x = refl
take-snoc (y ∷ []) x = refl
take-snoc (y ∷ z ∷ s) x =
    let e : suc (length ((z ∷ s) ++ x ∷ [])) - 1 ≡ suc (length ((z ∷ s) ++ x ∷ []) - 1) =
      omega arith in
    rw e (ap (y ∷◌) (take-snoc (z ∷ s) x))

pub drop-snoc : (s : Bytes) (x : ℕ) → drop (length (s ++ x ∷ []) - 1) (s ++ x ∷ []) ≡ x ∷ []
drop-snoc [] x = refl
drop-snoc (y ∷ []) x = refl
drop-snoc (y ∷ z ∷ s) x =
    let e : suc (length ((z ∷ s) ++ x ∷ [])) - 1 ≡ suc (length ((z ∷ s) ++ x ∷ []) - 1) =
      omega arith in
    rw e (drop-snoc (z ∷ s) x)
