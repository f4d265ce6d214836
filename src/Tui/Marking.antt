-- ===== src/Tui/Marking.antt =====
-- A row as `Render` draws it, in three pieces, and the loop over the rows that are in view. The
-- colours of the pieces are left out. `TextEditor` and `ScrollableViewer` have each a copy.
use burp_tui.Prelude.{
  ℕ, zero, suc, ◌+◌, ◌-◌, ◌≤◌, min, ◌≡◌, refl, sym, ap, ◌∙◌, Bytes, Bool, true, false, List, [],
  ◌∷◌, ◌++◌, ◌==◌, arith, ltb, ltb→lt, get_or, length, take, drop, if◌then◌else◌, Bool-cases, inl,
  inr, take-append-drop, drop-nil, drop-get_or, drop_of_length-le,
}
use burp_tui.Tui.Mouse.{Position, is_after}

pub record Pieces : Type 0 where
  pub before : Bytes
  pub marked : Bytes
  pub after : Bytes

abbrev pub joined : Pieces → Bytes
joined p = p.before ++ (p.marked ++ p.after)

-- `std::swap` where the selection was made backwards
abbrev pub in_order : Position → Position → Position × Position
in_order a b = if is_after a b then (b, a) else (a, b)

abbrev pub mark_start : Position → ℕ → Bytes → ℕ
mark_start p i line = if i == p.row then min (length line) p.col else 0

abbrev pub mark_end : Position → ℕ → Bytes → ℕ
mark_end q i line = if i == q.row then min (length line) q.col else length line

-- row `i` with the part of the selection from `p` to `q` marked
unfoldable pub mark : Position → Position → ℕ → Bytes → Pieces
mark p q i line =
    let start = mark_start p i line in
    let end = mark_end q i line in
    record {
      before = take start line;
      marked = if ltb start end then take (end - start) (drop start line) else [];
      after = if ltb end (length line) then drop end line else [];
    }

-- The loop `for (int i = scroll_y_; i < total && i < scroll_y_ + height; ++i)`, with the rounds
-- that the second test leaves.
unfoldable pub rows_from {ℓ} : {A : Type ℓ} → (ℕ → A) → (total rounds i : ℕ) → List A
rows_from row total zero i = []
rows_from row total (suc n) i =
    let more = rows_from row total n (i + 1) in if ltb i total then row i ∷ more else []

-- The rows that the loop goes over, each with what is drawn of it.
abbrev pub drawn {ℓ κ} : {A : Type ℓ} {B : Type κ} → (ℕ → B → A) → ℕ → List B → List A
drawn f i [] = []
drawn f i (l ∷ ls) = f i l ∷ drawn f (suc i) ls

take-drop : (s k : ℕ) (l : Bytes) → take k (drop s l) ++ drop (s + k) l ≡ drop s l
take-drop zero k l = let e : 0 + k ≡ k = omega arith in rw e (take-append-drop k l)
take-drop (suc s) zero [] = drop-nil (suc s + 0)
take-drop (suc s) (suc k) [] = drop-nil (suc s + suc k)
take-drop (suc s) k (x ∷ l) =
    let e : suc s + k ≡ suc (s + k) = omega arith in rw e (take-drop s k l)

pub drop_if : (n : ℕ) (l : Bytes) → (if ltb n (length l) then drop n l else []) ≡ drop n l
drop_if n l = elim (Bool-cases (ltb n (length l))) [
  | inl p ↦ rw p refl
  | inr p ↦ rw p (sym (drop_of_length-le n l (ground arith)))
]

three_pieces :
    (s e : ℕ) (l : Bytes)
    → s ≤ e
    → take s l ++ ((if ltb s e then take (e - s) (drop s l) else []) ++ drop e l) ≡ l
three_pieces s e l h = elim (Bool-cases (ltb s e)) [
  | inl p ↦
      let q : s + (e - s) ≡ e = omega arith in
      rw p (
        ap (take s l ++◌)
          (ap (λ j. take (e - s) (drop s l) ++ drop j l) (sym q) ∙ take-drop s (e - s) l)
        ∙ take-append-drop s l)
  | inr p ↦
      let q : e ≡ s = ground arith in rw p (ap (λ j. take s l ++ drop j l) q ∙ take-append-drop s l)
]

marks_in_order :
    (p q : Position) (i : ℕ) (l : Bytes) → is_after p q ≡ false → mark_start p i l ≤ mark_end q i l
marks_in_order p q i l h = ground arith

pub joined-mark :
    (p q : Position) (i : ℕ) (l : Bytes) → is_after p q ≡ false → joined (mark p q i l) ≡ l
unfolding mark
joined-mark p q i l h =
    ap
      (λ t.
        take (mark_start p i l) l
        ++ ((if ltb (mark_start p i l) (mark_end q i l)
              then take (mark_end q i l - mark_start p i l) (drop (mark_start p i l) l)
              else [])
            ++ t))
      (drop_if (mark_end q i l) l)
    ∙ three_pieces (mark_start p i l) (mark_end q i l) l (marks_in_order p q i l h)

pub joined-if :
    (b : Bool) (x y : Pieces) (l m : Bytes)
    → joined x ≡ l
    → joined y ≡ m
    → joined (if b then x else y) ≡ (if b then l else m)
joined-if true x y l m h k = h
joined-if false x y l m h k = k

pub in_order-is_after : (a b : Position) → is_after (in_order a b).0 (in_order a b).1 ≡ false
in_order-is_after a b = ground arith

-- The loop draws the lines from the scroll position on, as many as there is place for.
pub rows_from_lem {ℓ κ} :
    {A : Type ℓ} {B : Type κ} (f : ℕ → B → A) (ls : List B) (d : B) (n i : ℕ)
    → rows_from (λ j. f j (get_or ls j d)) (length ls) n i ≡ drawn f i (take n (drop i ls))
unfolding rows_from
rows_from_lem f ls d zero i = refl
rows_from_lem f ls d (suc n) i = elim (Bool-cases (ltb i (length ls))) [
  | inl p ↦
      let next : i + 1 ≡ suc i = omega arith in
      rw (p, next)
        (ap (f i (get_or ls i d) ∷◌) (rows_from_lem f ls d n (suc i))
          ∙ ap (λ t. drawn f i (take (suc n) t))
              (sym (drop-get_or ls i d (ltb→lt i (length ls) p))))
  | inr p ↦
      rw p (sym (ap (λ t. drawn f i (take (suc n) t)) (drop_of_length-le i ls (ground arith))))
]
