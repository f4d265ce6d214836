-- ===== src/Http/Raw/Marks.antt =====
-- The marks ` (HTTPS)` and ` (HTTP)` that `ParseRawHttpRequest` takes out of an edited text.
use mathlib.Core.Option
use burp_tui.Prelude.{
  ℕ, suc, ◌+◌, ◌≡◌, refl, sym, ap, ◌∙◌, Bytes, codes, true, false, Option, none, some, [], ◌∷◌,
  ◌++◌, arith, starts_with, find, length, take, drop, if◌then◌else◌, Bool-cases, inl, inr,
}
use burp_tui.Http.Raw.{sanitized, erase_mark}

-- `s` without the first occurrence of `mark`
unfoldable pub without_first : Bytes → Bytes → Bytes
without_first mark [] = []
without_first mark (x ∷ xs) =
    if starts_with (x ∷ xs) mark then drop (length mark) (x ∷ xs) else x ∷ without_first mark xs

-- the text without the marks that the interface adds
abbrev pub unmarked : Bytes → Bytes
unmarked raw = without_first (codes " (HTTP)") (without_first (codes " (HTTPS)") raw)

abbrev cut_at : ℕ → Bytes → Option ℕ → Bytes
cut_at n s none = s
cut_at n s (some p) = take p s ++ drop (p + n) s

erase_mark-cut :
    (mark : Bytes) (n : ℕ) (s : Bytes) (o : Option ℕ)
    → find s mark ≡ o
    → erase_mark mark n s ≡ cut_at n s o
unfolding erase_mark
erase_mark-cut mark n s none h = rw (erase_mark, h) refl
erase_mark-cut mark n s (some p) h = rw (erase_mark, h) refl

cut_later :
    (n x : ℕ) (xs : Bytes) (o : Option ℕ) → cut_at n (x ∷ xs) (Option.map suc o) ≡ x ∷ cut_at n xs o
cut_later n x xs none = refl
cut_later n x xs (some p) =
    let e : suc p + n ≡ suc (p + n) = omega arith in
    ap (λ k. take (suc p) (x ∷ xs) ++ drop k (x ∷ xs)) e

find-head :
    (x : ℕ) (xs mark : Bytes) → starts_with (x ∷ xs) mark ≡ true → find (x ∷ xs) mark ≡ some 0
unfolding find
find-head x xs mark h = rw h refl

find-tail :
    (x : ℕ) (xs mark : Bytes)
    → starts_with (x ∷ xs) mark ≡ false
    → find (x ∷ xs) mark ≡ Option.map suc (find xs mark)
unfolding find
find-tail x xs mark h = rw h refl

erase_empty : (mark : Bytes) → erase_mark mark (length mark) [] ≡ []
unfolding erase_mark find starts_with
erase_empty [] = refl
erase_empty (c ∷ mark) = refl

erase_mark_lem : (mark s : Bytes) → erase_mark mark (length mark) s ≡ without_first mark s
unfolding without_first
erase_mark_lem mark [] = erase_empty mark
erase_mark_lem mark (x ∷ xs) = elim (Bool-cases (starts_with (x ∷ xs) mark)) [
  | inl h ↦
      let zero : 0 + length mark ≡ length mark = omega arith in
      erase_mark-cut mark (length mark) (x ∷ xs) (some 0) (find-head x xs mark h)
      ∙ (ap (λ k. drop k (x ∷ xs)) zero ∙ rw h refl)
  | inr h ↦
      let n = length mark in
      erase_mark-cut mark n (x ∷ xs) (Option.map suc (find xs mark)) (find-tail x xs mark h)
      ∙ (cut_later n x xs (find xs mark)
          ∙ (ap (x ∷◌) (sym (erase_mark-cut mark n xs (find xs mark) refl) ∙ erase_mark_lem mark xs)
              ∙ rw h refl))
]

-- the marks that the code erases, at their lengths
pub sanitized-unmarked : (raw : Bytes) → sanitized raw ≡ unmarked raw
unfolding sanitized
sanitized-unmarked raw =
    ap (erase_mark (codes " (HTTP)") 7) (erase_mark_lem (codes " (HTTPS)") raw)
    ∙ erase_mark_lem (codes " (HTTP)") (without_first (codes " (HTTPS)") raw)
