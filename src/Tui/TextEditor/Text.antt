-- ===== src/Tui/TextEditor/Text.antt =====
-- The text of the editor as one string, cut at the cursor: what `SetText` stores and `GetText`
-- gives back.
use mathlib.Core.Option
use burp_tui.Prelude.{
  ℕ, ◌⊎◌, zero, suc, ◌+◌, ◌≤◌, ◌<◌, ◌≡◌, refl, sym, ap, ◌∙◌, Bytes, true, false, none, some, List,
  [], ◌∷◌, ◌++◌, ◌==◌, arith, append-nil, All, find, starts_with, is_empty, length, take, drop,
  length-drop, if◌then◌else◌, Bool-cases, inl, inr,
}
use burp_tui.Http.Raw.{with_crlf}
use burp_tui.Tui.TextEditor.{
  TextEditor, without_returns, split_loop, split_lines, set_text, joined_lines, get_text,
}

-- the lines, each with a line end before it
abbrev pub tail_text : List Bytes → Bytes
tail_text [] = []
tail_text (l ∷ ls) = 10 ∷ (l ++ tail_text ls)

-- a byte that may stand in a line
abbrev pub IsInner : ℕ → Type 0
IsInner c = ((c == 10) ≡ false) × ((c == 13) ≡ false)

abbrev pub IsClean : List Bytes → Type 0
IsClean ls = All (All IsInner) ls

-- The reference: a text is cut at each `\n`.
abbrev pub onto_first : ℕ → List Bytes → List Bytes
onto_first c [] = (c ∷ []) ∷ []
onto_first c (l ∷ ls) = (c ∷ l) ∷ ls

abbrev pub lines_of : Bytes → List Bytes
lines_of [] = [] ∷ []
lines_of (c ∷ cs) = if c == 10 then [] ∷ lines_of cs else onto_first c (lines_of cs)

abbrev pub first_line : List Bytes → Bytes
first_line [] = []
first_line (l ∷ ls) = l

find-cons :
    (c : ℕ) (s : Bytes)
    → find (c ∷ s) (10 ∷ []) ≡ (if c == 10 then some 0 else Option.map suc (find s (10 ∷ [])))
unfolding find starts_with
find-cons c s = ground arith

-- what `find` of a line end says of the reference
find_lines :
    (s : Bytes)
    → (find s (10 ∷ []) ≡ none) × (lines_of s ≡ s ∷ [])
      ⊎ ((i : ℕ) × (find s (10 ∷ []) ≡ some i)
          × (i < length s)
          × (lines_of s ≡ take i s ∷ lines_of (drop (i + 1) s)))
unfolding find starts_with
find_lines [] = inl (refl, refl)
find_lines (c ∷ s) = elim (Bool-cases (c == 10)) [
  | inl e ↦ inr (0, find-cons c s ∙ rw e refl, omega arith, rw e refl)
  | inr e ↦ elim (find_lines s) [
    | inl (f, l) ↦ inl (find-cons c s ∙ rw (e, f) refl, rw (e, l) refl)
    | inr (i, f, b, l) ↦ inr (
      suc i,
      find-cons c s ∙ rw (e, f) refl,
      omega arith,
      rw (e, l) (let q : suc i + 1 ≡ suc (i + 1) = omega arith in rw q refl),
    )
  ]
]

-- With enough rounds the loop of `SetText` gives the lines of the reference.
split_loop-lines_of :
    (n : ℕ) (s : Bytes) → length s ≤ n → is_empty s ≡ false → split_loop n s ≡ lines_of s
unfolding split_loop
split_loop-lines_of zero [] h e = cc
split_loop-lines_of zero (c ∷ s) h e = absurd (omega arith)
split_loop-lines_of (suc n) s h e = elim (find_lines s) [
  | inl (f, l) ↦ rw (split_loop, f, e, l) refl
  | inr (i, f, b, l) ↦ elim (Bool-cases (is_empty (drop (i + 1) s))) [
    | inl z ↦ rw (split_loop, f, e, z, l, empty_nil (drop (i + 1) s) z) refl
    | inr z ↦
        rw (split_loop, f, e, z, l)
          (ap (take i s ∷◌)
            (split_loop-lines_of n (drop (i + 1) s) (omega (arith, length-drop (i + 1) s)) z))
  ]
]
  where
    empty_nil : (t : Bytes) → is_empty t ≡ true → t ≡ []
    empty_nil [] p = refl
    empty_nil (x ∷ t) p = cc

onto_first_nonempty : (c : ℕ) (ls : List Bytes) → is_empty (onto_first c ls) ≡ false
onto_first_nonempty c [] = refl
onto_first_nonempty c (l ∷ ls) = refl

pub lines_of_nonempty : (s : Bytes) → is_empty (lines_of s) ≡ false
lines_of_nonempty [] = refl
lines_of_nonempty (c ∷ s) = ground (arith, onto_first_nonempty c (lines_of s))

-- The index loop of `SetText` with the fuel that it is given, against the reference.
pub split_lines_lem : (s : Bytes) → split_lines s ≡ lines_of s
unfolding split_lines split_loop
split_lines_lem [] = refl
split_lines_lem (c ∷ s) =
    let e = split_loop-lines_of (length (c ∷ s)) (c ∷ s) (omega arith) refl in
    let n = lines_of_nonempty (c ∷ s) in
    ap (λ ls. if is_empty ls then [] ∷ [] else ls) e ∙ rw n refl

joined-onto_first :
    (c : ℕ) (ls : List Bytes)
    → is_empty ls ≡ false
    → joined_lines (onto_first c ls) ≡ c ∷ joined_lines ls
unfolding joined_lines
joined-onto_first c [] h = cc
joined-onto_first c (l ∷ []) h = refl
joined-onto_first c (l ∷ m ∷ ls) h = refl

joined-empty_line :
    (ls : List Bytes) → is_empty ls ≡ false → joined_lines ([] ∷ ls) ≡ 13 ∷ 10 ∷ joined_lines ls
unfolding joined_lines
joined-empty_line [] h = cc
joined-empty_line (l ∷ ls) h = refl

joined-lines_of : (s : Bytes) → joined_lines (lines_of (without_returns s)) ≡ with_crlf s
unfolding joined_lines without_returns with_crlf
joined-lines_of [] = refl
joined-lines_of (c ∷ s) =
    let ih = joined-lines_of s in
    let ls = lines_of (without_returns s) in
    let n = lines_of_nonempty (without_returns s) in
    elim (Bool-cases (c == 13)) [
      | inl e ↦ rw e ih
      | inr e ↦ elim (Bool-cases (c == 10)) [
        | inl d ↦ rw (e, d) (joined-empty_line ls n ∙ ap (λ t. 13 ∷ 10 ∷ t) ih)
        | inr d ↦ rw (e, d) (joined-onto_first c ls n ∙ ap (c ∷◌) ih)
      ]
    ]

without_returns-append :
    (s t : Bytes) → without_returns (s ++ t) ≡ without_returns s ++ without_returns t
unfolding without_returns
without_returns-append [] t = refl
without_returns-append (c ∷ s) t = ground (arith, without_returns-append s t)

without_returns_clean : (l : Bytes) → All IsInner l → without_returns l ≡ l
unfolding without_returns
without_returns_clean [] h = refl
without_returns_clean (c ∷ l) ((_, e), h) = rw e (ap (c ∷◌) (without_returns_clean l h))

without_returns-joined :
    (l : Bytes) (ls : List Bytes)
    → IsClean (l ∷ ls)
    → without_returns (joined_lines (l ∷ ls)) ≡ l ++ tail_text ls
unfolding joined_lines without_returns
without_returns-joined l [] (h, _) = without_returns_clean l h ∙ sym (append-nil l)
without_returns-joined l (m ∷ ls) (h, hs) =
    without_returns-append l (13 ∷ 10 ∷ joined_lines (m ∷ ls))
    ∙ ap (◌++ without_returns (13 ∷ 10 ∷ joined_lines (m ∷ ls))) (without_returns_clean l h)
    ∙ ap (λ t. l ++ (10 ∷ t)) (without_returns-joined m ls hs)

lines_of-tail_text :
    (l : Bytes) (ls : List Bytes) → IsClean (l ∷ ls) → lines_of (l ++ tail_text ls) ≡ l ∷ ls
lines_of-tail_text [] [] h = refl
lines_of-tail_text [] (m ∷ ls) (_, hs) = ap ([] ∷◌) (lines_of-tail_text m ls hs)
lines_of-tail_text (c ∷ l) ls (((e, _), h), hs) =
    rw e (ap (onto_first c) (lines_of-tail_text l ls (h, hs)))

-- Setting a text and getting it back gives the text with every `\r` left out and every `\n`
-- written as `\r\n`, whatever was in the editor.
pub get_text-set_text : (s : Bytes) (e : TextEditor) → get_text (set_text s e) ≡ with_crlf s
unfolding set_text
get_text-set_text s e = ap joined_lines (split_lines_lem (without_returns s)) ∙ joined-lines_of s

-- Setting the text that an editor gives, where its lines hold no `\r` and no `\n` and there is one
-- at least, leaves the same lines in any editor.
pub set_text-get_text :
    (e e' : TextEditor)
    → IsClean e.lines
    → is_empty e.lines ≡ false
    → (set_text (get_text e) e').lines ≡ e.lines
unfolding set_text
set_text-get_text e e' clean some_line = of_lines e.lines clean some_line
  where
    of_lines :
        (ls : List Bytes)
        → IsClean ls
        → is_empty ls ≡ false
        → split_lines (without_returns (joined_lines ls)) ≡ ls
    of_lines [] h n = cc
    of_lines (l ∷ ls) h n =
        split_lines_lem (without_returns (joined_lines (l ∷ ls)))
        ∙ ap lines_of (without_returns-joined l ls h)
        ∙ lines_of-tail_text l ls h

onto_first-IsClean : (c : ℕ) (ls : List Bytes) → IsInner c → IsClean ls → IsClean (onto_first c ls)
onto_first-IsClean c [] h k = ((h, tt), tt)
onto_first-IsClean c (l ∷ ls) h (k, ks) = ((h, k), ks)

-- what the lines of a text without `\r` are
pub lines_of-IsClean : (s : Bytes) → All (λ c. (c == 13) ≡ false) s → IsClean (lines_of s)
lines_of-IsClean [] h = (tt, tt)
lines_of-IsClean (c ∷ s) (e, h) = elim (Bool-cases (c == 10)) [
  | inl d ↦ rw d (tt, lines_of-IsClean s h)
  | inr d ↦ rw d (onto_first-IsClean c (lines_of s) (d, e) (lines_of-IsClean s h))
]

pub All-without_returns : (s : Bytes) → All (λ c. (c == 13) ≡ false) (without_returns s)
unfolding without_returns
All-without_returns [] = tt
All-without_returns (c ∷ s) = elim (Bool-cases (c == 13)) [
  | inl e ↦ rw e (All-without_returns s)
  | inr e ↦ rw e (e, All-without_returns s)
]
