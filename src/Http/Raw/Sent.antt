-- ===== src/Http/Raw/Sent.antt =====
-- The bytes that an edited request is sent as.
use mathlib.Core.Option
use burp_tui.Prelude.{
  ℕ, suc, ◌-◌, ◌==◌, ◌&&◌, not, ◌≡◌, refl, sym, ap, ◌∙◌, Bytes, Bool, true, false, Option, none,
  some, List, [], ◌∷◌, ◌++◌, arith, append_assoc, contains, ends_with, starts_with, find, is_some,
  is_empty, bytes_eq, bytes_eq→eq, length, take, drop, take-append-drop, if◌then◌else◌, Bool-cases,
  inl, inr,
}
use burp_tui.Http.Message.{HttpRequest, crlf, serialize_request}
use burp_tui.Http.Raw.{
  sanitized, with_crlf, with_blank_line, normalized, lines, parse_lines, parse_raw_http_request,
}
use burp_tui.Http.Raw.Marks.{unmarked, sanitized-unmarked}

starts_with-append : (p t : Bytes) → starts_with (p ++ t) p ≡ true
unfolding starts_with
starts_with-append [] [] = refl
starts_with-append [] (y ∷ t) = refl
starts_with-append (x ∷ p) t = ground (arith, starts_with-append p t)

contains_start : (s p : Bytes) → starts_with s p ≡ true → contains s p ≡ true
unfolding find
contains_start [] p h = rw h refl
contains_start (x ∷ s) p h = rw h refl

later_match :
    (b : Bool) (o : Option ℕ)
    → is_some o ≡ true
    → is_some (if b then some 0 else Option.map suc o) ≡ true
later_match true o h = refl
later_match false none h = h
later_match false (some i) h = refl

contains-append : (s p t : Bytes) → contains (s ++ (p ++ t)) p ≡ true
unfolding find
contains-append [] p t = contains_start (p ++ t) p (starts_with-append p t)
contains-append (x ∷ s) p t =
    later_match (starts_with (x ∷ (s ++ (p ++ t))) p) (find (s ++ (p ++ t)) p)
      (contains-append s p t)

with_crlf-append : (s t : Bytes) → with_crlf (s ++ t) ≡ with_crlf s ++ with_crlf t
unfolding with_crlf
with_crlf-append [] t = refl
with_crlf-append (c ∷ s) t = ground (arith, with_crlf-append s t)

with_crlf_idem : (s : Bytes) → with_crlf (with_crlf s) ≡ with_crlf s
unfolding with_crlf
with_crlf_idem [] = refl
with_crlf_idem (c ∷ s) = ground (arith, with_crlf_idem s)

-- a text that ends in a line end, with what stands before it
ends_with-crlf : (s : Bytes) → ends_with s crlf ≡ true → s ≡ take (length s - 2) s ++ crlf
unfolding ends_with
ends_with-crlf s h =
    let e : bytes_eq (drop (length s - 2) s) crlf ≡ true = ground arith in
    sym (take-append-drop (length s - 2) s)
    ∙ ap (take (length s - 2) s ++◌) (bytes_eq→eq (drop (length s - 2) s) crlf e)

pub contains-with_blank_line : (s : Bytes) → contains (with_blank_line s) (crlf ++ crlf) ≡ true
unfolding with_blank_line
contains-with_blank_line s = elim (Bool-cases (contains s (crlf ++ crlf))) [
  | inl h ↦ rw (with_blank_line, h) h
  | inr h ↦ elim (Bool-cases (ends_with s crlf)) [
    | inl e ↦
        let before = take (length s - 2) s in
        let q : s ++ crlf ≡ before ++ ((crlf ++ crlf) ++ []) =
          ap (◌++ crlf) (ends_with-crlf s e) ∙ append_assoc before crlf crlf in
        let w : with_blank_line s ≡ s ++ crlf = rw (with_blank_line, h, e) refl in
        ap (λ x. contains x (crlf ++ crlf)) (w ∙ q) ∙ contains-append before (crlf ++ crlf) []
    | inr e ↦
        let w : with_blank_line s ≡ s ++ (crlf ++ crlf) = rw (with_blank_line, h, e) refl in
        ap (λ x. contains x (crlf ++ crlf)) w ∙ contains-append s (crlf ++ crlf) []
  ]
]

with_crlf-with_blank_line :
    (s : Bytes) → with_crlf s ≡ s → with_crlf (with_blank_line s) ≡ with_blank_line s
unfolding with_blank_line with_crlf
with_crlf-with_blank_line s h = elim (Bool-cases (contains s (crlf ++ crlf))) [
  | inl c ↦ rw (with_blank_line, c) h
  | inr c ↦ elim (Bool-cases (ends_with s crlf)) [
    | inl e ↦ rw (with_blank_line, c, e) (with_crlf-append s crlf ∙ ap (◌++ crlf) h)
    | inr e ↦
        rw (with_blank_line, c, e) (with_crlf-append s (crlf ++ crlf) ∙ ap (◌++ (crlf ++ crlf)) h)
  ]
]

with_blank_line_idem : (s : Bytes) → with_blank_line (with_blank_line s) ≡ with_blank_line s
unfolding with_blank_line
with_blank_line_idem s = rw (contains-with_blank_line s) refl

nonempty : (s : Bytes) → contains s (crlf ++ crlf) ≡ true → is_empty s ≡ false
unfolding find starts_with
nonempty [] h = cc
nonempty (x ∷ s) h = refl

raw_override-parse_lines :
    (str text : Bytes) (ls : List Bytes) → (parse_lines str text ls).raw_override ≡ text
unfolding parse_lines
raw_override-parse_lines str text [] = refl
raw_override-parse_lines str text (l ∷ ls) = refl

serialize-override :
    (r : HttpRequest) → is_empty r.raw_override ≡ false → serialize_request r ≡ r.raw_override
unfolding serialize_request
serialize-override r h = rw h refl

-- the text sent, as the code normalises it
pub normalized_sent :
    (raw : Bytes) → serialize_request (parse_raw_http_request raw) ≡ normalized raw
unfolding parse_raw_http_request
normalized_sent raw =
    let blank = contains-with_blank_line (with_crlf (sanitized raw)) in
    let kept = raw_override-parse_lines (sanitized raw) (normalized raw) (lines (normalized raw)) in
    serialize-override (parse_raw_http_request raw)
      (ap is_empty kept ∙ nonempty (normalized raw) blank)
    ∙ kept

-- Is every line feed after a carriage return, and every carriage return before a line feed?
-- `after_cr`: the text follows a carriage return.
unfoldable pub has_crlf_ends : Bool → Bytes → Bool
has_crlf_ends after_cr [] = not after_cr
has_crlf_ends after_cr (c ∷ cs) =
    if c == 10
    then after_cr && has_crlf_ends false cs
    else not after_cr && has_crlf_ends (c == 13) cs

has_crlf_ends-with_crlf : (s : Bytes) → has_crlf_ends false (with_crlf s) ≡ true
unfolding has_crlf_ends with_crlf
has_crlf_ends-with_crlf [] = refl
has_crlf_ends-with_crlf (c ∷ s) = ground (arith, has_crlf_ends-with_crlf s)

has_crlf_ends-append :
    (b : Bool) (s t : Bytes)
    → has_crlf_ends b s ≡ true
    → has_crlf_ends b (s ++ t) ≡ has_crlf_ends false t
unfolding has_crlf_ends
has_crlf_ends-append true [] t h = cc (h)
has_crlf_ends-append false [] t h = refl
has_crlf_ends-append b (c ∷ s) t h =
    ground (arith, has_crlf_ends-append false s t, has_crlf_ends-append (c == 13) s t)

has_crlf_ends-with_blank_line :
    (s : Bytes) → has_crlf_ends false s ≡ true → has_crlf_ends false (with_blank_line s) ≡ true
unfolding with_blank_line has_crlf_ends
has_crlf_ends-with_blank_line s h = elim (Bool-cases (contains s (crlf ++ crlf))) [
  | inl c ↦ rw c h
  | inr c ↦ elim (Bool-cases (ends_with s crlf)) [
    | inl e ↦ rw (c, e) (has_crlf_ends-append false s crlf h)
    | inr e ↦ rw (c, e) (has_crlf_ends-append false s (crlf ++ crlf) h)
  ]
]

unfoldable pub without_crs : Bytes → Bytes
without_crs [] = []
without_crs (c ∷ cs) = let rest = without_crs cs in if c == 13 then rest else c ∷ rest

without_crs-with_crlf : (s : Bytes) → without_crs (with_crlf s) ≡ without_crs s
unfolding without_crs with_crlf
without_crs-with_crlf [] = refl
without_crs-with_crlf (c ∷ s) = ground (arith, without_crs-with_crlf s)

-- What is sent for a text that the user edited is the text without the first ` (HTTPS)` and then
-- without the first ` (HTTP)` in it, with its line ends written as `\r\n` and, if it had none, a
-- blank line added at its end. So it has a blank line, and no line feed or carriage return but in a
-- `\r\n`; writing the line ends changes nothing but carriage returns; and writing the line ends and
-- the blank line once more would change nothing.
pub edited_text_sent :
    (raw : Bytes)
    → let sent = serialize_request (parse_raw_http_request raw) in
      let text = with_crlf (unmarked raw) in
      (sent ≡ with_blank_line text)
      × (contains sent (crlf ++ crlf) ≡ true)
      × (has_crlf_ends false sent ≡ true)
      × (without_crs text ≡ without_crs (unmarked raw))
      × (with_blank_line (with_crlf sent) ≡ sent)
edited_text_sent raw =
    let text = with_crlf (unmarked raw) in
    let e : serialize_request (parse_raw_http_request raw) ≡ with_blank_line text =
      normalized_sent raw ∙ ap (λ t. with_blank_line (with_crlf t)) (sanitized-unmarked raw) in
    (
      e,
      ap (λ t. contains t (crlf ++ crlf)) e ∙ contains-with_blank_line text,
      ap (has_crlf_ends false) e
          ∙ has_crlf_ends-with_blank_line text (has_crlf_ends-with_crlf (unmarked raw)),
      without_crs-with_crlf (unmarked raw),
      ap (λ t. with_blank_line (with_crlf t)) e
          ∙ (ap with_blank_line (with_crlf-with_blank_line text (with_crlf_idem (unmarked raw)))
              ∙ with_blank_line_idem text)
          ∙ sym e,
    )
