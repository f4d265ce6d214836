-- ===== src/Tui/Repeater/Cleaned.antt =====
-- The request that `executeRequest` sends, against the normalised text of the request.
use mathlib.Core.Option
use burp_tui.Prelude.{
  ℕ, suc, ◌+◌, ◌≡◌, refl, sym, ap, ◌∙◌, Bytes, codes, Bool, true, false, Option, none, some, [],
  ◌∷◌, ◌++◌, ◌==◌, ◌&&◌, arith, contains, find, starts_with, is_some, length, take, drop,
  if◌then◌else◌, Bool-cases, inl, inr, append_assoc,
}
use burp_tui.Http.Message.{crlf}
use burp_tui.Http.Raw.{normalized, sanitized, with_crlf}
use burp_tui.Http.Raw.Sent.{contains-with_blank_line}
use burp_tui.Tui.Repeater.{lacks, insert_line, with_host, clean_request}

-- The first line end of the text is the one after `l`.
abbrev pub IsFirstLine : Bytes → Bytes → Type 0
IsFirstLine l rest = find (l ++ (crlf ++ rest)) crlf ≡ some (length l)

some-suc : (o : Option ℕ) (n : ℕ) → Option.map suc o ≡ some (suc n) → o ≡ some n
some-suc none n h = cc
some-suc (some i) n h = cc

not_here :
    (b : Bool) (o : Option ℕ) (n : ℕ)
    → (if b then some 0 else Option.map suc o) ≡ some (suc n)
    → (b ≡ false) × (o ≡ some n)
not_here true o n h = cc
not_here false o n h = (refl, some-suc o n h)

-- What follows the first line end does not matter to where it is.
IsFirstLine-any : (l rest rest' : Bytes) → IsFirstLine l rest → IsFirstLine l rest'
unfolding find starts_with
IsFirstLine-any [] rest rest' h = refl
IsFirstLine-any (x ∷ []) rest rest' h =
    let (b, _) = not_here _ (find (crlf ++ rest) crlf) 0 h in rw b refl
IsFirstLine-any (x ∷ y ∷ l) rest rest' h =
    let (b, o) = not_here (x == 13 && (y == 10 && true)) _ (suc (length l)) h in
    rw b (ap (Option.map suc) (IsFirstLine-any (y ∷ l) rest rest' o))

starts_with-split : (s p : Bytes) → starts_with s p ≡ true → s ≡ p ++ drop (length p) s
unfolding starts_with
starts_with-split s [] h = refl
starts_with-split [] (y ∷ p) h = cc
starts_with-split (x ∷ s) (y ∷ p) h = ground (arith, starts_with-split s p)

starts_with-front : (s p q : Bytes) → starts_with s (p ++ q) ≡ true → starts_with s p ≡ true
unfolding starts_with
starts_with-front s [] q h = refl
starts_with-front [] (y ∷ p) q h = h
starts_with-front (x ∷ s) (y ∷ p) q h = ground (arith, starts_with-front s p q)

is_some-later : (o : Option ℕ) → is_some (Option.map suc o) ≡ true → is_some o ≡ true
is_some-later none h = h
is_some-later (some i) h = refl

-- Where there is a line end, the text is cut at the first one.
find-split :
    (s : Bytes)
    → contains s crlf ≡ true
    → (l : Bytes) × (rest : Bytes) × (s ≡ l ++ (crlf ++ rest)) × IsFirstLine l rest
unfolding find
find-split [] h = cc
find-split (x ∷ s) h = elim (Bool-cases (starts_with (x ∷ s) crlf)) [
  | inl p ↦ ([], drop 2 (x ∷ s), starts_with-split (x ∷ s) crlf p, refl)
  | inr p ↦
      let later : is_some (Option.map suc (find s crlf)) ≡ true =
        ap (λ b. is_some (if b then some 0 else Option.map suc (find s crlf))) (sym p) ∙ h in
      let (l, rest, e, first) = find-split s (is_some-later (find s crlf) later) in
      let other : starts_with (x ∷ (l ++ (crlf ++ rest))) crlf ≡ false =
        ap (λ t. starts_with (x ∷ t) crlf) (sym e) ∙ p in
      (x ∷ l, rest, ap (x ∷◌) e, rw (other, first) refl)
]

-- a text that holds `p ++ q` holds `p`
contains-front : (s p q : Bytes) → contains s (p ++ q) ≡ true → contains s p ≡ true
unfolding find
contains-front [] p q h = elim (Bool-cases (starts_with [] (p ++ q))) [
  | inl e ↦ rw (starts_with-front [] p q e) refl
  | inr e ↦
      let none_found : Path Bool false true =
        ap (λ b. is_some {A = ℕ} (if b then some 0 else none)) (sym e) ∙ h in
      cc
]
contains-front (x ∷ s) p q h = elim (Bool-cases (starts_with (x ∷ s) (p ++ q))) [
  | inl e ↦ rw (starts_with-front (x ∷ s) p q e) refl
  | inr e ↦
      let later : is_some (Option.map suc (find s (p ++ q))) ≡ true =
        ap (λ b. is_some (if b then some 0 else Option.map suc (find s (p ++ q)))) (sym e) ∙ h in
      here_or_later (starts_with (x ∷ s) p) (find s p)
        (contains-front s p q (is_some-later (find s (p ++ q)) later))
]
  where
    here_or_later :
        (b : Bool) (o : Option ℕ)
        → is_some o ≡ true
        → is_some (if b then some 0 else Option.map suc o) ≡ true
    here_or_later true o h = refl
    here_or_later false none h = h
    here_or_later false (some i) h = refl

cut_after :
    (l rest : Bytes)
    → (take (length l + 2) (l ++ (crlf ++ rest)) ≡ l ++ crlf)
      × (drop (length l + 2) (l ++ (crlf ++ rest)) ≡ rest)
cut_after l rest = rw next (taken l, dropped l)
  where
    next : length l + 2 ≡ suc (suc (length l))
    next = omega arith

    taken : (l : Bytes) → take (suc (suc (length l))) (l ++ (crlf ++ rest)) ≡ l ++ crlf
    taken [] = refl
    taken (x ∷ l) = ap (x ∷◌) (taken l)

    dropped : (l : Bytes) → drop (suc (suc (length l))) (l ++ (crlf ++ rest)) ≡ rest
    dropped [] = refl
    dropped (x ∷ l) = dropped l

insert_line_lem :
    (line l rest : Bytes)
    → IsFirstLine l rest
    → insert_line line (l ++ (crlf ++ rest)) ≡ l ++ (crlf ++ (line ++ rest))
insert_line_lem line l rest first =
    let (front, back) = cut_after l rest in
    rw (insert_line, first, front, back) (append_assoc l crlf (line ++ rest))

-- what is added
abbrev pub added : Bool → Bytes → Bytes
added b line = if b then line else []

insert_added :
    (b : Bool) (line l rest : Bytes)
    → IsFirstLine l rest
    → (if b then insert_line line (l ++ (crlf ++ rest)) else l ++ (crlf ++ rest))
      ≡ l ++ (crlf ++ (added b line ++ rest))
insert_added true line l rest first = insert_line_lem line l rest first
insert_added false line l rest first = refl

-- The request that is sent is the normalised text, whose first line ends at its first `\r\n`, with
-- at most two lines more, right after the first one: `Connection: close`, where the text then
-- names no connection, and before it is done `Host:` with the target, where the text names no host.
pub clean_request_lem :
    (host raw : Bytes)
    → (l : Bytes) × (rest : Bytes) × (normalized raw ≡ l ++ (crlf ++ rest))
      × IsFirstLine l rest
      × (clean_request host raw
          ≡ l
            ++ (crlf
                ++ (added
                      (lacks
                        (with_host host (normalized raw))
                        (codes "Connection:")
                        (codes "connection:"))
                      (codes "Connection: close" ++ crlf)
                    ++ (added
                          (lacks (normalized raw) (codes "Host:") (codes "host:"))
                          (codes "Host: " ++ (host ++ crlf))
                        ++ rest))))
unfolding clean_request
clean_request_lem host raw =
    let line_end =
      contains-front (normalized raw) crlf crlf
        (contains-with_blank_line (with_crlf (sanitized raw))) in
    let (l, rest, e, first) = find-split (normalized raw) line_end in
    let no_host = lacks (normalized raw) (codes "Host:") (codes "host:") in
    let host_line = codes "Host: " ++ (host ++ crlf) in
    let with_host_lem : with_host host (normalized raw)
        ≡ l ++ (crlf ++ (added no_host host_line ++ rest)) =
      ap (λ t. if no_host then insert_line host_line t else t) e
      ∙ insert_added no_host host_line l rest first in
    let no_connection =
      lacks (with_host host (normalized raw)) (codes "Connection:") (codes "connection:") in
    let close_line = codes "Connection: close" ++ crlf in
    let with_close_lem : clean_request host raw
        ≡ l ++ (crlf ++ (added no_connection close_line ++ (added no_host host_line ++ rest))) =
      ap (λ t. if no_connection then insert_line close_line t else t) with_host_lem
      ∙ insert_added no_connection close_line l _
          (IsFirstLine-any l rest (added no_host host_line ++ rest) first) in
    (l, rest, e, first, with_close_lem)
