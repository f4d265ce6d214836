-- ===== src/Tui/Repeater/Target.antt =====
-- What `executeRequest` makes of the target that the user typed.
use mathlib.Core.Option
use burp_tui.Prelude.{
  ℕ, suc, ◌+◌, ◌≡◌, refl, sym, ap, ◌∙◌, Bytes, codes, Bool, true, false, Option, none, some, [],
  ◌∷◌, ◌++◌, ◌==◌, ◌&&◌, ◌||◌, arith, All, All-map, All-append, ==_refl, is_some, append_assoc,
  contains, find, starts_with, is_empty, length, take, drop, if◌then◌else◌,
}
use burp_tui.Http.Raw.{skip_blanks}
use burp_tui.Tui.Repeater.{
  drop_blanks_back, split_scheme, cut_path, rfind, split_port, sanitize_target,
}

-- a byte of a host name or of a port
abbrev pub IsPlain : ℕ → Type 0
IsPlain c =
    ((c == 32) ≡ false)
    × ((c == 9) ≡ false)
    × ((c == b'/') ≡ false)
    × ((c == b':') ≡ false)
    × ((c == b']') ≡ false)

abbrev pub scheme : Bool → Bytes
scheme https = if https then codes "https://" else codes "http://"

-- blanks at the end, after a byte that is none
drop_blanks_back-append :
    (s : Bytes) (c : ℕ) (t : Bytes)
    → (c == 32 || c == 9) ≡ false
    → drop_blanks_back (s ++ c ∷ t) ≡ s ++ c ∷ drop_blanks_back t
unfolding drop_blanks_back
drop_blanks_back-append [] c t h = rw h (if_false (is_empty (drop_blanks_back t)))
  where
    if_false :
        (b : Bool) → (if b && false then [] else c ∷ drop_blanks_back t) ≡ c ∷ drop_blanks_back t
    if_false true = refl
    if_false false = refl
drop_blanks_back-append (x ∷ s) c t h = rw (drop_blanks_back-append s c t h) (keep s)
  where
    keep :
        (s : Bytes)
        → (if is_empty (s ++ c ∷ drop_blanks_back t) && (x == 32 || x == 9)
            then []
            else x ∷ (s ++ c ∷ drop_blanks_back t))
          ≡ x ∷ (s ++ c ∷ drop_blanks_back t)
    keep [] = refl
    keep (y ∷ s) = refl

-- the first `c` of a text
find_byte :
    (s : Bytes) (c : ℕ) (t : Bytes)
    → All (λ x. (x == c) ≡ false) s
    → find (s ++ c ∷ t) (c ∷ []) ≡ some (length s)
unfolding find starts_with
find_byte [] c t h = let e : (c == c) ≡ true = ==_refl c in rw e refl
find_byte (x ∷ s) c t (e, h) = rw (e, find_byte s c t h) refl

no_byte : (s : Bytes) (c : ℕ) → All (λ x. (x == c) ≡ false) s → contains s (c ∷ []) ≡ false
unfolding find starts_with
no_byte [] c h = refl
no_byte (x ∷ s) c (e, h) = rw e (is_some-map (find s (c ∷ [])) (no_byte s c h))
  where
    is_some-map : (o : Option ℕ) → is_some o ≡ false → is_some (Option.map suc o) ≡ false
    is_some-map none h = refl
    is_some-map (some i) h = h

rfind-none : (s : Bytes) (c : ℕ) → All (λ x. (x == c) ≡ false) s → rfind s c ≡ none
unfolding rfind
rfind-none [] c h = refl
rfind-none (x ∷ s) c (e, h) = rw (rfind-none s c h, e) refl

rfind-append :
    (s : Bytes) (c : ℕ) (t : Bytes)
    → All (λ x. (x == c) ≡ false) t
    → rfind (s ++ c ∷ t) c ≡ some (length s)
unfolding rfind
rfind-append [] c t h = rw (rfind-none t c h, ==_refl c) refl
rfind-append (x ∷ s) c t h = rw (rfind-append s c t h) (ap some (omega arith))

split_front :
    (s : Bytes) (c : ℕ) (t : Bytes)
    → (take (length s) (s ++ c ∷ t) ≡ s) × (drop (length s + 1) (s ++ c ∷ t) ≡ t)
split_front s c t = (taken s, rw next (dropped s))
  where
    next : length s + 1 ≡ suc (length s)
    next = omega arith

    taken : (s : Bytes) → take (length s) (s ++ c ∷ t) ≡ s
    taken [] = refl
    taken (x ∷ s) = ap (x ∷◌) (taken s)

    dropped : (s : Bytes) → drop (suc (length s)) (s ++ c ∷ t) ≡ t
    dropped [] = refl
    dropped (x ∷ s) = dropped s

split_scheme-append : (s b : Bool) (x : Bytes) → split_scheme (scheme s ++ x) b ≡ (x, s)
unfolding split_scheme starts_with
split_scheme-append true b x = refl
split_scheme-append false b x = refl

skip_blanks-scheme : (s : Bool) (x : Bytes) → skip_blanks (scheme s ++ x) ≡ scheme s ++ x
unfolding skip_blanks
skip_blanks-scheme true x = refl
skip_blanks-scheme false x = refl

cut_path-append :
    (s path : Bytes) → All (λ x. (x == b'/') ≡ false) s → cut_path (s ++ b'/' ∷ path) ≡ s
cut_path-append s path h = rw (cut_path, find_byte s b'/' path h) ((split_front s b'/' path).0)

split_port-append :
    (h p port : Bytes) → All IsPlain h → All IsPlain p → split_port (h ++ b':' ∷ p) port ≡ (h, p)
unfolding split_port
split_port-append h p port hh hp =
    let colon = rfind-append h b':' p (All-map (λ x v. v.3) p hp) in
    let bracket = no_byte (h ++ b':' ∷ p) b']' (
      All-append (λ x. (x == b']') ≡ false) h (b':' ∷ p) (All-map (λ x v. v.4) h hh)
        (refl, All-map (λ x v. v.4) p hp)) in
    rw (split_port, colon, bracket) (ap2 (split_front h b':' p))
  where
    ap2 : {a a' b b' : Bytes} → (a ≡ a') × (b ≡ b') → Path (Bytes × Bytes) (a, b) (a', b')
    ap2 (u, v) = cc

-- A target typed as a URL, with a host and a port of bytes that are no blank, `/`, `:` or `]`, and
-- a port that is not empty, is taken apart as meant, whatever the path is and whatever port and
-- scheme were set before.
pub sanitize_target-url :
    (https : Bool) (h p path port : Bytes) (was_https : Bool)
    → All IsPlain h
    → All IsPlain p
    → is_empty p ≡ false
    → sanitize_target (scheme https ++ (h ++ b':' ∷ (p ++ b'/' ∷ path))) port was_https
      ≡ (h, p, https)
unfolding sanitize_target
sanitize_target-url https h p path port was hh hp some_port =
    let typed : scheme https ++ (h ++ b':' ∷ (p ++ b'/' ∷ path))
        ≡ (scheme https ++ (h ++ b':' ∷ p)) ++ b'/' ∷ path =
      ap (scheme https ++◌) (sym (append_assoc h (b':' ∷ p) (b'/' ∷ path)))
      ∙ sym (append_assoc (scheme https) (h ++ b':' ∷ p) (b'/' ∷ path)) in
    let trimmed : drop_blanks_back (skip_blanks (scheme https ++ (h ++ b':' ∷ (p ++ b'/' ∷ path))))
        ≡ scheme https ++ ((h ++ b':' ∷ p) ++ b'/' ∷ drop_blanks_back path) =
      ap drop_blanks_back (skip_blanks-scheme https _ ∙ typed)
      ∙ drop_blanks_back-append (scheme https ++ (h ++ b':' ∷ p)) b'/' path refl
      ∙ append_assoc (scheme https) (h ++ b':' ∷ p) (b'/' ∷ drop_blanks_back path) in
    let named : split_scheme
          (drop_blanks_back (skip_blanks (scheme https ++ (h ++ b':' ∷ (p ++ b'/' ∷ path))))) was
        ≡ ((h ++ b':' ∷ p) ++ b'/' ∷ drop_blanks_back path, https) =
      ap (λ x. split_scheme x was) trimmed ∙ split_scheme-append https was _ in
    let cut = cut_path-append (h ++ b':' ∷ p) (drop_blanks_back path) (
      All-append (λ x. (x == b'/') ≡ false) h (b':' ∷ p) (All-map (λ x v. v.2) h hh)
        (refl, All-map (λ x v. v.2) p hp)) in
    rw (named, cut, split_port-append h p port hh hp, some_port) refl
