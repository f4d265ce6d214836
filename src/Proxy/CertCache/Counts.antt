-- ===== src/Proxy/CertCache/Counts.antt =====
-- How often a host occurs in the two containers of the cache.
use burp_tui.Prelude.{
  ℕ, ◌+◌, ◌≤◌, ◌≡◌, refl, sym, ap, ◌∙◌, Bytes, true, false, none, some, List, [], ◌∷◌, arith,
  bytes_eq, bytes_eq→eq, bytes_eq_refl, length, remove_if, if◌then◌else◌, Bool-cases, inl, inr,
}
use burp_tui.Proxy.CertCache.{CacheItem, erase_name, back, pop_back, find_item, erase_item}

-- 1 if the two hosts are the same
abbrev pub same : Bytes → Bytes → ℕ
same x host = if bytes_eq x host then 1 else 0

abbrev pub count : Bytes → List Bytes → ℕ
count host [] = 0
count host (x ∷ xs) = same x host + count host xs

pub same_refl : (x : Bytes) → same x x ≡ 1
same_refl x = rw (bytes_eq_refl x)

pub eq_same : (x y k : Bytes) → bytes_eq x y ≡ true → bytes_eq x k ≡ bytes_eq y k
eq_same x y k h = ap (λ z. bytes_eq z k) (bytes_eq→eq x y h)

pub other_host : (x y k : Bytes) → bytes_eq x y ≡ false → bytes_eq y k ≡ true → bytes_eq x k ≡ false
other_host x y k h g = sym (ap (bytes_eq x) (bytes_eq→eq y k g)) ∙ h

pub count-promote :
    (k host : Bytes) (xs : List Bytes)
    → 1 ≤ count host xs
    → count k (host ∷ erase_name host xs) ≡ count k xs
unfolding erase_name
count-promote k host [] h = absurd (omega arith)
count-promote k host (x ∷ xs) h = elim (Bool-cases (bytes_eq x host)) [
  | inl e ↦ rw (e, bytes_eq→eq x host e)
  | inr e ↦
      let p : 1 ≤ count host xs = ground arith in
      let ih = count-promote k host xs p in rw e (omega arith)
]

pub length-erase_name :
    (host : Bytes) (xs : List Bytes)
    → 1 ≤ count host xs
    → length (erase_name host xs) + 1 ≡ length xs
unfolding erase_name
length-erase_name host [] h = absurd (omega arith)
length-erase_name host (x ∷ xs) h = ground (arith, length-erase_name host xs)

pub count-pop_back :
    (k o : Bytes) (xs : List Bytes)
    → back xs ≡ some o
    → (count k (pop_back xs) + same o k ≡ count k xs) × (length (pop_back xs) + 1 ≡ length xs)
unfolding back pop_back
count-pop_back k o [] h = cc
count-pop_back k o (x ∷ []) h =
    let e : x ≡ o = cc in
    let p : same x k ≡ same o k = ap (λ z. same z k) e in (omega arith, omega arith)
count-pop_back k o (x ∷ y ∷ ys) h =
    let (p, q) = count-pop_back k o (y ∷ ys) h in (omega arith, omega arith)

pub back-cons : (x : Bytes) (xs : List Bytes) → (o : Bytes) × (back (x ∷ xs) ≡ some o)
unfolding back
back-cons x [] = (x, refl)
back-cons x (y ∷ ys) = back-cons y ys

module _ {C : Type 0} where
  -- the hosts of the map
  abbrev pub names : List (Bytes × CacheItem C) → List Bytes
  names [] = []
  names (e ∷ es) = e.0 ∷ names es

  pub count-erase_item :
      (k o : Bytes) (es : List (Bytes × CacheItem C))
      → count k (names (erase_item o es)) ≡ (if bytes_eq o k then 0 else count k (names es))
  unfolding remove_if
  count-erase_item k o [] = ground arith
  count-erase_item k o (e ∷ es) =
      let ih = count-erase_item k o es in
      elim (Bool-cases (bytes_eq e.0 o)) [
        | inl h ↦ let p = eq_same e.0 o k h in ground arith
        | inr h ↦ elim (Bool-cases (bytes_eq o k)) [
          | inl g ↦ let p = other_host e.0 o k h g in ground arith
          | inr g ↦ ground arith
        ]
      ]

  pub length-erase_item :
      (o : Bytes) (es : List (Bytes × CacheItem C))
      → length (erase_item o es) + count o (names es) ≡ length es
  unfolding remove_if
  length-erase_item o [] = refl
  length-erase_item o (e ∷ es) = ground (arith, length-erase_item o es)

  pub found_count :
      (host : Bytes) (es : List (Bytes × CacheItem C)) (item : CacheItem C)
      → find_item host es ≡ some item
      → 1 ≤ count host (names es)
  unfolding find_item
  found_count host [] item h = cc
  found_count host (e ∷ es) item h = ground (arith, found_count host es item)

  pub missing_count :
      (host : Bytes) (es : List (Bytes × CacheItem C))
      → find_item host es ≡ none
      → count host (names es) ≡ 0
  unfolding find_item
  missing_count host [] h = refl
  missing_count host (e ∷ es) h = ground (arith, missing_count host es)
