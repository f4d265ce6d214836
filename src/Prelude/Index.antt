-- ===== src/Prelude/Index.antt =====
-- Vectors: reading, writing, inserting and erasing at an index. Out of range, a read gives the
-- default and the others change nothing; an insertion at the end appends.
use Prim.Native.Nat.{ℕ, zero, suc, ◌+◌, ◌≤◌, ◌<◌}
use mathlib.Core.Path.{◌≡◌, refl, ap}
use mathlib.Core.List.{List, [], ◌∷◌}
use native.Mathlib.Omega.{arith}
use burp_tui.Prelude.Lists.{length, take, drop, All}

module _ {ℓ} {A : Type ℓ} where
  abbrev pub get_or : List A → ℕ → A → A
  get_or [] i d = d
  get_or (x ∷ xs) zero d = x
  get_or (x ∷ xs) (suc i) d = get_or xs i d

  abbrev pub set : List A → ℕ → A → List A
  set [] i v = []
  set (x ∷ xs) zero v = v ∷ xs
  set (x ∷ xs) (suc i) v = x ∷ set xs i v

  abbrev pub insert_at : List A → ℕ → A → List A
  insert_at xs zero v = v ∷ xs
  insert_at [] (suc i) v = []
  insert_at (x ∷ xs) (suc i) v = x ∷ insert_at xs i v

  abbrev pub erase_idx : List A → ℕ → List A
  erase_idx [] i = []
  erase_idx (x ∷ xs) zero = xs
  erase_idx (x ∷ xs) (suc i) = x ∷ erase_idx xs i

  pub length-set : (xs : List A) (i : ℕ) (v : A) → length (set xs i v) ≡ length xs
  length-set [] i v = refl
  length-set (x ∷ xs) zero v = refl
  length-set (x ∷ xs) (suc i) v = ap suc (length-set xs i v)

  pub length-insert_at :
      (xs : List A) (i : ℕ) (v : A) → i ≤ length xs → length (insert_at xs i v) ≡ length xs + 1
  length-insert_at xs zero v h = omega arith
  length-insert_at [] (suc i) v h = absurd (omega arith)
  length-insert_at (x ∷ xs) (suc i) v h = omega (arith, length-insert_at xs i v (omega arith))

  pub length-erase_idx :
      (xs : List A) (i : ℕ) → i < length xs → length (erase_idx xs i) + 1 ≡ length xs
  length-erase_idx [] i h = absurd (omega arith)
  length-erase_idx (x ∷ xs) zero h = omega arith
  length-erase_idx (x ∷ xs) (suc i) h = omega (arith, length-erase_idx xs i (omega arith))

  pub get_or-set : (xs : List A) (i : ℕ) (v d : A) → i < length xs → get_or (set xs i v) i d ≡ v
  get_or-set [] i v d h = absurd (omega arith)
  get_or-set (x ∷ xs) zero v d h = refl
  get_or-set (x ∷ xs) (suc i) v d h = get_or-set xs i v d (omega arith)

  pub get_or-insert_at :
      (xs : List A) (i : ℕ) (v d : A) → i ≤ length xs → get_or (insert_at xs i v) i d ≡ v
  get_or-insert_at xs zero v d h = refl
  get_or-insert_at [] (suc i) v d h = absurd (omega arith)
  get_or-insert_at (x ∷ xs) (suc i) v d h = get_or-insert_at xs i v d (omega arith)

  pub get_or-erase_idx_before :
      (xs : List A) (i : ℕ) (d : A) → get_or (erase_idx xs (suc i)) i d ≡ get_or xs i d
  get_or-erase_idx_before [] i d = refl
  get_or-erase_idx_before (x ∷ xs) zero d = refl
  get_or-erase_idx_before (x ∷ xs) (suc i) d = get_or-erase_idx_before xs i d

  pub drop-get_or :
      (xs : List A) (i : ℕ) (d : A) → i < length xs → drop i xs ≡ get_or xs i d ∷ drop (suc i) xs
  drop-get_or [] i d h = absurd (omega arith)
  drop-get_or (x ∷ xs) zero d h = refl
  drop-get_or (x ∷ xs) (suc i) d h = drop-get_or xs i d (omega arith)

  module _ {κ} (P : A → Type κ) where
    pub All-get_or : (xs : List A) (i : ℕ) (d : A) → All P xs → P d → P (get_or xs i d)
    All-get_or [] i d h hd = hd
    All-get_or (x ∷ xs) zero d h hd = h.0
    All-get_or (x ∷ xs) (suc i) d h hd = All-get_or xs i d h.1 hd

    pub All-set : (xs : List A) (i : ℕ) (v : A) → All P xs → P v → All P (set xs i v)
    All-set [] i v h hv = h
    All-set (x ∷ xs) zero v h hv = (hv, h.1)
    All-set (x ∷ xs) (suc i) v h hv = (h.0, All-set xs i v h.1 hv)

    pub All-insert_at : (xs : List A) (i : ℕ) (v : A) → All P xs → P v → All P (insert_at xs i v)
    All-insert_at xs zero v h hv = (hv, h)
    All-insert_at [] (suc i) v h hv = h
    All-insert_at (x ∷ xs) (suc i) v h hv = (h.0, All-insert_at xs i v h.1 hv)

    pub All-erase_idx : (xs : List A) (i : ℕ) → All P xs → All P (erase_idx xs i)
    All-erase_idx [] i h = h
    All-erase_idx (x ∷ xs) zero h = h.1
    All-erase_idx (x ∷ xs) (suc i) h = (h.0, All-erase_idx xs i h.1)

    pub All-take : (n : ℕ) (xs : List A) → All P xs → All P (take n xs)
    All-take zero xs h = tt
    All-take (suc n) [] h = tt
    All-take (suc n) (x ∷ xs) h = (h.0, All-take n xs h.1)

    pub All-drop : (n : ℕ) (xs : List A) → All P xs → All P (drop n xs)
    All-drop zero xs h = h
    All-drop (suc n) [] h = h
    All-drop (suc n) (x ∷ xs) h = All-drop n xs h.1
