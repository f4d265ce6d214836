-- ===== src/Tui/Formatter/Sanitize.antt =====
-- What `SanitizeText` lets through to the terminal.
use burp_tui.Prelude.{
  ℕ, zero, suc, ◌≤◌, ◌≡◌, refl, Bytes, true, false, not, [], ◌∷◌, ◌==◌, ◌&&◌, ◌||◌, arith, All, leb,
  length, Bool-cases, inl, inr,
}
use burp_tui.Tui.Formatter.{sanitize_text, shown_byte}

-- no control character but `\n` and `\t`
abbrev pub IsShown : ℕ → Type 0
IsShown c = (c == 10 || c == 9 || (leb 32 c && not (c == 127))) ≡ true

shown_byte-IsShown : (c : ℕ) → IsShown (shown_byte c)
shown_byte-IsShown c = ground arith

shown_byte_idem : (c : ℕ) → shown_byte (shown_byte c) ≡ shown_byte c
shown_byte_idem c = ground arith

shown_byte-no_return : (c : ℕ) → (shown_byte c == 13) ≡ false
shown_byte-no_return c = ground arith

cons_eq : {x y : ℕ} {xs ys : Bytes} → x ≡ y → xs ≡ ys → x ∷ xs ≡ y ∷ ys
cons_eq p q = cc

-- For any text and any bound: what is shown holds no control character but line feeds and tabs, so
-- no `\r`, escape or delete, is at most as long as the bound, and is left as it is by sanitising it
-- again.
pub sanitize_text_lem :
    (s : Bytes) (n : ℕ)
    → All IsShown (sanitize_text s n)
      × (length (sanitize_text s n) ≤ n)
      × (sanitize_text (sanitize_text s n) n ≡ sanitize_text s n)
unfolding sanitize_text
sanitize_text_lem [] n = (tt, omega arith, refl)
sanitize_text_lem (c ∷ s) zero = (tt, omega arith, refl)
sanitize_text_lem (c ∷ s) (suc n) = elim (Bool-cases (c == 13)) [
  | inl p ↦ rw p (sanitize_text_lem s (suc n))
  | inr p ↦
      let (all, bound, idem) = sanitize_text_lem s n in
      rw p (
        (shown_byte-IsShown c, all),
        omega arith,
        rw (shown_byte-no_return c) (cons_eq (shown_byte_idem c) idem),
      )
]
