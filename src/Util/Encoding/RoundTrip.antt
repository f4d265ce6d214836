-- ===== src/Util/Encoding/RoundTrip.antt =====
-- Decoding what was encoded.
use burp_tui.Prelude.{
  ℕ, ◌+◌, ◌*◌, ◌/◌, ◌%◌, ◌<◌, ◌≡◌, refl, ap, ◌∙◌, Bytes, true, false, some, [], ◌∷◌, arith, All,
  ◌==◌, skip_spaces, is_space, Bool-cases, inl, inr,
}
use burp_tui.Util.Encoding.{
  lower_digit, upper_digit, hex_digit, hex_value, signed_value, strtol_char, hex_encode, hex_decode,
  has_byte, unreserved, url_encode, url_decode, plain,
}

hex_digit-lower : (d : ℕ) → d < 16 → hex_digit (lower_digit d) ≡ some d
hex_digit-lower d h = ground arith

hex_digit-upper : (d : ℕ) → d < 16 → hex_digit (upper_digit d) ≡ some d
hex_digit-upper d h = ground arith

-- A digit is neither a space nor a sign.
digit_lem :
    (a i : ℕ)
    → hex_digit a ≡ some i
    → (is_space a ≡ false) × ((a == b'-') ≡ false) × ((a == b'+') ≡ false)
digit_lem a i h = (ground arith, ground arith, ground arith)

hex_value_two :
    (a b i j : ℕ)
    → hex_digit a ≡ some i
    → hex_digit b ≡ some j
    → hex_value 0 (a ∷ b ∷ []) ≡ i * 16 + j
unfolding hex_value
hex_value_two a b i j h k = rw (hex_value, h, k) (omega arith)

strtol_digits :
    (a b i j : ℕ)
    → hex_digit a ≡ some i
    → hex_digit b ≡ some j
    → strtol_char (a ∷ b ∷ []) ≡ i * 16 + j
unfolding strtol_char signed_value skip_spaces
strtol_digits a b i j h k =
    let (space, minus, plus) = digit_lem a i h in
    let kept : skip_spaces (a ∷ b ∷ []) ≡ a ∷ b ∷ [] = rw space refl in
    let read : signed_value (a ∷ b ∷ []) ≡ hex_value 0 (a ∷ b ∷ []) = rw (minus, plus) refl in
    ap signed_value kept ∙ read ∙ hex_value_two a b i j h k

strtol_byte :
    (a b c : ℕ)
    → hex_digit a ≡ some (c / 16)
    → hex_digit b ≡ some (c % 16)
    → strtol_char (a ∷ b ∷ []) ≡ c
strtol_byte a b c h k = strtol_digits a b (c / 16) (c % 16) h k ∙ omega arith

-- Decoding the hexadecimal text of a byte string gives the byte string.
pub hex_decode-hex_encode : (s : Bytes) → All (λ c. c < 256) s → hex_decode (hex_encode s) ≡ s
unfolding hex_decode hex_encode
hex_decode-hex_encode [] h = refl
hex_decode-hex_encode (c ∷ cs) (h, hs) =
    let v =
      strtol_byte (lower_digit (c / 16)) (lower_digit (c % 16)) c
        (hex_digit-lower (c / 16) (omega arith)) (hex_digit-lower (c % 16) (omega arith)) in
    rw v (ap (c ∷◌) (hex_decode-hex_encode cs hs))

url_decode-plain :
    (c : ℕ) (s : Bytes) → (c == b'%') ≡ false → url_decode (c ∷ s) ≡ plain c ∷ url_decode s
unfolding url_decode
url_decode-plain c [] h = refl
url_decode-plain c (a ∷ []) h = refl
url_decode-plain c (a ∷ b ∷ s) h = rw h refl

-- no unreserved byte is one that decoding changes
unreserved_lem :
    (c d : ℕ) → has_byte c unreserved ≡ true → has_byte d unreserved ≡ false → (c == d) ≡ false
unreserved_lem c d h k = elim (Bool-cases (c == d)) [
  | inl e ↦
      let p : c ≡ d = ground arith in
      let q : has_byte c unreserved ≡ has_byte d unreserved = ap (λ x. has_byte x unreserved) p in
      absurd (cc)
  | inr e ↦ e
]

-- Decoding the URL encoding of a byte string gives the byte string.
pub url_decode-url_encode : (s : Bytes) → All (λ c. c < 256) s → url_decode (url_encode s) ≡ s
unfolding url_decode url_encode has_byte
url_decode-url_encode [] h = refl
url_decode-url_encode (c ∷ cs) (h, hs) = elim (Bool-cases (has_byte c unreserved)) [
  | inl e ↦
      let n = unreserved_lem c b'%' e refl in
      let m = unreserved_lem c b'+' e refl in
      rw (e, url_decode-plain c (url_encode cs) n, m) (ap (c ∷◌) (url_decode-url_encode cs hs))
  | inr e ↦
      let v =
        strtol_byte (upper_digit (c / 16)) (upper_digit (c % 16)) c
          (hex_digit-upper (c / 16) (omega arith)) (hex_digit-upper (c % 16) (omega arith)) in
      rw (e, v) (ap (c ∷◌) (url_decode-url_encode cs hs))
]
