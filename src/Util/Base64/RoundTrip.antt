-- ===== src/Util/Base64/RoundTrip.antt =====
-- Decoding undoes encoding, three bytes at a time.
use burp_tui.Prelude.{
  ℕ, zero, suc, ◌+◌, ◌-◌, ◌*◌, ◌/◌, ◌%◌, ◌^◌, ◌<◌, ◌⊎◌, inl, inr, ◌≡◌, refl, sym, ap, ◌∙◌, Bytes,
  true, false, some, [], ◌∷◌, ◌++◌, ◌==◌, arith, All, Bool-cases, append-nil, append_assoc,
  length-append, ◌≤◌, leb, length,
}
use burp_tui.Util.Base64.{
  b64_char, b64_value, flush, encode_from, padded, base64_encode, decode_from, base64_decode,
}

b64_value-char : (i : ℕ) → i < 64 → b64_value (b64_char i) ≡ some i
unfolding b64_value b64_char
b64_value-char i h = ground arith

-- what the encoder takes from the accumulator
first_char : (v a : ℕ) → a < 256 → (v * 256 + a) % 2 ^ 32 / 4 % 64 ≡ a / 4
first_char v a h = omega arith

second_char :
    (x a b : ℕ)
    → a < 256
    → b < 256
    → ((x * 256 + a) % 2 ^ 32 * 256 + b) % 2 ^ 32 / 16 % 64 ≡ a % 4 * 16 + b / 16
second_char x a b h k = omega arith

third_char :
    (x b c : ℕ)
    → b < 256
    → c < 256
    → ((x * 256 + b) % 2 ^ 32 * 256 + c) % 2 ^ 32 / 64 % 64 ≡ b % 16 * 4 + c / 64
third_char x b c h k = omega arith

fourth_char : (x c : ℕ) → c < 256 → (x * 256 + c) % 2 ^ 32 / 1 % 64 ≡ c % 64
fourth_char x c h = omega arith

last_of_one : (v a : ℕ) → a < 256 → (v * 256 + a) % 2 ^ 32 * 256 % 2 ^ 32 / 16 % 64 ≡ a % 4 * 16 + 0
last_of_one v a h = omega arith

last_of_two : (x b : ℕ) → b < 256 → (x * 256 + b) % 2 ^ 32 * 256 % 2 ^ 32 / 64 % 64 ≡ b % 16 * 4 + 0
last_of_two x b h = omega arith

-- what the decoder takes from it
first_byte :
    (w a r : ℕ)
    → a < 256
    → r < 16
    → ((w * 64 + a / 4) % 2 ^ 32 * 64 + (a % 4 * 16 + r)) % 2 ^ 32 / 16 % 256 ≡ a
first_byte w a r h k = omega arith

second_byte :
    (x q b r : ℕ)
    → b < 256
    → r < 4
    → ((x * 64 + (q * 16 + b / 16)) % 2 ^ 32 * 64 + (b % 16 * 4 + r)) % 2 ^ 32 / 4 % 256 ≡ b
second_byte x q b r h k = omega arith

third_byte :
    (x q c : ℕ)
    → c < 256
    → ((x * 64 + (q * 4 + c / 64)) % 2 ^ 32 * 64 + c % 64) % 2 ^ 32 / 1 % 256 ≡ c
third_byte x q c h = omega arith

-- Three bytes give four characters, and nothing waits then.
encode_three :
    (v a b c : ℕ) (cs : Bytes)
    → a < 256
    → b < 256
    → c < 256
    → (v' : ℕ) × (encode_from v 0 (a ∷ b ∷ c ∷ cs)
        ≡ b64_char (a / 4)
          ∷ b64_char (a % 4 * 16 + b / 16)
          ∷ b64_char (b % 16 * 4 + c / 64)
          ∷ b64_char (c % 64)
          ∷ encode_from v' 0 cs)
unfolding encode_from flush
encode_three v a b c cs ha hb hc =
    let v1 = (v * 256 + a) % 2 ^ 32 in
    let v2 = (v1 * 256 + b) % 2 ^ 32 in
    (
      (v2 * 256 + c) % 2 ^ 32,
      rw (first_char v a ha, second_char v a b ha hb, third_char v1 b c hb hc, fourth_char v2 c hc)
          refl,
    )

-- Padding ends the decoding.
abbrev IsPadding : Bytes → Type 0
IsPadding ps = (ps ≡ []) ⊎ ((qs : Bytes) × (ps ≡ b'=' ∷ qs))

decode_padding : (w n : ℕ) (ps : Bytes) → IsPadding ps → decode_from w n ps ≡ []
unfolding decode_from b64_value
decode_padding w n ps (inl e) = rw e refl
decode_padding w n ps (inr (qs, e)) = rw e refl

-- one character, which gives a byte or not
decode_short :
    (w n i : ℕ) (cs : Bytes)
    → i < 64
    → leb 8 (n + 6) ≡ false
    → decode_from w n (b64_char i ∷ cs) ≡ decode_from ((w * 64 + i) % 2 ^ 32) (n + 6) cs
unfolding decode_from
decode_short w n i cs h k = rw (decode_from, b64_value-char i h, k) refl

decode_full :
    (w n i : ℕ) (cs : Bytes)
    → i < 64
    → leb 8 (n + 6) ≡ true
    → decode_from w n (b64_char i ∷ cs)
      ≡ ((w * 64 + i) % 2 ^ 32 / 2 ^ (n + 6 - 8) % 256)
        ∷ decode_from ((w * 64 + i) % 2 ^ 32) (n + 6 - 8) cs
unfolding decode_from
decode_full w n i cs h k = rw (decode_from, b64_value-char i h, k) refl

cons_eq : {x y : ℕ} {xs ys : Bytes} → x ≡ y → xs ≡ ys → x ∷ xs ≡ y ∷ ys
cons_eq p q = cc

-- two characters, from nothing that waits
decode_first :
    (w a r : ℕ) (cs : Bytes)
    → a < 256
    → r < 16
    → (w' : ℕ) × (decode_from w 0 (b64_char (a / 4) ∷ b64_char (a % 4 * 16 + r) ∷ cs)
        ≡ a ∷ decode_from ((w' * 64 + (a % 4 * 16 + r)) % 2 ^ 32) 4 cs)
decode_first w a r cs h k =
    let w1 = (w * 64 + a / 4) % 2 ^ 32 in
    (
      w1,
      decode_short w 0 (a / 4) _ (omega arith) refl
          ∙ decode_full w1 6 (a % 4 * 16 + r) cs (omega arith) refl
          ∙ cons_eq (first_byte w a r h k) refl,
    )

-- the third one, and the fourth one
decode_second :
    (x q b r : ℕ) (cs : Bytes)
    → b < 256
    → r < 4
    → decode_from ((x * 64 + (q * 16 + b / 16)) % 2 ^ 32) 4 (b64_char (b % 16 * 4 + r) ∷ cs)
      ≡ b
        ∷ decode_from
            (((x * 64 + (q * 16 + b / 16)) % 2 ^ 32 * 64 + (b % 16 * 4 + r)) % 2 ^ 32)
            2
            cs
decode_second x q b r cs h k =
    decode_full ((x * 64 + (q * 16 + b / 16)) % 2 ^ 32) 4 (b % 16 * 4 + r) cs (omega arith) refl
    ∙ cons_eq (second_byte x q b r h k) refl

decode_third :
    (x q c : ℕ) (cs : Bytes)
    → c < 256
    → (w' : ℕ) × (decode_from ((x * 64 + (q * 4 + c / 64)) % 2 ^ 32) 2 (b64_char (c % 64) ∷ cs)
        ≡ c ∷ decode_from w' 0 cs)
decode_third x q c cs h = (
  ((x * 64 + (q * 4 + c / 64)) % 2 ^ 32 * 64 + c % 64) % 2 ^ 32,
  decode_full ((x * 64 + (q * 4 + c / 64)) % 2 ^ 32) 2 (c % 64) cs (omega arith) refl
      ∙ cons_eq (third_byte x q c h) refl,
)

abbrev pub IsByte : ℕ → Type 0
IsByte c = c < 256

decode_from-encode_from :
    (v w : ℕ) (s ps : Bytes)
    → All IsByte s
    → IsPadding ps
    → decode_from w 0 (encode_from v 0 s ++ ps) ≡ s
unfolding encode_from flush
decode_from-encode_from v w [] ps h p = decode_padding w 0 ps p
decode_from-encode_from v w (a ∷ []) ps (ha, _) p =
    let (x, first) = decode_first w a 0 ps ha (omega arith) in
    rw (first_char v a ha, last_of_one v a ha)
      (first ∙ ap (a ∷◌) (decode_padding ((x * 64 + (a % 4 * 16 + 0)) % 2 ^ 32) 4 ps p))
decode_from-encode_from v w (a ∷ b ∷ []) ps (ha, (hb, _)) p =
    let (x, first) = decode_first w a (b / 16) (b64_char (b % 16 * 4 + 0) ∷ ps) ha (omega arith) in
    let x1 = (x * 64 + (a % 4 * 16 + b / 16)) % 2 ^ 32 in
    let second = decode_second x (a % 4) b 0 ps hb (omega arith) in
    rw (first_char v a ha, second_char v a b ha hb, last_of_two ((v * 256 + a) % 2 ^ 32) b hb)
      (first
        ∙ ap (a ∷◌)
            (second ∙ ap (b ∷◌) (decode_padding ((x1 * 64 + (b % 16 * 4 + 0)) % 2 ^ 32) 2 ps p)))
decode_from-encode_from v w (a ∷ b ∷ c ∷ s) ps (ha, (hb, (hc, hs))) p =
    let (v', e) = encode_three v a b c s ha hb hc in
    let (x, first) =
      decode_first w a (b / 16)
        (b64_char (b % 16 * 4 + c / 64) ∷ b64_char (c % 64) ∷ (encode_from v' 0 s ++ ps)) ha
        (omega arith) in
    let second =
      decode_second x (a % 4) b (c / 64) (b64_char (c % 64) ∷ (encode_from v' 0 s ++ ps)) hb
        (omega arith) in
    let (w', third) =
      decode_third ((x * 64 + (a % 4 * 16 + b / 16)) % 2 ^ 32) (b % 16) c (encode_from v' 0 s ++ ps)
        hc in
    ap (λ t. decode_from w 0 (t ++ ps)) e
    ∙ first
    ∙ ap (a ∷◌) (second ∙ ap (b ∷◌) (third ∙ ap (c ∷◌) (decode_from-encode_from v' w' s ps hs p)))

padded_lem : (n : ℕ) (s : Bytes) → (ps : Bytes) × (padded n s ≡ s ++ ps) × IsPadding ps
unfolding padded
padded_lem zero s = ([], sym (append-nil s), inl refl)
padded_lem (suc n) s = elim (Bool-cases (length s % 4 == 0)) [
  | inl h ↦ ([], rw h (sym (append-nil s)), inl refl)
  | inr h ↦
      let (ps, e, _) = padded_lem n (s ++ b'=' ∷ []) in
      (b'=' ∷ ps, rw h (e ∙ append_assoc s (b'=' ∷ []) ps), inr (ps, refl))
]

-- As many rounds as characters are missing are enough.
length-padded : (n : ℕ) (s : Bytes) → (3 * length s) % 4 ≤ n → length (padded n s) % 4 ≡ 0
unfolding padded
length-padded zero s h = omega arith
length-padded (suc n) s h = elim (Bool-cases (length s % 4 == 0)) [
  | inl e ↦ rw e (ground arith)
  | inr e ↦
      let some_missing : 0 < (3 * length s) % 4 = ground arith in
      rw e (length-padded n (s ++ b'=' ∷ []) (omega (arith, length-append s (b'=' ∷ []))))
]

-- For any bytes: decoding undoes encoding, and the encoded text is a number of whole groups of four
-- characters.
pub base64_decode-base64_encode :
    (s : Bytes)
    → All IsByte s
    → (base64_decode (base64_encode s) ≡ s) × (length (base64_encode s) % 4 ≡ 0)
unfolding base64_decode base64_encode
base64_decode-base64_encode s h =
    let (ps, e, p) = padded_lem 3 (encode_from 0 0 s) in
    (
      ap (decode_from 0 0) e ∙ decode_from-encode_from 0 0 s ps h p,
      length-padded 3 (encode_from 0 0 s) (omega arith),
    )
