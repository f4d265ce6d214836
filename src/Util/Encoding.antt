-- ===== src/Util/Encoding.antt =====
-- The hexadecimal and URL encodings (`Encoding`). A byte is a number below 256.
use burp_tui.Prelude.{
  ℕ, ◌+◌, ◌-◌, ◌*◌, ◌/◌, ◌%◌, Bytes, codes, Bool, true, false, Option, none, some, [], ◌∷◌, ◌++◌,
  ◌&&◌, ◌||◌, ◌==◌, skip_spaces, ltb, leb, if◌then◌else◌,
}
pub mod RoundTrip
mod Tests

-- the digits of `%02x` and of `%02X`
abbrev pub lower_digit : ℕ → ℕ
lower_digit d = if ltb d 10 then 48 + d else 87 + d

abbrev pub upper_digit : ℕ → ℕ
upper_digit d = if ltb d 10 then 48 + d else 55 + d

-- a digit of `strtol` in base sixteen
abbrev pub hex_digit : ℕ → Option ℕ
hex_digit c =
    if leb b'0' c && leb c b'9'
    then some (c - 48)
    else if leb b'a' c && leb c b'f'
    then some (c - 87)
    else if leb b'A' c && leb c b'F'
    then some (c - 55)
    else none

unfoldable pub hex_value : ℕ → Bytes → ℕ
hex_value acc [] = acc
hex_value acc (c ∷ cs) = elim (hex_digit c) [ none ↦ acc | some d ↦ hex_value (acc * 16 + d) cs ]

-- The value after a sign, as a `char`.
unfoldable pub signed_value : Bytes → ℕ
unfolding hex_value
signed_value [] = 0
signed_value (c ∷ cs) =
    if c == b'-'
    then (256 - hex_value 0 cs % 256) % 256
    else if c == b'+'
    then hex_value 0 cs
    else hex_value 0 (c ∷ cs)

-- `static_cast<char>(std::strtol(hex, nullptr, 16))` of two bytes: spaces, a sign, digits up to the
-- first other byte. The prefix `0x` makes no difference, since no digit can follow it.
unfoldable pub strtol_char : Bytes → ℕ
unfolding signed_value
strtol_char hex = signed_value (skip_spaces hex)

unfoldable pub hex_encode : Bytes → Bytes
hex_encode [] = []
hex_encode (c ∷ cs) = lower_digit (c / 16) ∷ lower_digit (c % 16) ∷ hex_encode cs

unfoldable pub hex_decode : Bytes → Bytes
unfolding strtol_char
hex_decode [] = []
hex_decode (a ∷ []) = []
hex_decode (a ∷ b ∷ cs) = strtol_char (a ∷ b ∷ []) ∷ hex_decode cs

-- `s.find(c) != npos`
unfoldable pub has_byte : ℕ → Bytes → Bool
has_byte c [] = false
has_byte c (x ∷ xs) = x == c || has_byte c xs

abbrev pub unreserved : Bytes
unreserved = codes "ABCDEFGHIJKLMNOPQRSTUVWXYZabcdefghijklmnopqrstuvwxyz0123456789-_.~"

unfoldable pub url_encode : Bytes → Bytes
url_encode [] = []
url_encode (c ∷ cs) =
    let rest = url_encode cs in
    if has_byte c unreserved
    then c ∷ rest
    else b'%' ∷ upper_digit (c / 16) ∷ upper_digit (c % 16) ∷ rest

-- a byte that starts no escape
abbrev pub plain : ℕ → ℕ
plain c = if c == b'+' then 32 else c

unfoldable pub url_decode : Bytes → Bytes
unfolding strtol_char
url_decode [] = []
url_decode (c ∷ []) = plain c ∷ []
url_decode (c ∷ a ∷ []) = plain c ∷ plain a ∷ []
url_decode (c ∷ a ∷ b ∷ rest) =
    let escaped = strtol_char (a ∷ b ∷ []) ∷ url_decode rest in
    let single = plain c ∷ url_decode (a ∷ b ∷ rest) in if c == b'%' then escaped else single
