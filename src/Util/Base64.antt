-- ===== src/Util/Base64.antt =====
-- `base64Encode` and `base64Decode` of src/util/Encoding.cpp. The accumulator has 32 bits; `bits` is
-- kept with the offset that makes it the number of bits that wait in the accumulator, 6 more for
-- the encoder and 8 more for the decoder. A shift by `n` is a division by `2 ^ n`.
use burp_tui.Prelude.{
  ℕ, zero, suc, ◌+◌, ◌-◌, ◌*◌, ◌/◌, ◌%◌, ◌^◌, Bytes, codes, Bool, true, false, Option, none, some,
  List, [], ◌∷◌, ◌++◌, ◌==◌, ◌&&◌, ltb, leb, length, if◌then◌else◌,
}
pub mod RoundTrip
mod Tests

-- `kB64Chars[i]`, by the ranges of the table
unfoldable pub b64_char : ℕ → ℕ
b64_char i =
    if ltb i 26
    then b'A' + i
    else if ltb i 52
    then b'a' + (i - 26)
    else if ltb i 62
    then b'0' + (i - 52)
    else if i == 62
    then b'+'
    else b'/'

-- `T[c]`; `none` is -1
unfoldable pub b64_value : ℕ → Option ℕ
b64_value c =
    if leb b'A' c && leb c b'Z'
    then some (c - b'A')
    else if leb b'a' c && leb c b'z'
    then some (c - b'a' + 26)
    else if leb b'0' c && leb c b'9'
    then some (c - b'0' + 52)
    else if c == b'+'
    then some 62
    else if c == b'/'
    then some 63
    else none

-- `while (bits >= 0)`: what is put out, and the bits that wait then; a round takes six of them
unfoldable pub flush : (rounds val waiting : ℕ) → Bytes × ℕ
flush zero val waiting = ([], waiting)
flush (suc n) val waiting =
    let (out, left) = flush n val (waiting - 6) in
    if ltb waiting 6 then ([], waiting) else (b64_char (val / 2 ^ (waiting - 6) % 64) ∷ out, left)

-- the loop over the bytes, and what is put out after it
unfoldable pub encode_from : (val waiting : ℕ) → Bytes → Bytes
unfolding flush b64_char
encode_from val waiting [] =
    if ltb 0 waiting then b64_char (val * 256 % 2 ^ 32 / 2 ^ (waiting + 2) % 64) ∷ [] else []
encode_from val waiting (c ∷ cs) =
    let val' = (val * 256 + c) % 2 ^ 32 in
    let (out, left) = flush (waiting + 8) val' (waiting + 8) in out ++ encode_from val' left cs

-- `while (out.size() % 4) out += '='`: three rounds are enough
unfoldable pub padded : (rounds : ℕ) → Bytes → Bytes
padded zero out = out
padded (suc n) out =
    let more = padded n (out ++ b'=' ∷ []) in if length out % 4 == 0 then out else more

unfoldable pub base64_encode : Bytes → Bytes
unfolding encode_from padded
base64_encode input = padded 3 (encode_from 0 0 input)

unfoldable pub decode_from : (val waiting : ℕ) → Bytes → Bytes
unfolding b64_value
decode_from val waiting [] = []
decode_from val waiting (c ∷ cs) = elim (b64_value c) [
  | none ↦ []
  | some t ↦
      let val' = (val * 64 + t) % 2 ^ 32 in
      let short = decode_from val' (waiting + 6) cs in
      let byte = val' / 2 ^ (waiting + 6 - 8) % 256 in
      let full = byte ∷ decode_from val' (waiting + 6 - 8) cs in
      if leb 8 (waiting + 6) then full else short
]

unfoldable pub base64_decode : Bytes → Bytes
unfolding decode_from
base64_decode input = decode_from 0 0 input
