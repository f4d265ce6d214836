-- ===== src/Util/Encoding/Tests.antt =====
-- The encodings at concrete inputs.
use burp_tui.Prelude.{◌≡◌, refl, codes, ◌∷◌, skip_spaces}
use burp_tui.Util.Encoding.{url_encode, url_decode, has_byte, strtol_char, signed_value, hex_value}

encoded : url_encode (codes "a b/~") ≡ codes "a%20b%2F~"
unfolding url_encode has_byte
encoded = refl

-- a sign is read, and a space is skipped
odd_input : url_decode (codes "%-1%+a% 7+x%2") ≡ 255 ∷ 10 ∷ 7 ∷ 32 ∷ codes "x%2"
unfolding url_decode strtol_char signed_value hex_value skip_spaces
odd_input = refl
