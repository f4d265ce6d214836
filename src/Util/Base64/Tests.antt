-- ===== src/Util/Base64/Tests.antt =====
-- A few texts.
use burp_tui.Prelude.{◌≡◌, refl, codes}
use burp_tui.Util.Base64.{
  base64_encode, base64_decode, encode_from, decode_from, flush, padded, b64_char, b64_value,
}

encoded : base64_encode (codes "Hello") ≡ codes "SGVsbG8="
unfolding base64_encode encode_from flush padded b64_char
encoded = refl

decoded : base64_decode (codes "SGVsbG8=") ≡ codes "Hello"
unfolding base64_decode decode_from b64_value
decoded = refl
