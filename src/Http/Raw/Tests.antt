-- ===== src/Http/Raw/Tests.antt =====
-- A request typed with bare line feeds.
use burp_tui.Prelude.{
  ◌≡◌, refl, Bytes, codes, true, false, [], ◌∷◌, ◌++◌, contains, find, starts_with, bytes_eq,
  skip_spaces, ends_with,
}
use burp_tui.Http.Message.{crlf, serialize_request}
use burp_tui.Http.Raw.{
  sanitized, erase_mark, with_crlf, with_blank_line, normalized, lines, parse_lines,
  parse_raw_http_request, without_last, break_word, headers_and_body, header_line, body_text,
  skip_blanks,
}
use burp_tui.Http.Raw.Marks.{without_first}
use burp_tui.Http.Raw.Sent.{has_crlf_ends, without_crs, edited_text_sent}

abbrev typed : Bytes
typed = codes "POST /a\nHost:  x (HTTP)\nbad\n\nb=1"

parsed : parse_raw_http_request typed ≡ record {
  method = codes "POST";
  url = codes "/a";
  version = codes "HTTP/1.1";
  headers = (codes "Host", codes "x") ∷ [];
  body = codes "b=1";
  raw_override = normalized typed;
}
unfolding parse_raw_http_request sanitized erase_mark with_crlf with_blank_line lines parse_lines
    without_last break_word headers_and_body header_line body_text skip_blanks find starts_with
    bytes_eq skip_spaces ends_with
parsed = refl

edited_text_sent_example :
    let sent = serialize_request (parse_raw_http_request typed) in
    let text = with_crlf (codes "POST /a\nHost:  x\nbad\n\nb=1") in
    (sent ≡ with_blank_line text)
    × (contains sent (crlf ++ crlf) ≡ true)
    × (has_crlf_ends false sent ≡ true)
    × (without_crs text ≡ codes "POST /a\nHost:  x\nbad\n\nb=1")
    × (with_blank_line (with_crlf sent) ≡ sent)
unfolding without_first starts_with bytes_eq without_crs
edited_text_sent_example = edited_text_sent typed
