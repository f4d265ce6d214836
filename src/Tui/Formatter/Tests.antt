-- ===== src/Tui/Formatter/Tests.antt =====
-- A request and a few bytes.
use burp_tui.Prelude.{
  ◌≤◌, ◌≡◌, refl, codes, true, [], ◌∷◌, All, length, starts_with, ends_with, find, bytes_eq,
  to_lower, remove_if,
}
use burp_tui.Http.Message.{HttpRequest, serialize_request}
use burp_tui.Tui.Formatter.{sanitize_text, format_http_request_raw}
use burp_tui.Tui.Formatter.Raw.{https, IsBare, raw_text_sent}
use burp_tui.Tui.Formatter.Sanitize.{IsShown, sanitize_text_lem}

abbrev request : HttpRequest
request = record {
  method = codes "GET";
  url = codes "/";
  version = codes "HTTP/1.1";
  headers = (codes "hOST", codes "b") ∷ (codes "Accept", codes "*/*") ∷ [];
  body = [];
  raw_override = [];
}

a-IsBare : IsBare (codes "a") true
unfolding starts_with ends_with find bytes_eq
a-IsBare = record {
  some_text = refl;
  no_https = refl;
  no_http = refl;
  no_slash = refl;
  no_label = refl;
}

raw_text_sent_example :
    format_http_request_raw request (codes "https://a/")
    ≡ serialize_request (record request {
      headers = (codes "Host", codes "a") ∷ (codes "Accept", codes "*/*") ∷ [];
    })
unfolding bytes_eq to_lower remove_if
raw_text_sent_example =
    raw_text_sent request (codes "https://a/") (codes "a") https true refl refl a-IsBare

sanitize_text_lem_example :
    All IsShown (sanitize_text (65 ∷ 13 ∷ 27 ∷ []) 5)
    × (length (sanitize_text (65 ∷ 13 ∷ 27 ∷ []) 5) ≤ 5)
    × (sanitize_text (sanitize_text (65 ∷ 13 ∷ 27 ∷ []) 5) 5 ≡ sanitize_text (65 ∷ 13 ∷ 27 ∷ []) 5)
sanitize_text_lem_example = sanitize_text_lem (65 ∷ 13 ∷ 27 ∷ []) 5
