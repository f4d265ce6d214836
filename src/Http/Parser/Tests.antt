-- ===== src/Http/Parser/Tests.antt =====
-- The parser over a small stand-in for llhttp, and its theorems at concrete inputs.
use burp_tui.Prelude.{
  ℕ, zero, suc, Bytes, ◌≡◌, refl, ap, append-nil, ◌+◌, ◌≤◌, codes, true, some, List, [], ◌∷◌, ◌++◌,
  take, length, to_string,
}
use burp_tui.Http.Message.{empty_request}
use burp_tui.Http.Parser.{
  LlEvent, on_url, on_header_field, on_body, on_message_complete, hpe_ok, Llhttp, reset_request,
  reset_response, feed_request, take_request, request_callbacks, response_callbacks, max_body_size,
  version_text,
}
use burp_tui.Http.Parser.Assembly.{Fragments, all_events, headers_assembled}
use burp_tui.Http.Parser.BodyLimit.{body_limit, silent_truncation}
use burp_tui.Http.Parser.Take.{url-callbacks}

abbrev host_header : Fragments
host_header = record {
  initial = b'H';
  first_field = codes "o";
  more_fields = codes "st" ∷ [];
  first_value = codes "exam";
  more_values = codes "ple.com" ∷ [];
}

abbrev accept_header : Fragments
accept_header = record {
  initial = b'A';
  first_field = codes "ccept";
  more_fields = [];
  first_value = [];
  more_values = [];
}

abbrev get_events : List LlEvent
get_events =
    on_url (codes "/in")
    ∷ on_url (codes "dex")
    ∷ (all_events (host_header ∷ accept_header ∷ [])
        ++ on_message_complete (codes "GET") 1 1 0 ∷ [])

-- Any input makes the same callbacks.
abbrev toy : Llhttp ℕ
toy = record {
  init_request = 0;
  init_response = 1;
  execute = λ l input. (l + 1, get_events, hpe_ok);
}

toy_request :
    (take_request toy (feed_request toy (reset_request toy) []).0).1
    ≡ some (record empty_request {
      method = codes "GET";
      url = codes "/index";
      version = codes "HTTP/1.1";
      headers = (codes "Host", codes "example.com") ∷ (codes "Accept", []) ∷ [];
    })
unfolding take_request feed_request request_callbacks to_string
toy_request = refl

headers_assembled_example :
    request_callbacks (reset_request toy) (
      all_events (host_header ∷ accept_header ∷ []) ++ on_message_complete (codes "GET") 1 1 0 ∷ [])
    ≡ record (reset_request toy) {
      request = record empty_request {
        headers = (codes "Host", codes "example.com") ∷ (codes "Accept", []) ∷ [];
        method = codes "GET";
        version = version_text 1 1;
      };
      message_complete = true;
    }
headers_assembled_example =
    headers_assembled (reset_request toy) (host_header ∷ accept_header ∷ []) (codes "GET") 1 1 0
      refl refl refl

abbrev body_events : List LlEvent
body_events = on_body (codes "ab") ∷ on_header_field (codes "X") ∷ on_body (codes "c") ∷ []

body_limit_example :
    (take max_body_size (response_callbacks (reset_response toy) body_events).response.body
      ≡ take max_body_size (codes "abc"))
    × (length (codes "abc") ≤ max_body_size
        → (response_callbacks (reset_response toy) body_events).response.body ≡ codes "abc")
    × (length (response_callbacks (reset_response toy) body_events).response.body
        ≤ max_body_size + 33)
body_limit_example = body_limit (reset_response toy) body_events refl

url-callbacks_example :
    (request_callbacks (reset_request toy) (get_events ++ get_events)).request.url
    ≡ codes "/index/index"
url-callbacks_example = url-callbacks (reset_request toy) (get_events ++ get_events)

unfoldable fill : ℕ → Bytes
fill zero = []
fill (suc n) = 97 ∷ fill n

length-fill : (n : ℕ) → length (fill n) ≡ n
unfolding fill
length-fill zero = refl
length-fill (suc n) = ap suc (length-fill n)

silent_truncation_example :
    (response_callbacks
      (reset_response toy)
      (on_body (fill max_body_size) ∷ on_body (codes "b") ∷ [])).response.body
    ≡ fill max_body_size ++ []
silent_truncation_example =
    silent_truncation (reset_response toy) (on_body (fill max_body_size) ∷ [])
      (on_body (codes "b") ∷ []) refl
      (rw (append-nil (fill max_body_size)) (length-fill max_body_size))
