-- ===== src/Http/Message.antt =====
-- Requests, responses and transactions (src/http/HttpRequest, HttpResponse, HttpTransaction).
-- A header list is the vector of its name and value pairs. `int` values that are only stored and
-- printed, and are never negative here (`statusCode`), are numbers; `port` may be negative.
use burp_tui.Prelude.{
  ℕ, Bytes, codes, Bool, false, Option, none, List, [], ◌∷◌, ◌++◌, bytes_eq, is_empty, to_string, ℤ,
  pos, if◌then◌else◌,
}

abbrev pub Headers : Type 0
Headers = List (Bytes × Bytes)

pub record HttpRequest : Type 0 where
  pub method : Bytes
  pub url : Bytes
  pub version : Bytes
  pub headers : Headers
  pub body : Bytes
  pub raw_override : Bytes

-- `HttpRequest{}`
abbrev pub empty_request : HttpRequest
empty_request = record {
  method = [];
  url = [];
  version = codes "HTTP/1.1";
  headers = [];
  body = [];
  raw_override = [];
}

pub record HttpResponse : Type 0 where
  pub version : Bytes
  pub status_code : ℕ
  pub status_text : Bytes
  pub headers : Headers
  pub body : Bytes

-- `HttpResponse{}`
abbrev pub empty_response : HttpResponse
empty_response = record { version = []; status_code = 0; status_text = []; headers = []; body = [] }

-- `header(name)` of both: the value of the first header with the name, or an empty string.
unfoldable pub header : Headers → Bytes → Bytes
header [] name = []
header ((k, v) ∷ rest) name = if bytes_eq k name then v else header rest name

abbrev pub crlf : Bytes
crlf = 13 ∷ 10 ∷ []

-- the loop of both `serialize` methods over the headers
unfoldable pub serialize_headers : Headers → Bytes
serialize_headers [] = []
serialize_headers ((k, v) ∷ rest) = k ++ (codes ": " ++ (v ++ (crlf ++ serialize_headers rest)))

-- `HttpRequest::serialize`
unfoldable pub serialize_request : HttpRequest → Bytes
unfolding serialize_headers
serialize_request r =
    if is_empty r.raw_override
    then r.method
      ++ (codes " "
          ++ (r.url
              ++ (codes " "
                  ++ (r.version ++ (crlf ++ (serialize_headers r.headers ++ (crlf ++ r.body)))))))
    else r.raw_override

-- `HttpResponse::serialize`
unfoldable pub serialize_response : HttpResponse → Bytes
unfolding serialize_headers
serialize_response r =
    r.version
    ++ (codes " "
        ++ (to_string r.status_code
            ++ (codes " "
                ++ (r.status_text ++ (crlf ++ (serialize_headers r.headers ++ (crlf ++ r.body)))))))

-- `id` is a bit pattern of 32 bits; a null pointer is `none`.
pub record HttpTransaction : Type 0 where
  pub id : ℕ
  pub host : Bytes
  pub port : ℤ
  pub is_https : Bool
  pub request : Option HttpRequest
  pub response : Option HttpResponse

-- `HttpTransaction{}`
abbrev pub empty_transaction : HttpTransaction
empty_transaction = record {
  id = 0;
  host = [];
  port = pos 0;
  is_https = false;
  request = none;
  response = none;
}
