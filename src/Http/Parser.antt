-- ===== src/Http/Parser.antt =====
-- The incremental parser around llhttp (src/http/HttpParser.{hpp,cpp}).
--
-- llhttp is not part of the repository: its state, its two initial states and `llhttp_execute` are
-- the parameter `Llhttp`. One call of it consumes bytes and makes a list of callbacks, in order.
-- The callbacks, the feeding and the taking of messages are the source's. The log is not modelled;
-- so `on_method`, which only logs, does nothing.
pub mod Assembly
pub mod BodyLimit
pub mod Take
mod Tests
use burp_tui.Prelude.{
  ℕ, ◌-◌, ◌*◌, min, Bytes, codes, Bool, true, false, Option, none, some, List, [], ◌∷◌, ◌++◌,
  is_empty, length, take, ltb, to_string, if◌then◌else◌,
}
use burp_tui.Http.Message.{HttpRequest, HttpResponse, empty_request, empty_response}

-- A callback that llhttp makes; `on_message_complete` reads the method's name, the version and the
-- status code from the parser's state.
pub data LlEvent : Type 0 where
  on_url on_method on_status on_header_field on_header_value on_body : Bytes → LlEvent
  on_message_complete : (method : Bytes) (http_major http_minor status_code : ℕ) → LlEvent

pub data LlErrno : Type 0 where
  hpe_ok hpe_paused_upgrade hpe_failed : LlErrno

pub record Llhttp (L : Type 0) : Type 0 where
  pub init_request : L
  pub init_response : L
  pub execute : L → Bytes → L × List LlEvent × LlErrno

pub record RequestParser (L : Type 0) : Type 0 where
  pub parser : L
  pub request : HttpRequest
  pub current_header_field : Bytes
  pub current_header_value : Bytes
  pub last_was_field : Bool
  pub message_complete : Bool

pub record ResponseParser (L : Type 0) : Type 0 where
  pub parser : L
  pub response : HttpResponse
  pub current_header_field : Bytes
  pub current_header_value : Bytes
  pub last_was_field : Bool
  pub message_complete : Bool

-- "HTTP/major.minor"
unfoldable pub version_text : ℕ → ℕ → Bytes
version_text major minor = codes "HTTP/" ++ (to_string major ++ (codes "." ++ to_string minor))

abbrev pub max_body_size : ℕ
max_body_size = 1 * 1024 * 1024

unfoldable pub truncation_note : Bytes
truncation_note = 10 ∷ 10 ∷ codes "[--- Body truncated for UI ---]"

-- `ResponseParser::on_body`, on the body so far.
unfoldable pub append_body : Bytes → Bytes → Bytes
append_body body chunk =
    let space = max_body_size - length body in
    let to_append = min (length chunk) space in
    let body' = body ++ take to_append chunk in
    if ltb (length body) max_body_size
    then (if ltb to_append (length chunk) then body' ++ truncation_note else body')
    else body

module _ {L : Type 0} where
  -- `RequestParser::commitHeader`
  unfoldable pub commit_request_header : RequestParser L → RequestParser L
  commit_request_header p = if is_empty p.current_header_field then p else record p {
    request = record p.request {
      headers = p.request.headers ++ (p.current_header_field, p.current_header_value) ∷ [];
    };
    current_header_field = [];
    current_header_value = [];
  }

  -- the callbacks that `RequestParser` registers
  unfoldable pub request_callback : RequestParser L → LlEvent → RequestParser L
  unfolding commit_request_header version_text
  request_callback p (on_url s) = record p {
    request = record p.request { url = p.request.url ++ s };
  }
  request_callback p (on_method s) = p
  request_callback p (on_status s) = p
  request_callback p (on_header_field s) =
      let p' = if p.last_was_field then p else commit_request_header p in
      record p' { current_header_field = p'.current_header_field ++ s; last_was_field = true }
  request_callback p (on_header_value s) = record p {
    current_header_value = p.current_header_value ++ s;
    last_was_field = false;
  }
  request_callback p (on_body s) = record p {
    request = record p.request { body = p.request.body ++ s };
  }
  request_callback p (on_message_complete method major minor status) =
      let p' = commit_request_header p in
      record p' {
        request = record p'.request { method = method; version = version_text major minor };
        message_complete = true;
      }

  unfoldable pub request_callbacks : RequestParser L → List LlEvent → RequestParser L
  unfolding request_callback
  request_callbacks p [] = p
  request_callbacks p (e ∷ es) = request_callbacks (request_callback p e) es

  -- `ResponseParser::commitHeader`
  unfoldable pub commit_response_header : ResponseParser L → ResponseParser L
  commit_response_header p = if is_empty p.current_header_field then p else record p {
    response = record p.response {
      headers = p.response.headers ++ (p.current_header_field, p.current_header_value) ∷ [];
    };
    current_header_field = [];
    current_header_value = [];
  }

  -- the callbacks that `ResponseParser` registers
  unfoldable pub response_callback : ResponseParser L → LlEvent → ResponseParser L
  unfolding commit_response_header version_text append_body
  response_callback p (on_url s) = p
  response_callback p (on_method s) = p
  response_callback p (on_status s) = record p {
    response = record p.response { status_text = p.response.status_text ++ s };
  }
  response_callback p (on_header_field s) =
      let p' = if p.last_was_field then p else commit_response_header p in
      record p' { current_header_field = p'.current_header_field ++ s; last_was_field = true }
  response_callback p (on_header_value s) = record p {
    current_header_value = p.current_header_value ++ s;
    last_was_field = false;
  }
  response_callback p (on_body s) = record p {
    response = record p.response { body = append_body p.response.body s };
  }
  response_callback p (on_message_complete method major minor status) =
      let p' = commit_response_header p in
      record p' {
        response = record p'.response { status_code = status; version = version_text major minor };
        message_complete = true;
      }

  unfoldable pub response_callbacks : ResponseParser L → List LlEvent → ResponseParser L
  unfolding response_callback
  response_callbacks p [] = p
  response_callbacks p (e ∷ es) = response_callbacks (response_callback p e) es

-- `err != HPE_OK && err != HPE_PAUSED_UPGRADE`
abbrev pub is_failure : LlErrno → Bool
is_failure hpe_failed = true
is_failure _ = false

module _ {L : Type 0} (ll : Llhttp L) where
  -- `RequestParser::reset`, which is also what the constructor leaves
  abbrev pub reset_request : RequestParser L
  reset_request = record {
    parser = ll.init_request;
    request = empty_request;
    current_header_field = [];
    current_header_value = [];
    last_was_field = false;
    message_complete = false;
  }

  abbrev pub reset_response : ResponseParser L
  reset_response = record {
    parser = ll.init_response;
    response = empty_response;
    current_header_field = [];
    current_header_value = [];
    last_was_field = false;
    message_complete = false;
  }

  -- `feedRequest`
  unfoldable pub feed_request : RequestParser L → Bytes → RequestParser L × Bool
  feed_request p input =
      let (l, events, err) = ll.execute p.parser input in
      let p' = request_callbacks (record p { parser = l }) events in
      if p.message_complete
      then (p, true)
      else if is_failure err
      then (p', false)
      else (p', p'.message_complete)

  -- `feedResponse`
  unfoldable pub feed_response : ResponseParser L → Bytes → ResponseParser L × Bool
  feed_response p input =
      let (l, events, err) = ll.execute p.parser input in
      let p' = response_callbacks (record p { parser = l }) events in
      if p.message_complete
      then (p, true)
      else if is_failure err
      then (p', false)
      else (p', p'.message_complete)

  -- `takeRequest`
  unfoldable pub take_request : RequestParser L → RequestParser L × Option HttpRequest
  take_request p = if p.message_complete then (reset_request, some p.request) else (p, none)

  -- `takeResponse`
  unfoldable pub take_response : ResponseParser L → ResponseParser L × Option HttpResponse
  take_response p = if p.message_complete then (reset_response, some p.response) else (p, none)
