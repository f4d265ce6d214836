-- ===== src/Tui/Repeater.antt =====
-- The request that is sent again (`RepeaterManager`): its target, the text of the request, and the
-- request in flight.
--
-- Each section under the mutex is a step, but the two of `executeRequest` before its thread are one:
-- the setters and it are called by the thread of the interface, and no other thread changes the
-- manager until the new one ends. What the sending thread does on the network is an
-- argument of the completion: the bytes that it read, or the text of the exception. Of a
-- callback it is kept whether one is set, and an operation returns what it called, in order.
use burp_tui.Prelude.{
  ℕ, ◌+◌, ◌-◌, Bytes, codes, Bool, true, false, not, Option, none, some, List, [], ◌∷◌, ◌++◌, ◌==◌,
  ◌&&◌, ◌||◌, contains, find, starts_with, is_empty, length, take, drop, to_string, if◌then◌else◌,
}
use burp_tui.Http.Message.{crlf}
use burp_tui.Http.Raw.{sanitized, with_crlf, with_blank_line, normalized, skip_blanks}
pub mod Target
pub mod Cleaned
pub mod Sending
mod Tests

-- what the manager calls of the interface
pub data Call : Type 0 where
  notify : Call
  switch_tab : ℕ → Call

pub record RepeaterManager : Type 0 where
  pub host : Bytes
  pub port : Bytes
  pub is_https : Bool
  pub raw_request : Bytes
  pub raw_response : Bytes
  pub status_text : Bytes
  pub is_sending : Bool
  pub has_notify : Bool
  pub has_switch_tab : Bool

-- what the sending thread is given
pub record Sent : Type 0 where
  pub host : Bytes
  pub port : Bytes
  pub is_https : Bool
  pub request : Bytes

abbrev pub new_manager : RepeaterManager
new_manager = record {
  host = codes "httpbin.org";
  port = codes "443";
  is_https = true;
  raw_request =
      codes
        "GET /get HTTP/1.1\r\nHost: httpbin.org\r\nUser-Agent: BurpTUI/0.1\r\nAccept: */*\r\n\r\n";
  raw_response = codes "(Send request to see real response here)";
  status_text = codes "Ready";
  is_sending = false;
  has_notify = false;
  has_switch_tab = false;
}

-- `if (notifyCallback_) notifyCallback_();`
abbrev pub notified : RepeaterManager → List Call
notified m = if m.has_notify then notify ∷ [] else []

abbrev pub switch_to_repeater_tab : RepeaterManager → List Call
switch_to_repeater_tab m = if m.has_switch_tab then switch_tab 2 ∷ [] else []

-- an empty `std::function` takes the callback away
abbrev pub set_notify_callback : Bool → RepeaterManager → RepeaterManager
set_notify_callback given m = record m { has_notify = given }

abbrev pub set_switch_tab_callback : Bool → RepeaterManager → RepeaterManager
set_switch_tab_callback given m = record m { has_switch_tab = given }

unfoldable pub set_target : Bytes → Bytes → Bool → RepeaterManager → RepeaterManager × List Call
set_target host port is_https m =
    (record m { host = host; port = port; is_https = is_https }, notified m)

unfoldable pub set_request :
    Bytes → Bytes → Bool → Bytes → RepeaterManager → RepeaterManager × List Call
set_request host port is_https raw m =
    let m' = record m {
      host = host;
      port = port;
      is_https = is_https;
      raw_request = raw;
      status_text = codes "Loaded request for " ++ (host ++ (codes ":" ++ port));
    } in
    (m', notified m ++ switch_to_repeater_tab m)

abbrev pub set_raw_request : Bytes → RepeaterManager → RepeaterManager
set_raw_request raw m = record m { raw_request = raw }

abbrev pub set_raw_response : Bytes → RepeaterManager → RepeaterManager
set_raw_response raw m = record m { raw_response = raw }

-- `while (!s.empty() && (s.back() == ' ' || s.back() == '\t')) s.pop_back();`
unfoldable pub drop_blanks_back : Bytes → Bytes
drop_blanks_back [] = []
drop_blanks_back (c ∷ cs) =
    let rest = drop_blanks_back cs in if is_empty rest && (c == 32 || c == 9) then [] else c ∷ rest

-- the host without its scheme, and whether the target is HTTPS
unfoldable pub split_scheme : Bytes → Bool → Bytes × Bool
unfolding starts_with
split_scheme host is_https =
    if starts_with host (codes "https://")
    then (drop 8 host, true)
    else if starts_with host (codes "http://")
    then (drop 7 host, false)
    else (host, is_https)

abbrev pub cut_path : Bytes → Bytes
cut_path host = elim (find host (codes "/")) [ none ↦ host | some slash ↦ take slash host ]

-- `rfind` of one byte
unfoldable pub rfind : Bytes → ℕ → Option ℕ
rfind [] c = none
rfind (x ∷ xs) c = elim (rfind xs c) [
  | some i ↦ some (i + 1)
  | none ↦ if x == c then some 0 else none
]

unfoldable pub split_port : Bytes → Bytes → Bytes × Bytes
unfolding rfind
split_port host port = elim (rfind host b':') [
  | none ↦ (host, port)
  | some colon ↦
      if contains host (codes "]") then (host, port) else (take colon host, drop (colon + 1) host)
]

-- "Sanitize host and scheme": the host, the port and the scheme to connect to
unfoldable pub sanitize_target : Bytes → Bytes → Bool → Bytes × Bytes × Bool
unfolding skip_blanks drop_blanks_back split_scheme split_port find
sanitize_target host port is_https =
    let (named, https) = split_scheme (drop_blanks_back (skip_blanks host)) is_https in
    let (host', port') = split_port (cut_path named) port in
    (host', if is_empty port' then if https then codes "443" else codes "80" else port', https)

abbrev pub lacks : Bytes → Bytes → Bytes → Bool
lacks s name lower_name = not (contains s name) && not (contains s lower_name)

-- `insert(firstLineEnd + 2, line)` where there is a first line
abbrev pub insert_line : Bytes → Bytes → Bytes
insert_line line s = elim (find s crlf) [
  | none ↦ s
  | some end ↦ take (end + 2) s ++ (line ++ drop (end + 2) s)
]

abbrev pub with_host : Bytes → Bytes → Bytes
with_host host s =
    if lacks s (codes "Host:") (codes "host:")
    then insert_line (codes "Host: " ++ (host ++ crlf)) s
    else s

abbrev pub with_close : Bytes → Bytes
with_close s =
    if lacks s (codes "Connection:") (codes "connection:")
    then insert_line (codes "Connection: close" ++ crlf) s
    else s

-- "Clean and normalize HTTP request"
unfoldable pub clean_request : Bytes → Bytes → Bytes
unfolding find sanitized with_crlf with_blank_line
clean_request host raw = with_close (with_host host (normalized raw))

-- `executeRequest` up to the thread that it starts; while one is in flight it does nothing.
unfoldable pub execute_request : RepeaterManager → RepeaterManager × List Call × Option Sent
unfolding sanitize_target clean_request
execute_request m =
    let (host, port, https) = sanitize_target m.host m.port m.is_https in
    let m' = record m {
      is_sending = true;
      host = host;
      port = port;
      is_https = https;
      status_text = codes "Connecting to " ++ (host ++ (codes ":" ++ (port ++ codes "...")));
    } in
    let sent : Sent = record {
      host = host;
      port = port;
      is_https = https;
      request = clean_request host m.raw_request;
    } in
    if m.is_sending then (m, [], none) else (m', notified m, some sent)

-- what the thread got: what it read up to an error or the end, or the text of an exception, which
-- comes before the first read
pub data Outcome : Type 0 where
  received : Bytes → Outcome
  exception : (what : Bytes) → Outcome

abbrev pub error_text : Outcome → Bytes
error_text (received got) = []
error_text (exception what) = what

abbrev pub response_of : Outcome → Bytes
response_of (received got) = got
response_of (exception what) = []

-- the end of the thread, after `ms` milliseconds
unfoldable pub complete : Sent → Outcome → ℕ → RepeaterManager → RepeaterManager × List Call
complete t outcome ms m =
    let err = error_text outcome in
    let got = response_of outcome in
    let target =
      (if t.is_https then codes "https://" else codes "http://")
      ++ (t.host ++ (codes ":" ++ t.port)) in
    let failed = record m {
      is_sending = false;
      status_text = codes "Error: " ++ err;
      raw_response = codes "HTTP Connection Failed: " ++ (err ++ (codes "\nTarget: " ++ target));
    } in
    let done = record m {
      is_sending = false;
      status_text =
          codes "Done ("
          ++ (to_string (length got) ++ (codes " B in " ++ (to_string ms ++ codes " ms)")));
      raw_response = got;
    } in
    (if is_empty err then done else failed, notified m)
