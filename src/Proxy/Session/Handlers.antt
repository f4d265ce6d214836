-- ===== src/Proxy/Session/Handlers.antt =====
-- The handlers of `Session`, one for each completion of an asynchronous operation. llhttp is the
-- parameter of the section. Whether the connect left the upstream socket open is told by asio.
use burp_tui.Prelude.{
  Bytes, codes, Bool, true, false, not, Option, none, some, [], ◌++◌, ◌&&◌, ◌||◌, ℤ, to_u16, stoi,
  bytes_eq, contains, is_empty, is_some, length, ltb, if◌then◌else◌,
}
use burp_tui.Http.Message.{HttpRequest, HttpResponse, header, empty_transaction, serialize_request}
use burp_tui.Http.Parser.{
  Llhttp, reset_request, reset_response, feed_request, feed_response, take_request, take_response,
}
use burp_tui.Proxy.Net.{ErrorCode, failed, is_eof}
use burp_tui.Proxy.Session.State.{
  timer_cancel, intercept_request, start_mitm, Session, Env, Outcome, returned, thrown, bump, emit,
  reset_timer, read_client, read_upstream, close, write_client, write_server_blind,
  connect_upstream, forward_request, report,
}
use burp_tui.Proxy.Session.Route.{split_host_port, target, is_own_host, wants_cert, or_default}
use burp_tui.Proxy.Session.Replies.{
  ok_response, send_error_response, serve_ca_cert, serve_burp_help_page,
}

-- `request->header(name)`, of a request that may be missing
abbrev pub header_of : Option HttpRequest → Bytes → Bytes
header_of none name = []
header_of (some r) name = header r.headers name

abbrev pub version_of : Option HttpRequest → Bytes
version_of none = []
version_of (some r) = r.version

-- HTTP/1.1 stays open unless one side says `close`; another version closes unless one side says
-- `keep-alive`.
unfoldable pub keep_alive : Option HttpRequest → HttpResponse → Bool
keep_alive req res =
    let conn_req = header_of req (codes "Connection") in
    let conn_res = header res.headers (codes "Connection") in
    if bytes_eq (version_of req) (codes "HTTP/1.1")
    then not (contains conn_req (codes "close")) && not (contains conn_res (codes "close"))
    else contains conn_req (codes "keep-alive") || contains conn_res (codes "keep-alive")

abbrev pub serialized : Option HttpRequest → Bytes
serialized none = []
serialized (some r) = serialize_request r

module _ {L : Type 0} (env : Env) where
  abbrev pub with_host : Bytes → Session L → Session L
  with_host host s = record s { current_transaction = record s.current_transaction { host = host } }

  -- The tunnel is reported as a transaction; then a MITM session takes the client's socket over,
  -- or without a certificate cache the bytes are passed through.
  unfoldable pub open_tunnel : Bytes → Bytes → ℤ → Session L → Session L
  unfolding report connect_upstream
  open_tunnel host port n s =
      let s2 = record s {
        current_transaction = record s.current_transaction {
          port = n;
          is_https = true;
          response = some (record ok_response { status_text = codes "Connection Established" });
        };
      } in
      let s3 = report env s2 in
      let mitm = record (emit (start_mitm host (to_u16 n)) (emit timer_cancel s3)) {
        client_open = false;
      } in
      let tunnel =
        connect_upstream
          (record s3 { is_connect = true; upstream_host = host; upstream_port = port }) in
      if env.has_cert_cache then mitm else tunnel

  -- The `CONNECT` branch of `handleClientRead`. `std::stoi` is called before the response is set.
  unfoldable pub handle_connect_method : HttpRequest → Session L → Outcome L
  unfolding split_host_port open_tunnel
  handle_connect_method req s =
      let (host, port) = split_host_port req.url (codes "443") in
      elim (stoi (or_default (codes "443") port)) [
        | none ↦ thrown (with_host host s)
        | some n ↦ returned (open_tunnel host port n (with_host host s))
      ]

  -- The request is queued for the user, or forwarded.
  unfoldable pub admit_request : Bool → Bytes → Bytes → ℤ → Session L → Session L
  unfolding forward_request
  admit_request intercepting host port n s =
      let s2 = record s {
        current_transaction = record s.current_transaction { port = n; is_https = false };
        upstream_host = host;
        upstream_port = or_default (codes "80") port;
      } in
      let queued =
        emit (intercept_request s2.current_transaction.id false host (to_u16 n))
          (emit timer_cancel s2) in
      if intercepting then queued else forward_request s2

  -- the rest of it, for a request whose host and port are known
  unfoldable pub route_to : Bool → Bytes → Bytes → Session L → Outcome L
  unfolding admit_request
  route_to intercepting host port s = elim (stoi (or_default (codes "80") port)) [
    | none ↦ thrown (with_host host s)
    | some n ↦ returned (admit_request intercepting host port n (with_host host s))
  ]

  -- a request that is not a `CONNECT`
  unfoldable pub handle_request : Bool → HttpRequest → Session L → Outcome L
  unfolding target split_host_port is_own_host wants_cert route_to send_error_response serve_ca_cert
      serve_burp_help_page
  handle_request intercepting req s =
      let (host, port) = split_host_port (target req) (codes "80") in
      if is_empty (target req)
      then returned (send_error_response env 400 (codes "Bad Request") s)
      else if is_own_host host req.url
      then returned (if wants_cert req.url then serve_ca_cert env s else serve_burp_help_page env s)
      else route_to intercepting host port s

  -- from `takeRequest` on
  unfoldable pub dispatch_request : Bool → HttpRequest → Session L → Outcome L
  unfolding handle_connect_method handle_request
  dispatch_request intercepting req s =
      let s1 = record s {
        current_transaction = record s.current_transaction { id = s.next_id; request = some req };
        next_id = bump s.next_id;
      } in
      if bytes_eq req.method (codes "CONNECT")
      then handle_connect_method req s1
      else handle_request intercepting req s1

  module _ (ll : Llhttp L) where
    -- the parsing branch of `handleClientRead`
    unfoldable pub parse_client_data : Bool → Bytes → Session L → Outcome L
    unfolding dispatch_request
    parse_client_data intercepting input s =
        let s1 = record s { client_data = s.client_data ++ input } in
        let (fed, ready) = feed_request ll s1.request_parser input in
        let (parser, taken) = take_request ll fed in
        let unparsed = record s1 { request_parser = fed } in
        if ready
        then elim taken [
          | none ↦ returned (read_client (record s1 { request_parser = parser }))
          | some req ↦ dispatch_request intercepting req (record s1 { request_parser = parser })
        ]
        else returned (
            if ltb (length s1.client_data) 65536
            then read_client unparsed
            else send_error_response env 400 (codes "Bad Request") unparsed)

    -- `intercepting` is what `isInterceptEnabled()` answers.
    unfoldable pub handle_client_read : Bool → ErrorCode → Bytes → Session L → Outcome L
    unfolding parse_client_data close write_server_blind
    handle_client_read intercepting ec input s =
        let s1 = reset_timer s in
        if failed ec
        then returned (close s)
        else if s.is_connect
        then returned (read_client (write_server_blind input s1))
        else parse_client_data intercepting input s1

    -- the response was taken: report it, and keep or close the connection
    unfoldable pub finish_response : HttpResponse → Session L → Session L
    unfolding keep_alive report close
    finish_response res s =
        let s1 = report env (record s {
          current_transaction = record s.current_transaction { response = some res };
        }) in
        let kept = read_client (record s1 {
          request_parser = reset_request ll;
          response_parser = reset_response ll;
          client_data = [];
          server_data = [];
          current_transaction = empty_transaction;
          is_connect = false;
        }) in
        let last = record s1 { close_after_write = true } in
        if keep_alive s.current_transaction.request res
        then kept
        else (if is_empty s.write_queue then close last else last)

    -- on end of file: a response in `serverData_` is parsed if none was reported
    unfoldable pub flush_response : Session L → Session L
    unfolding report
    flush_response s =
        let (fed, _) = feed_response ll s.response_parser s.server_data in
        let (parser, taken) = take_response ll fed in
        let s1 = record s { response_parser = parser } in
        if not (is_some s.current_transaction.response) && not (is_empty s.server_data)
        then elim taken [
          | none ↦ s1
          | some res ↦ report env (record s1 {
            current_transaction = record s1.current_transaction { response = some res };
          })
        ]
        else s

    unfoldable pub handle_upstream_read : ErrorCode → Bytes → Session L → Session L
    unfolding finish_response flush_response close write_client
    handle_upstream_read ec input s =
        let s1 = write_client input (reset_timer s) in
        let (fed, ready) = feed_response ll s1.response_parser input in
        let (parser, taken) = take_response ll fed in
        let s2 = record s1 { response_parser = parser } in
        if failed ec
        then close (if is_eof ec then flush_response s else s)
        else if s.is_connect
        then read_upstream s1
        else if ready
        then elim taken [ none ↦ read_upstream s2 | some res ↦ finish_response res s2 ]
        else read_upstream (record s1 { response_parser = fed })
