-- ===== src/Proxy/Mitm/Handlers.antt =====
-- The handlers of `MitmSession`, one for each completion of an asynchronous operation, and one
-- function over all that may happen to it. llhttp is a parameter.
use burp_tui.Prelude.{
  Bytes, codes, Bool, true, false, not, none, some, List, [], ◌∷◌, ◌++◌, ◌&&◌, pos, is_empty,
  is_some, length, ltb, if◌then◌else◌,
}
use burp_tui.Http.Message.{HttpRequest, HttpResponse, empty_transaction, serialize_request}
use burp_tui.Http.Parser.{
  Llhttp, reset_request, reset_response, feed_request, feed_response, take_request, take_response,
}
use burp_tui.Proxy.Intercept.{InterceptAction, forward, drop}
use burp_tui.Proxy.Net.{ErrorCode, eof, stream_truncated, failed, is_aborted}
use burp_tui.Proxy.Session.State.{bump}
use burp_tui.Proxy.Session.Handlers.{keep_alive, serialized}
use burp_tui.Proxy.Session.Completions.{pop_front}
use burp_tui.Proxy.Mitm.State.{
  async_connect, async_handshake_client, async_handshake_upstream, async_write_established,
  timer_cancel, intercept_request, MitmSession, Env, emit, close, reset_timer, read_client,
  read_upstream, do_client_write, write_client, do_upstream_write, write_upstream, report,
  send_error_response,
}

abbrev pub ends_stream : ErrorCode → Bool
ends_stream eof = true
ends_stream stream_truncated = true
ends_stream _ = false

module _ {L : Type 0} where
  -- `handleTimeout`
  unfoldable pub handle_timeout : ErrorCode → MitmSession L → MitmSession L
  unfolding close
  handle_timeout ec s = if is_aborted ec then s else close s

  -- `onBothHandshakesComplete` is `readClient`.
  unfoldable pub handle_client_handshake : ErrorCode → MitmSession L → MitmSession L
  unfolding close read_client
  handle_client_handshake ec s =
      let s1 = record s { client_handshake_done = true } in
      if s.is_closed
      then s
      else if failed ec
      then close s
      else if s.upstream_handshake_done
      then read_client s1
      else s1

  unfoldable pub handle_upstream_handshake : ErrorCode → MitmSession L → MitmSession L
  unfolding close read_client
  handle_upstream_handshake ec s =
      let s1 = record s { upstream_handshake_done = true } in
      if s.is_closed
      then s
      else if failed ec
      then close s
      else if s.client_handshake_done
      then read_client s1
      else s1

  unfoldable pub handle_client_write : ErrorCode → MitmSession L → MitmSession L
  unfolding close do_client_write
  handle_client_write ec s =
      let s1 = record s { client_write_queue = pop_front s.client_write_queue } in
      if s.is_closed
      then s
      else if failed ec
      then close s
      else if not (is_empty s1.client_write_queue)
      then do_client_write s1
      else if s.close_after_write
      then close s1
      else s1

  unfoldable pub handle_upstream_write : ErrorCode → MitmSession L → MitmSession L
  unfolding close do_upstream_write read_upstream
  handle_upstream_write ec s =
      let s1 = record s { upstream_write_queue = pop_front s.upstream_write_queue } in
      if s.is_closed
      then s
      else if failed ec
      then close s
      else if is_empty s1.upstream_write_queue
      then read_upstream s1
      else do_upstream_write s1

  -- The user interface edits the waiting request, which it shares with the session.
  unfoldable pub edit_request : HttpRequest → MitmSession L → MitmSession L
  edit_request r s = record s {
    current_transaction = record s.current_transaction { request = some r };
  }

module _ {L : Type 0} (env : Env) where
  abbrev pub bad_gateway : MitmSession L → MitmSession L
  bad_gateway s = send_error_response env 502 (codes "Bad Gateway") s

  -- the callback of `async_resolve`, with `handleUpstreamConnect`
  unfoldable pub handle_resolve : ErrorCode → MitmSession L → MitmSession L
  unfolding send_error_response
  handle_resolve ec s =
      if s.is_closed then s else if failed ec then bad_gateway s else emit async_connect s

  -- The callback of `async_connect`, with `sendEstablishedResponse`. `opened`: whether asio holds
  -- the upstream socket open.
  unfoldable pub handle_connect : ErrorCode → Bool → MitmSession L → MitmSession L
  unfolding send_error_response
  handle_connect ec opened s =
      let s1 = record s { server_open = opened } in
      let established = codes "HTTP/1.1 200 Connection Established" ++ (13 ∷ 10 ∷ 13 ∷ 10 ∷ []) in
      if s.is_closed
      then s
      else if failed ec
      then bad_gateway s1
      else emit (async_write_established established) s1

  unfoldable pub start_tls_handshakes : MitmSession L → MitmSession L
  unfolding close
  start_tls_handshakes s =
      let streams = record s {
        client_stream = true;
        client_open = false;
        upstream_stream = true;
        server_open = false;
      } in
      if s.is_closed
      then s
      else if not env.has_cert_cache
      then close s
      else if not env.has_context
      then close s
      else emit async_handshake_upstream (emit async_handshake_client streams)

  -- the callback of the write of `sendEstablishedResponse`
  unfoldable pub handle_established : ErrorCode → MitmSession L → MitmSession L
  unfolding close start_tls_handshakes
  handle_established ec s =
      if s.is_closed then s else if failed ec then close s else start_tls_handshakes s

  -- The user's decision on an intercepted request, on the session's executor.
  unfoldable pub handle_decision : InterceptAction → MitmSession L → MitmSession L
  unfolding write_upstream send_error_response
  handle_decision a s =
      let s1 = reset_timer s in
      if s.is_closed then s else elim a [
        | forward ↦ write_upstream (serialized s.current_transaction.request) s1
        | drop ↦ send_error_response env 502 (codes "Request Dropped by BurpTUI") s1
      ]

  -- from `takeRequest` on
  unfoldable pub dispatch_request : Bool → HttpRequest → MitmSession L → MitmSession L
  unfolding write_upstream
  dispatch_request intercepting req s =
      let s1 = record s {
        next_id = bump s.next_id;
        current_transaction = record s.current_transaction {
          id = s.next_id;
          host = s.target_host;
          port = pos s.target_port;
          is_https = true;
          request = some req;
        };
      } in
      let held =
        emit (intercept_request s.next_id true s.target_host s.target_port)
          (emit timer_cancel s1) in
      if intercepting then held else write_upstream (serialize_request req) s1

  module _ (ll : Llhttp L) where
    -- the parsing branch of `handleClientRead`
    unfoldable pub parse_client_data : Bool → Bytes → MitmSession L → MitmSession L
    unfolding dispatch_request read_client close
    parse_client_data intercepting input s =
        let s1 = record s { client_accumulated = s.client_accumulated ++ input } in
        let (fed, ready) = feed_request ll s1.client_parser input in
        let (parser, taken) = take_request ll fed in
        let s2 = record s1 { client_parser = parser } in
        let unparsed = record s1 { client_parser = fed } in
        if ready
        then elim taken [ none ↦ read_client s2 | some req ↦ dispatch_request intercepting req s2 ]
        else if ltb (length s1.client_accumulated) 1048576
        then read_client unparsed
        else close unparsed

    -- `intercepting` is what `isInterceptEnabled()` answers.
    unfoldable pub handle_client_read : Bool → ErrorCode → Bytes → MitmSession L → MitmSession L
    unfolding close parse_client_data
    handle_client_read intercepting ec input s =
        if s.is_closed
        then s
        else if failed ec
        then close s
        else parse_client_data intercepting input (reset_timer s)

    -- the response was taken: report it, and keep or close the connection
    unfoldable pub finish_response : HttpResponse → MitmSession L → MitmSession L
    unfolding keep_alive report read_client close
    finish_response res s =
        let s1 = report env (record s {
          current_transaction = record s.current_transaction { response = some res };
        }) in
        let kept = read_client (record s1 {
          client_parser = reset_request ll;
          upstream_parser = reset_response ll;
          client_accumulated = [];
          upstream_accumulated = [];
          current_transaction = empty_transaction;
        }) in
        let last = record s1 { close_after_write = true } in
        if keep_alive s.current_transaction.request res
        then kept
        else (if is_empty s.client_write_queue then close last else last)

    -- on the end of the stream: what came is parsed if no response was reported
    unfoldable pub flush_response : MitmSession L → MitmSession L
    unfolding report
    flush_response s =
        let (fed, _) = feed_response ll s.upstream_parser s.upstream_accumulated in
        let (parser, taken) = take_response ll fed in
        let s1 = record s { upstream_parser = parser } in
        if not (is_some s.current_transaction.response) && not (is_empty s.upstream_accumulated)
        then elim taken [
          | none ↦ s1
          | some res ↦ report env (record s1 {
            current_transaction = record s1.current_transaction { response = some res };
          })
        ]
        else s

    unfoldable pub handle_upstream_read : ErrorCode → Bytes → MitmSession L → MitmSession L
    unfolding finish_response flush_response write_client read_upstream close
    handle_upstream_read ec input s =
        let s0 = write_client input (reset_timer s) in
        let s1 = record s0 { upstream_accumulated = s0.upstream_accumulated ++ input } in
        let (fed, ready) = feed_response ll s1.upstream_parser input in
        let (parser, taken) = take_response ll fed in
        let s2 = record s1 { upstream_parser = parser } in
        if s.is_closed
        then s
        else if failed ec
        then close (if ends_stream ec then flush_response s else s)
        else if ready
        then elim taken [ none ↦ read_upstream s2 | some res ↦ finish_response res s2 ]
        else read_upstream (record s1 { upstream_parser = fed })

-- What may happen to a session. `failure_written` ends the write of an error before the handshake.
pub data Event : Type 0 where
  client_read : (intercepting : Bool) (ec : ErrorCode) (input : Bytes) → Event
  upstream_read : (ec : ErrorCode) (input : Bytes) → Event
  timeout resolved established client_handshake upstream_handshake : ErrorCode → Event
  client_written upstream_written : ErrorCode → Event
  connected : (ec : ErrorCode) (opened : Bool) → Event
  decision : InterceptAction → Event
  failure_written closing : Event

module _ {L : Type 0} (env : Env) (ll : Llhttp L) where
  unfoldable pub step : Event → MitmSession L → MitmSession L
  step (client_read intercepting ec input) s = handle_client_read env ll intercepting ec input s
  step (upstream_read ec input) s = handle_upstream_read env ll ec input s
  step (timeout ec) s = handle_timeout ec s
  step (resolved ec) s = handle_resolve env ec s
  step (established ec) s = handle_established env ec s
  step (client_handshake ec) s = handle_client_handshake ec s
  step (upstream_handshake ec) s = handle_upstream_handshake ec s
  step (client_written ec) s = handle_client_write ec s
  step (upstream_written ec) s = handle_upstream_write ec s
  step (connected ec opened) s = handle_connect env ec opened s
  step (decision a) s = handle_decision env a s
  step failure_written s = close s
  step closing s = close s

  unfoldable pub run : List Event → MitmSession L → MitmSession L
  unfolding step
  run [] s = s
  run (e ∷ es) s = run es (step e s)
