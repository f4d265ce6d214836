-- ===== src/Proxy/Session/Completions.antt =====
-- The other handlers of `Session`, and one function over all that may happen to a session.
use burp_tui.Prelude.{
  ℕ, Bytes, codes, Bool, not, some, List, [], ◌∷◌, ◌++◌, ◌&&◌, is_empty, is_some, if◌then◌else◌,
}
use burp_tui.Http.Message.{HttpRequest}
use burp_tui.Http.Parser.{Llhttp}
use burp_tui.Proxy.Intercept.{InterceptAction, forward, drop}
use burp_tui.Proxy.Net.{ErrorCode, failed, is_aborted}
use burp_tui.Proxy.Session.State.{
  async_connect, async_write_upstream, cancel_server, cancel_resolver, Session, Env, Outcome,
  returned, and_then, emit, reset_timer, read_client, read_upstream, close, do_client_write,
  write_client, do_server_write, forward_request,
}
use burp_tui.Proxy.Session.Replies.{send_error_response}
use burp_tui.Proxy.Session.Handlers.{serialized, handle_client_read, handle_upstream_read}

abbrev pub pop_front : List Bytes → List Bytes
pop_front [] = []
pop_front (_ ∷ rest) = rest

module _ {L : Type 0} where
  unfoldable pub handle_client_write : ErrorCode → Session L → Session L
  unfolding close do_client_write
  handle_client_write ec s =
      let s1 = record s { write_queue = pop_front s.write_queue } in
      if failed ec
      then close s
      else if not (is_empty s1.write_queue)
      then do_client_write s1
      else if s.close_after_write
      then close s1
      else s1

  unfoldable pub handle_server_write : ErrorCode → Session L → Session L
  unfolding close do_server_write
  handle_server_write ec s =
      let s1 = record s { write_server_queue = pop_front s.write_server_queue } in
      if not (failed ec)
      then (if is_empty s1.write_server_queue then s1 else do_server_write s1)
      else if is_aborted ec
      then s
      else close s

  -- The user interface edits the waiting request, which it shares with the session.
  unfoldable pub edit_request : HttpRequest → Session L → Session L
  edit_request r s = record s {
    current_transaction = record s.current_transaction { request = some r };
  }

module _ {L : Type 0} (env : Env) where
  abbrev pub bad_gateway : Session L → Session L
  bad_gateway s = send_error_response env 502 (codes "Bad Gateway") s

  -- `handleTimeout`
  unfoldable pub handle_timeout : ErrorCode → Session L → Session L
  unfolding send_error_response close
  handle_timeout ec s =
      let t = s.current_transaction in
      let s1 = emit cancel_resolver s in
      let s2 = if s.server_open then emit cancel_server s1 else s1 in
      if is_aborted ec
      then s
      else if is_some t.request && not (is_some t.response) && not s.is_connect
      then send_error_response env 504 (codes "Gateway Timeout") s2
      else close s

  -- the callback of `async_resolve`; `handleUpstreamConnect` starts the connect
  unfoldable pub handle_resolve : ErrorCode → Session L → Session L
  unfolding send_error_response
  handle_resolve ec s = if failed ec then bad_gateway s else emit async_connect s

  abbrev pub write_upstream : Session L → Session L
  write_upstream s =
      let text = serialized s.current_transaction.request in
      emit (async_write_upstream text) (record s { server_data = text })

  -- The callback of `async_connect`. `opened`: whether asio holds the upstream socket open.
  unfoldable pub handle_connect : ErrorCode → Bool → Session L → Session L
  unfolding send_error_response write_client
  handle_connect ec opened s =
      let s1 = record s { server_open = opened } in
      if failed ec
      then bad_gateway s1
      else if s.is_connect
      then read_upstream (
          read_client (
            write_client (codes "HTTP/1.1 200 Connection Established" ++ (13 ∷ 10 ∷ 13 ∷ 10 ∷ []))
              s1))
      else write_upstream s1

  unfoldable pub handle_upstream_write : ErrorCode → Session L → Session L
  unfolding send_error_response
  handle_upstream_write ec s =
      if failed ec then bad_gateway s else read_upstream (record s { server_data = [] })

  -- The user's decision on an intercepted request, on the session's executor.
  unfoldable pub handle_decision : InterceptAction → Session L → Session L
  unfolding send_error_response forward_request
  handle_decision a s =
      let s1 = reset_timer s in
      if not s.client_open then s else elim a [
        | forward ↦ forward_request s1
        | drop ↦ send_error_response env 502 (codes "Request Dropped by BurpTUI") s1
      ]

-- What may happen to a session. `ids_taken`: other sessions moved the counter.
pub data Event : Type 0 where
  client_read : (intercepting : Bool) (ec : ErrorCode) (input : Bytes) → Event
  upstream_read : (ec : ErrorCode) (input : Bytes) → Event
  timeout resolved upstream_written client_written server_written : ErrorCode → Event
  connected : (ec : ErrorCode) (opened : Bool) → Event
  decision : InterceptAction → Event
  edited : HttpRequest → Event
  ids_taken : ℕ → Event
  closed : Event

module _ {L : Type 0} (env : Env) (ll : Llhttp L) where
  unfoldable pub step : Event → Session L → Outcome L
  step (client_read intercepting ec input) s = handle_client_read env ll intercepting ec input s
  step (upstream_read ec input) s = returned (handle_upstream_read env ll ec input s)
  step (timeout ec) s = returned (handle_timeout env ec s)
  step (resolved ec) s = returned (handle_resolve env ec s)
  step (upstream_written ec) s = returned (handle_upstream_write env ec s)
  step (client_written ec) s = returned (handle_client_write ec s)
  step (server_written ec) s = returned (handle_server_write ec s)
  step (connected ec opened) s = returned (handle_connect env ec opened s)
  step (decision a) s = returned (handle_decision env a s)
  step (edited r) s = returned (edit_request r s)
  step (ids_taken n) s = returned (record s { next_id = n })
  step closed s = returned (close s)

  -- A history. An exception leaves the network thread's loop, so nothing happens after it.
  unfoldable pub run : List Event → Session L → Outcome L
  unfolding step
  run [] s = returned s
  run (e ∷ es) s = and_then (step e s) (run es)
