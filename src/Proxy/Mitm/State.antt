-- ===== src/Proxy/Mitm/State.antt =====
-- The state of a MITM session and the operations that its handlers share.
--
-- The model is built as that of a plain session: a record of the fields of the class, and the
-- calls of asio and of other components as effects. `client_open` and `server_open` are
-- `is_open()` of the raw sockets; `client_stream` and `upstream_stream` say whether the TLS
-- streams exist, which take the sockets over. TLS itself, the SNI and ALPN settings and the log
-- are not modelled. Of each of its two parsers the session uses one half.
use burp_tui.Prelude.{
  ℕ, Bytes, codes, Bool, true, false, some, List, [], ◌∷◌, ◌++◌, ◌==◌, ◌&&◌, is_empty, to_string,
  if◌then◌else◌,
}
use burp_tui.Http.Message.{HttpTransaction, empty_transaction, empty_response, crlf}
use burp_tui.Http.Parser.{Llhttp, RequestParser, ResponseParser, reset_request, reset_response}

pub data Effect : Type 0 where
  async_connect async_handshake_client async_handshake_upstream : Effect
  async_read_client async_read_upstream : Effect
  async_resolve : (host : Bytes) (port : ℕ) → Effect
  -- the two writes before the handshakes, and those on the streams
  async_write_established async_write_failure async_write_client async_write_upstream :
      Bytes → Effect
  timer_reset timer_cancel shutdown_client shutdown_upstream : Effect
  on_transaction : HttpTransaction → Effect
  remove_pending : ℕ → Effect
  intercept_request : (id : ℕ) (is_https : Bool) (host : Bytes) (port : ℕ) → Effect

pub record MitmSession (L : Type 0) : Type 0 where
  pub client_open : Bool
  pub server_open : Bool
  pub client_stream : Bool
  pub upstream_stream : Bool
  pub target_host : Bytes
  pub target_port : ℕ
  pub next_id : ℕ
  pub client_handshake_done : Bool
  pub upstream_handshake_done : Bool
  pub is_closed : Bool
  pub client_parser : RequestParser L
  pub upstream_parser : ResponseParser L
  pub client_accumulated : Bytes
  pub upstream_accumulated : Bytes
  pub client_write_queue : List Bytes
  pub upstream_write_queue : List Bytes
  pub current_transaction : HttpTransaction
  pub close_after_write : Bool
  pub effects : List Effect

-- Whether there is a transaction callback and a certificate cache, and whether the cache gives an
-- SSL context for the target host.
pub record Env : Type 0 where
  pub has_on_transaction : Bool
  pub has_cert_cache : Bool
  pub has_context : Bool

-- the constructor
abbrev pub new_mitm : {L : Type 0} → Llhttp L → Bytes → ℕ → ℕ → MitmSession L
new_mitm ll host port next = record {
  client_open = true;
  server_open = false;
  client_stream = false;
  upstream_stream = false;
  target_host = host;
  target_port = port;
  next_id = next;
  client_handshake_done = false;
  upstream_handshake_done = false;
  is_closed = false;
  client_parser = reset_request ll;
  upstream_parser = reset_response ll;
  client_accumulated = [];
  upstream_accumulated = [];
  client_write_queue = [];
  upstream_write_queue = [];
  current_transaction = empty_transaction;
  close_after_write = false;
  effects = [];
}

module _ {L : Type 0} where
  abbrev pub emit : Effect → MitmSession L → MitmSession L
  emit e s = record s { effects = s.effects ++ e ∷ [] }

  abbrev pub unless_closed : (MitmSession L → MitmSession L) → MitmSession L → MitmSession L
  unless_closed f s = if s.is_closed then s else f s

  abbrev withdraw : MitmSession L → MitmSession L
  withdraw s =
      if s.current_transaction.id == 0 then s else emit (remove_pending s.current_transaction.id) s

  abbrev close_client : MitmSession L → MitmSession L
  close_client s =
      if s.client_stream
      then emit shutdown_client s
      else if s.client_open
      then record (emit shutdown_client s) { client_open = false }
      else s

  abbrev close_upstream : MitmSession L → MitmSession L
  close_upstream s =
      if s.upstream_stream
      then emit shutdown_upstream s
      else if s.server_open
      then record (emit shutdown_upstream s) { server_open = false }
      else s

  abbrev close_now : MitmSession L → MitmSession L
  close_now s =
      close_upstream (close_client (emit timer_cancel (withdraw (record s { is_closed = true }))))

  unfoldable pub close : MitmSession L → MitmSession L
  close s = unless_closed close_now s

  abbrev pub reset_timer : MitmSession L → MitmSession L
  reset_timer s = emit timer_reset s

  -- `start`, with `connectUpstream`
  unfoldable pub start : MitmSession L → MitmSession L
  start s = emit (async_resolve s.target_host s.target_port) (reset_timer s)

  unfoldable pub read_client : MitmSession L → MitmSession L
  read_client s = unless_closed (emit async_read_client) s

  unfoldable pub read_upstream : MitmSession L → MitmSession L
  read_upstream s = unless_closed (emit async_read_upstream) s

  unfoldable pub do_client_write : MitmSession L → MitmSession L
  do_client_write s = elim s.client_write_queue [
    | [] ↦ s
    | b ∷ _ ↦ unless_closed (emit (async_write_client b)) s
  ]

  unfoldable pub write_client : Bytes → MitmSession L → MitmSession L
  unfolding do_client_write
  write_client b s =
      let s' = record s { client_write_queue = s.client_write_queue ++ b ∷ [] } in
      if s.is_closed then s else if is_empty s.client_write_queue then do_client_write s' else s'

  unfoldable pub do_upstream_write : MitmSession L → MitmSession L
  do_upstream_write s = elim s.upstream_write_queue [
    | [] ↦ s
    | b ∷ _ ↦ unless_closed (emit (async_write_upstream b)) s
  ]

  unfoldable pub write_upstream : Bytes → MitmSession L → MitmSession L
  unfolding do_upstream_write
  write_upstream b s =
      let s' = record s { upstream_write_queue = s.upstream_write_queue ++ b ∷ [] } in
      if s.is_closed
      then s
      else if is_empty s.upstream_write_queue
      then do_upstream_write s'
      else s'

  unfoldable pub report : Env → MitmSession L → MitmSession L
  report env s = if env.has_on_transaction then emit (on_transaction s.current_transaction) s else s

unfoldable pub error_text : ℕ → Bytes → Bytes
error_text code text =
    codes "HTTP/1.1 "
    ++ (to_string code
        ++ (codes " "
            ++ (text
                ++ (crlf
                    ++ (codes "Content-Length: 0"
                        ++ (crlf ++ (codes "Connection: close" ++ (crlf ++ crlf))))))))

module _ {L : Type 0} (env : Env) where
  unfoldable pub send_error_response : ℕ → Bytes → MitmSession L → MitmSession L
  unfolding report write_client error_text
  send_error_response code text s =
      let res = record empty_response {
        version = codes "HTTP/1.1";
        status_code = code;
        status_text = text;
      } in
      let s1 = report env (record s {
        close_after_write = true;
        current_transaction = record s.current_transaction { response = some res };
      }) in
      if s.is_closed
      then s
      else if s.client_handshake_done && s.client_stream
      then write_client (error_text code text) s1
      else emit (async_write_failure (error_text code text)) s1
