-- ===== src/Proxy/Session/State.antt =====
-- The state of a session and the operations that all handlers share.
--
-- A session is a record of the fields of the class. What a handler asks of asio and of the other
-- components is an `Effect`, appended to `effects` in the order of the calls. The log is not
-- modelled. `client_open` and `server_open` are `is_open()` of the two sockets. `next_id` is the
-- counter that all sessions share, a bit pattern of 32 bits.
use burp_tui.Prelude.{
  ℕ, ◌+◌, ◌%◌, ◌^◌, Bytes, Bool, true, false, List, [], ◌∷◌, ◌++◌, ◌==◌, is_empty, if◌then◌else◌,
}
use burp_tui.Http.Message.{HttpTransaction, empty_transaction}
use burp_tui.Http.Parser.{Llhttp, RequestParser, ResponseParser, reset_request, reset_response}

pub data Effect : Type 0 where
  -- asynchronous operations that were started; the data is what the write sends
  async_read_client async_read_upstream async_connect : Effect
  async_write_client async_write_upstream async_write_server : Bytes → Effect
  async_resolve : (host port : Bytes) → Effect
  -- timer, sockets and resolver
  timer_reset timer_cancel shutdown_client shutdown_server cancel_server cancel_resolver : Effect
  -- calls of other components
  on_transaction : HttpTransaction → Effect
  remove_pending : ℕ → Effect
  intercept_request : (id : ℕ) (is_https : Bool) (host : Bytes) (port : ℕ) → Effect
  start_mitm : (host : Bytes) (port : ℕ) → Effect

pub record Session (L : Type 0) : Type 0 where
  pub client_open : Bool
  pub server_open : Bool
  pub next_id : ℕ
  pub request_parser : RequestParser L
  pub response_parser : ResponseParser L
  pub client_data : Bytes
  pub server_data : Bytes
  pub write_queue : List Bytes
  pub write_server_queue : List Bytes
  pub upstream_host : Bytes
  pub upstream_port : Bytes
  pub current_transaction : HttpTransaction
  pub is_connect : Bool
  pub close_after_write : Bool
  pub effects : List Effect

-- What a session is given: whether there is a transaction callback and a certificate cache, and
-- where its CA certificate can be read, in memory and on disk.
pub record Env : Type 0 where
  pub has_on_transaction : Bool
  pub has_cert_cache : Bool
  pub ca_pem : Bytes
  pub ca_file : Bytes
  pub ca_cert_path : Bytes

-- A handler returns, or an exception leaves it.
pub data Outcome (L : Type 0) : Type 0 where
  returned thrown : Session L → Outcome L

-- An exception ends a handler, and what would come after it.
abbrev pub and_then : {L : Type 0} → Outcome L → (Session L → Outcome L) → Outcome L
and_then (returned s) f = f s
and_then (thrown s) f = thrown s

-- the constructor
abbrev pub new_session : {L : Type 0} → Llhttp L → ℕ → Session L
new_session ll next = record {
  client_open = true;
  server_open = false;
  next_id = next;
  request_parser = reset_request ll;
  response_parser = reset_response ll;
  client_data = [];
  server_data = [];
  write_queue = [];
  write_server_queue = [];
  upstream_host = [];
  upstream_port = [];
  current_transaction = empty_transaction;
  is_connect = false;
  close_after_write = false;
  effects = [];
}

-- `counter++` on 32 bits
abbrev pub bump : ℕ → ℕ
bump n = (n + 1) % 2 ^ 32

module _ {L : Type 0} where
  abbrev pub emit : Effect → Session L → Session L
  emit e s = record s { effects = s.effects ++ e ∷ [] }

  abbrev pub reset_timer : Session L → Session L
  reset_timer s = emit timer_reset s

  abbrev pub read_client : Session L → Session L
  read_client s = emit async_read_client s

  abbrev pub read_upstream : Session L → Session L
  read_upstream s = emit async_read_upstream s

  unfoldable pub start : Session L → Session L
  start s = read_client (reset_timer s)

  abbrev pub withdraw : Session L → Session L
  withdraw s =
      if s.current_transaction.id == 0 then s else emit (remove_pending s.current_transaction.id) s

  abbrev pub close_client : Session L → Session L
  close_client s =
      if s.client_open then record (emit shutdown_client s) { client_open = false } else s

  abbrev pub close_server : Session L → Session L
  close_server s =
      if s.server_open then record (emit shutdown_server s) { server_open = false } else s

  unfoldable pub close : Session L → Session L
  close s = close_server (close_client (withdraw (emit timer_cancel s)))

  -- `async_write` of the front of the queue
  unfoldable pub do_client_write : Session L → Session L
  do_client_write s = elim s.write_queue [ [] ↦ s | b ∷ _ ↦ emit (async_write_client b) s ]

  unfoldable pub write_client : Bytes → Session L → Session L
  unfolding do_client_write
  write_client b s =
      let s' = record s { write_queue = s.write_queue ++ b ∷ [] } in
      if is_empty s.write_queue then do_client_write s' else s'

  unfoldable pub do_server_write : Session L → Session L
  do_server_write s = elim s.write_server_queue [ [] ↦ s | b ∷ _ ↦ emit (async_write_server b) s ]

  unfoldable pub write_server_blind : Bytes → Session L → Session L
  unfolding do_server_write
  write_server_blind b s =
      let s' = record s { write_server_queue = s.write_server_queue ++ b ∷ [] } in
      if is_empty s.write_server_queue then do_server_write s' else s'

  unfoldable pub connect_upstream : Session L → Session L
  connect_upstream s = emit (async_resolve s.upstream_host s.upstream_port) s

  -- `forwardRequest`: any old upstream socket is closed and replaced by a new, closed one.
  unfoldable pub forward_request : Session L → Session L
  unfolding connect_upstream
  forward_request s =
      let s' = record (close_server s) { server_open = false } in
      if s.client_open then connect_upstream s' else s

  -- `if (onTransaction_) onTransaction_(currentTransaction_)`
  unfoldable pub report : Env → Session L → Session L
  report env s = if env.has_on_transaction then emit (on_transaction s.current_transaction) s else s
