-- ===== src/Proxy/Session/ExtendsSteps.antt =====
-- The effects of the completions and of whole histories, for any predicate on effects that allows
-- what they do.
use burp_tui.Prelude.{
  ◌≡◌, refl, Bool, not, List, [], ◌∷◌, ◌++◌, ◌&&◌, if◌then◌else◌, Bytes, codes, is_empty, is_some,
}
use burp_tui.Http.Parser.{Llhttp}
use burp_tui.Proxy.Intercept.{InterceptAction, forward, drop}
use burp_tui.Proxy.Net.{ErrorCode, failed, is_aborted}
use burp_tui.Proxy.Session.State.{
  Effect, async_connect, async_read_client, async_read_upstream, async_write_upstream,
  async_resolve, timer_reset, cancel_server, cancel_resolver, Session, Env, Outcome, returned,
  thrown, and_then, emit, reset_timer, read_client, read_upstream, close, write_client,
  forward_request, do_client_write, do_server_write,
}
use burp_tui.Proxy.Session.Replies.{send_error_response}
use burp_tui.Proxy.Session.Handlers.{serialized}
use burp_tui.Proxy.Session.Completions.{
  Event, client_read, upstream_read, timeout, resolved, upstream_written, client_written,
  server_written, connected, decision, edited, ids_taken, closed, step, run, handle_timeout,
  handle_resolve, handle_connect, handle_upstream_write, handle_client_write, handle_server_write,
  handle_decision, bad_gateway, write_upstream, edit_request, pop_front,
}
use burp_tui.Proxy.Session.Extends.{
  Extends, ext_if, Allows, ext_plain, ext_close, ext_do_client_write, ext_write_client,
  ext_do_server_write, ext_send_error_response, ext_forward_request,
}
use burp_tui.Proxy.Session.ExtendsHandlers.{final, ext_handle_client_read, ext_handle_upstream_read}

final-and_then :
    {L : Type 0} {P : Effect → Type 0} {es : List Effect} (o : Outcome L)
    (f : Session L → Outcome L)
    → Extends P es (final o).effects
    → ((s : Session L) → Extends P es s.effects → Extends P es (final (f s)).effects)
    → Extends P es (final (and_then o f)).effects
final-and_then (returned s) f x k = k s x
final-and_then (thrown s) f x k = x

module _ {L : Type 0} {P : Effect → Type 0} {es : List Effect} (a : Allows P) where
  ext_handle_client_write :
      (ec : ErrorCode) (s : Session L)
      → Extends P es s.effects
      → Extends P es (handle_client_write ec s).effects
  unfolding handle_client_write
  ext_handle_client_write ec s x =
      let s1 = record s { write_queue = pop_front s.write_queue } in
      ext_if (failed ec) (close s) _ (ext_close a s x) (
        ext_if (not (is_empty s1.write_queue)) (do_client_write s1) _ (ext_do_client_write a s1 x)
          (ext_if s.close_after_write (close s1) s1 (ext_close a s1 x) x))

  ext_handle_server_write :
      (ec : ErrorCode) (s : Session L)
      → Extends P es s.effects
      → Extends P es (handle_server_write ec s).effects
  unfolding handle_server_write
  ext_handle_server_write ec s x =
      let s1 = record s { write_server_queue = pop_front s.write_server_queue } in
      ext_if (not (failed ec)) _ _
        (ext_if (is_empty s1.write_server_queue) s1 (do_server_write s1) x
          (ext_do_server_write a s1 x))
        (ext_if (is_aborted ec) s (close s) x (ext_close a s x))

  module _ (env : Env) where
    ext_bad_gateway :
        (s : Session L) → Extends P es s.effects → Extends P es (bad_gateway env s).effects
    ext_bad_gateway s x = ext_send_error_response a env 502 (codes "Bad Gateway") s x

    ext_handle_timeout :
        (ec : ErrorCode) (s : Session L)
        → Extends P es s.effects
        → Extends P es (handle_timeout env ec s).effects
    unfolding handle_timeout
    ext_handle_timeout ec s x =
        let t = s.current_transaction in
        let s1 = emit cancel_resolver s in
        let y : Extends P es s1.effects = ext_plain a cancel_resolver s refl x in
        let s2 = if s.server_open then emit cancel_server s1 else s1 in
        ext_if (is_aborted ec) s _ x (
          ext_if (is_some t.request && not (is_some t.response) && not s.is_connect)
            (send_error_response env 504 (codes "Gateway Timeout") s2) (close s)
            (ext_send_error_response a env 504 (codes "Gateway Timeout") s2 (
              ext_if s.server_open (emit cancel_server s1) s1 (ext_plain a cancel_server s1 refl y)
                y))
            (ext_close a s x))

    ext_handle_resolve :
        (ec : ErrorCode) (s : Session L)
        → Extends P es s.effects
        → Extends P es (handle_resolve env ec s).effects
    unfolding handle_resolve
    ext_handle_resolve ec s x =
        ext_if (failed ec) (bad_gateway env s) (emit async_connect s) (ext_bad_gateway s x)
          (ext_plain a async_connect s refl x)

    ext_handle_connect :
        (ec : ErrorCode) (opened : Bool) (s : Session L)
        → Extends P es s.effects
        → Extends P es (handle_connect env ec opened s).effects
    unfolding handle_connect
    ext_handle_connect ec opened s x =
        let s1 = record s { server_open = opened } in
        let established = codes "HTTP/1.1 200 Connection Established" ++ (13 ∷ 10 ∷ 13 ∷ 10 ∷ []) in
        let s2 = write_client established s1 in
        ext_if (failed ec) (bad_gateway env s1) _ (ext_bad_gateway s1 x) (
          ext_if s.is_connect (read_upstream (read_client s2)) (write_upstream env s1)
            (ext_plain a async_read_upstream (read_client s2) refl
              (ext_plain a async_read_client s2 refl (ext_write_client a established s1 x)))
            (ext_plain a (async_write_upstream (serialized s.current_transaction.request)) s1 refl
              x))

    ext_handle_upstream_write :
        (ec : ErrorCode) (s : Session L)
        → Extends P es s.effects
        → Extends P es (handle_upstream_write env ec s).effects
    unfolding handle_upstream_write
    ext_handle_upstream_write ec s x =
        let s1 = record s { server_data = [] } in
        ext_if (failed ec) (bad_gateway env s) (read_upstream s1) (ext_bad_gateway s x)
          (ext_plain a async_read_upstream s1 refl x)

    -- A decision to drop resolves no host.
    pub ext_handle_decision :
        (d : InterceptAction) (s : Session L)
        → (d ≡ forward → (h p : Bytes) → P (async_resolve h p))
        → Extends P es s.effects
        → Extends P es (handle_decision env d s).effects
    unfolding handle_decision
    ext_handle_decision forward s r x =
        let s1 = reset_timer s in
        ext_if (not s.client_open) s (forward_request s1) x
          (ext_forward_request a s1 (r refl) (ext_plain a timer_reset s refl x))
    ext_handle_decision drop s r x =
        let s1 = reset_timer s in
        ext_if (not s.client_open) s _ x (
          ext_send_error_response a env 502 (codes "Request Dropped by BurpTUI") s1
            (ext_plain a timer_reset s refl x))

    module _ (ll : Llhttp L) (r : (h p : Bytes) → P (async_resolve h p)) where
      pub ext_step :
          (e : Event) (s : Session L)
          → Extends P es s.effects
          → Extends P es (final (step env ll e s)).effects
      unfolding step edit_request
      ext_step (client_read b ec input) s x = ext_handle_client_read a env ll r b ec input s x
      ext_step (upstream_read ec input) s x = ext_handle_upstream_read a env ll r ec input s x
      ext_step (timeout ec) s x = ext_handle_timeout ec s x
      ext_step (resolved ec) s x = ext_handle_resolve ec s x
      ext_step (upstream_written ec) s x = ext_handle_upstream_write ec s x
      ext_step (client_written ec) s x = ext_handle_client_write ec s x
      ext_step (server_written ec) s x = ext_handle_server_write ec s x
      ext_step (connected ec opened) s x = ext_handle_connect ec opened s x
      ext_step (decision d) s x = ext_handle_decision d s (λ _. r) x
      ext_step (edited q) s x = x
      ext_step (ids_taken n) s x = x
      ext_step closed s x = ext_close a s x

      pub ext_run :
          (events : List Event) (s : Session L)
          → Extends P es s.effects
          → Extends P es (final (run env ll events s)).effects
      unfolding run
      ext_run [] s x = x
      ext_run (e ∷ events) s x =
          final-and_then (step env ll e s) (run env ll events) (ext_step e s x) (ext_run events)
