-- ===== src/Proxy/Mitm/Closing.antt =====
-- A closed session does nothing more.
use burp_tui.Prelude.{◌≡◌, refl, ◌∙◌, ap, true, List, [], ◌∷◌, arith}
use burp_tui.Http.Parser.{Llhttp}
use burp_tui.Proxy.Net.{ErrorCode}
use burp_tui.Proxy.Mitm.State.{MitmSession, Env, close}
use burp_tui.Proxy.Mitm.Handlers.{
  Event, client_read, upstream_read, timeout, resolved, established, client_handshake,
  upstream_handshake, client_written, upstream_written, connected, decision, failure_written,
  closing, step, run, handle_client_read, handle_upstream_read, handle_timeout, handle_resolve,
  handle_established, handle_client_handshake, handle_upstream_handshake, handle_client_write,
  handle_upstream_write, handle_connect, handle_decision,
}

module _ {L : Type 0} where
  pub is_closed-close : (s : MitmSession L) → (close s).is_closed ≡ true
  unfolding close
  is_closed-close s = ground arith

  close_closed : (s : MitmSession L) → s.is_closed ≡ true → close s ≡ s
  unfolding close
  close_closed s h = rw h

  timeout_closed :
      (ec : ErrorCode) (s : MitmSession L) → s.is_closed ≡ true → handle_timeout ec s ≡ s
  unfolding handle_timeout
  timeout_closed ec s h = ground (arith, close_closed s)

  module _ (env : Env) (ll : Llhttp L) where
    step_closed : (e : Event) (s : MitmSession L) → s.is_closed ≡ true → step env ll e s ≡ s
    unfolding step
    step_closed (client_read b ec input) s h = unfold handle_client_read in rw h
    step_closed (upstream_read ec input) s h = unfold handle_upstream_read in rw h
    step_closed (timeout ec) s h = timeout_closed ec s h
    step_closed (resolved ec) s h = unfold handle_resolve in rw h
    step_closed (established ec) s h = unfold handle_established in rw h
    step_closed (client_handshake ec) s h = unfold handle_client_handshake in rw h
    step_closed (upstream_handshake ec) s h = unfold handle_upstream_handshake in rw h
    step_closed (client_written ec) s h = unfold handle_client_write in rw h
    step_closed (upstream_written ec) s h = unfold handle_upstream_write in rw h
    step_closed (connected ec opened) s h = unfold handle_connect in rw h
    step_closed (decision a) s h = unfold handle_decision in rw h
    step_closed failure_written s h = close_closed s h
    step_closed closing s h = close_closed s h

    run_closed : (es : List Event) (s : MitmSession L) → s.is_closed ≡ true → run env ll es s ≡ s
    unfolding run
    run_closed [] s h = refl
    run_closed (e ∷ es) s h = ap (run env ll es) (step_closed e s h) ∙ run_closed es s h

    -- Closing a session is final: whatever completes, times out or is decided afterwards, in any
    -- order, its state stays as it is and it asks nothing more of sockets, timer or other parts.
    pub run-close : (es : List Event) (s : MitmSession L) → run env ll es (close s) ≡ close s
    run-close es s = run_closed es (close s) (is_closed-close s)
