-- ===== src/Proxy/Mitm/Handshake.antt =====
-- The two TLS handshakes, which run at once.
use burp_tui.Prelude.{◌≡◌, true, false, [], ◌∷◌, ◌++◌, arith}
use burp_tui.Http.Parser.{Llhttp}
use burp_tui.Proxy.Net.{ErrorCode, success, failed}
use burp_tui.Proxy.Mitm.State.{MitmSession, Env, async_read_client, read_client}
use burp_tui.Proxy.Mitm.Closing.{is_closed-close}
use burp_tui.Proxy.Mitm.Handlers.{
  client_handshake, upstream_handshake, step, run, handle_client_handshake,
  handle_upstream_handshake,
}

module _ {L : Type 0} (env : Env) (ll : Llhttp L) (s : MitmSession L) where
  abbrev both_done : MitmSession L
  both_done = record s {
    client_handshake_done = true;
    upstream_handshake_done = true;
    effects = s.effects ++ async_read_client ∷ [];
  }

  -- In an open session that waits for both handshakes: when both succeed, in either order, the
  -- session reads from the client exactly once; after the first of them alone it has started
  -- nothing; and if one fails while the session is open, the session is closed.
  pub handshakes_join :
      (ec : ErrorCode)
      → s.is_closed ≡ false
      → s.client_handshake_done ≡ false
      → s.upstream_handshake_done ≡ false
      → (run env ll (client_handshake success ∷ upstream_handshake success ∷ []) s ≡ both_done)
        × (run env ll (upstream_handshake success ∷ client_handshake success ∷ []) s ≡ both_done)
        × ((step env ll (client_handshake success) s).effects ≡ s.effects)
        × ((step env ll (upstream_handshake success) s).effects ≡ s.effects)
        × (failed ec ≡ true
            → ((step env ll (client_handshake ec) s).is_closed ≡ true)
              × ((step env ll (upstream_handshake ec) s).is_closed ≡ true))
  unfolding run handle_client_handshake handle_upstream_handshake read_client
  handshakes_join ec active cl up = (
    ground arith,
    ground arith,
    ground arith,
    ground arith,
    λ f. (ground (arith, is_closed-close s), ground (arith, is_closed-close s)),
  )
