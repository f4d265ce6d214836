-- ===== src/Proxy/Mitm/Tests.antt =====
-- A MITM session over a stand-in for llhttp that finds one request in any input, and the theorems
-- at concrete inputs.
use burp_tui.Prelude.{ℕ, ◌≡◌, refl, codes, true, [], ◌∷◌}
use burp_tui.Http.Message.{HttpRequest, empty_request, serialize_request}
use burp_tui.Http.Parser.{
  on_url, on_message_complete, hpe_ok, Llhttp, request_callbacks, feed_request, take_request,
}
use burp_tui.Proxy.Intercept.{forward, drop}
use burp_tui.Proxy.Net.{success, other_error, failed}
use burp_tui.Proxy.Mitm.State.{
  async_read_client, timer_cancel, timer_reset, intercept_request, MitmSession, Env, new_mitm,
  close,
}
use burp_tui.Proxy.Mitm.Handlers.{
  client_read, client_handshake, upstream_handshake, decision, step, run, dispatch_request,
  edit_request, handle_decision, handle_client_read,
}
use burp_tui.Proxy.Mitm.Closing.{run-close}
use burp_tui.Proxy.Mitm.Handshake.{handshakes_join}
use burp_tui.Proxy.Mitm.Editing.{sent_upstream, held_edited_sent}

abbrev toy : Llhttp ℕ
toy = record {
  init_request = 0;
  init_response = 0;
  execute = λ l input. (l, on_url input ∷ on_message_complete (codes "GET") 1 1 0 ∷ [], hpe_ok);
}

abbrev env : Env
env = record { has_on_transaction = true; has_cert_cache = true; has_context = true }

abbrev session : MitmSession ℕ
session = new_mitm toy (codes "a.com") 443 7

abbrev get_request : HttpRequest
get_request = record empty_request { method = codes "GET"; url = codes "/a" }

abbrev edited_request : HttpRequest
edited_request = record empty_request { method = codes "POST"; url = codes "/b" }

-- a request of a client is held under the session's next id
held :
    (run env toy (client_read true success (codes "/a") ∷ []) session).effects
    ≡ timer_reset ∷ timer_cancel ∷ intercept_request 7 true (codes "a.com") 443 ∷ []
unfolding run feed_request take_request request_callbacks handle_client_read
held = refl

run-close_example :
    run env toy (client_read true success (codes "/a") ∷ decision forward ∷ []) (close session)
    ≡ close session
run-close_example =
    run-close env toy (client_read true success (codes "/a") ∷ decision forward ∷ []) session

handshakes_join_example :
    (run env toy (client_handshake success ∷ upstream_handshake success ∷ []) session
      ≡ record session {
        client_handshake_done = true;
        upstream_handshake_done = true;
        effects = async_read_client ∷ [];
      })
    × (run env toy (upstream_handshake success ∷ client_handshake success ∷ []) session
        ≡ record session {
          client_handshake_done = true;
          upstream_handshake_done = true;
          effects = async_read_client ∷ [];
        })
    × ((step env toy (client_handshake success) session).effects ≡ [])
    × ((step env toy (upstream_handshake success) session).effects ≡ [])
    × (failed other_error ≡ true
        → ((step env toy (client_handshake other_error) session).is_closed ≡ true)
          × ((step env toy (upstream_handshake other_error) session).is_closed ≡ true))
handshakes_join_example = handshakes_join env toy session other_error refl refl refl

held_edited_sent_example :
    ((dispatch_request env true get_request session).effects
      ≡ timer_cancel ∷ intercept_request 7 true (codes "a.com") 443 ∷ [])
    × (sent_upstream
          (handle_decision env forward
            (edit_request edited_request (dispatch_request env true get_request session))).effects
        ≡ serialize_request edited_request ∷ [])
    × (sent_upstream
          (handle_decision env drop (dispatch_request env true get_request session)).effects
        ≡ [])
held_edited_sent_example = held_edited_sent env session get_request edited_request refl refl
