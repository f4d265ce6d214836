-- ===== src/Proxy/Session/Tests.antt =====
-- A session over a stand-in for llhttp that finds one request in any input, and the theorems at
-- concrete inputs.
use burp_tui.Prelude.{
  ℕ, ◌≡◌, refl, codes, true, false, [], ◌∷◌, ◌++◌, All, take, bytes_eq, stoi, find, to_lower,
  ends_with, some, pos,
}
use burp_tui.Http.Message.{HttpRequest, empty_request, header}
use burp_tui.Http.Parser.{
  on_url, on_header_field, on_header_value, on_message_complete, hpe_ok, Llhttp, request_callbacks,
  feed_request, take_request,
}
use burp_tui.Proxy.Intercept.{forward, drop}
use burp_tui.Proxy.Net.{success}
use burp_tui.Proxy.Session.State.{Env, new_session, start, timer_cancel, intercept_request}
use burp_tui.Proxy.Session.Handlers.{dispatch_request, handle_client_read}
use burp_tui.Proxy.Session.Completions.{client_read, decision, run, handle_decision}
use burp_tui.Proxy.Session.ExtendsHandlers.{final}
use burp_tui.Proxy.Session.Reports.{IsAnswered, run-IsAnswered, resolutions, held_until_decision}
use burp_tui.Proxy.Session.Route.{target, is_own_host, split_host_port}
use burp_tui.Proxy.Session.Throws.{is_thrown, dispatch_throws}
use burp_tui.Proxy.Session.WriteOrder.{sent, push, complete, write_ops, write_order}

abbrev toy : Llhttp ℕ
toy = record {
  init_request = 0;
  init_response = 0;
  execute = λ l input. (
    l,
    on_url input
        ∷ on_header_field (codes "Host")
        ∷ on_header_value (codes "example.com:8080")
        ∷ on_message_complete (codes "GET") 1 1 0
        ∷ [],
    hpe_ok,
  );
}

abbrev env : Env
env = record {
  has_on_transaction = true;
  has_cert_cache = false;
  ca_pem = [];
  ca_file = [];
  ca_cert_path = codes "./ca/ca.crt";
}

forwarded :
    resolutions
      (final (
        run env toy
          (client_read false success (codes "/a") ∷ [])
          (start (new_session toy 1)))).effects
    ≡ (codes "example.com", codes "8080") ∷ []
unfolding run start handle_client_read feed_request take_request request_callbacks header find stoi
    bytes_eq to_lower ends_with
forwarded = refl

run-IsAnswered_example :
    All IsAnswered
      (final (
        run env toy
          (client_read true success (codes "/a") ∷ decision drop ∷ [])
          (start (new_session toy 1)))).effects
run-IsAnswered_example =
    run-IsAnswered env toy 1 (client_read true success (codes "/a") ∷ decision drop ∷ [])

abbrev get_request : HttpRequest
get_request = record empty_request {
  method = codes "GET";
  url = codes "/a";
  headers = (codes "Host", codes "example.com") ∷ [];
}

held_until_decision_example :
    let held = final (dispatch_request env true get_request (new_session toy 1)) in
    (held.effects ≡ timer_cancel ∷ intercept_request 1 false (codes "example.com") 80 ∷ [])
    × (held.current_transaction.request ≡ some get_request)
    × (resolutions (handle_decision env drop held).effects ≡ [])
    × (resolutions (handle_decision env forward held).effects
        ≡ (codes "example.com", codes "80") ∷ [])
unfolding header find stoi bytes_eq to_lower ends_with target is_own_host split_host_port
held_until_decision_example =
    held_until_decision env get_request (new_session toy 1) (codes "example.com") (codes "80")
      (pos 80) refl refl refl refl refl refl

write_order_example :
    ((write_ops (new_session toy 1) [] (push (codes "a") ∷ push (codes "b") ∷ complete ∷ [])).1
        ++ (write_ops
            (new_session toy 1)
            []
            (push (codes "a") ∷ push (codes "b") ∷ complete ∷ [])).0.write_queue
      ≡ codes "a" ∷ codes "b" ∷ [])
    × (sent
          (write_ops
            (new_session toy 1)
            []
            (push (codes "a") ∷ push (codes "b") ∷ complete ∷ [])).0.effects
        ≡ (write_ops (new_session toy 1) [] (push (codes "a") ∷ push (codes "b") ∷ complete ∷ [])).1
          ++ take 1
              (write_ops
                (new_session toy 1)
                []
                (push (codes "a") ∷ push (codes "b") ∷ complete ∷ [])).0.write_queue)
write_order_example =
    write_order (new_session toy 1) (push (codes "a") ∷ push (codes "b") ∷ complete ∷ []) refl refl

-- a port that is out of range
abbrev far_request : HttpRequest
far_request = record empty_request {
  method = codes "GET";
  url = codes "/a";
  headers = (codes "Host", codes "a:99999999999") ∷ [];
}

dispatch_throws_example :
    is_thrown (dispatch_request env false far_request (new_session toy 1)) ≡ true
unfolding header find stoi bytes_eq to_lower ends_with target is_own_host split_host_port
dispatch_throws_example = dispatch_throws env false far_request (new_session toy 1)
