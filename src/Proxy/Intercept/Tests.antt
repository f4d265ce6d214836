-- ===== src/Proxy/Intercept/Tests.antt =====
-- Runs of the queue at concrete histories, and its theorems there.
use burp_tui.Prelude.{ℕ, ◌≡◌, ◌+◌, refl, codes, true, false, some, List, [], ◌∷◌, ◌++◌}
use burp_tui.Proxy.Intercept.{
  forward, drop, InterceptedRequest, decided, notified, instance_init, Call, enabling, intercepting,
  forwarding, dropping, setting_callback, step, run, set_intercept_enabled, intercept_request,
  decide_current, set_notify_callback,
}
use burp_tui.Proxy.Intercept.Fifo.{answered, waiting, run-conserves}

abbrev request : ℕ → InterceptedRequest ℕ ℕ
request n = record {
  id = n;
  is_https = false;
  host = codes "example.com";
  port = 80;
  request = n;
  on_decision = some (100 + n);
}

abbrev history : List (Call ℕ ℕ ℕ)
history =
    setting_callback (some 7)
    ∷ enabling true
    ∷ intercepting (request 1)
    ∷ intercepting (request 2)
    ∷ intercepting (request 3)
    ∷ dropping
    ∷ forwarding
    ∷ []

calls_in_history :
    (run instance_init history).1
    ≡ notified 7
      ∷ notified 7
      ∷ notified 7
      ∷ notified 7
      ∷ decided 101 drop
      ∷ notified 7
      ∷ decided 102 forward
      ∷ notified 7
      ∷ []
unfolding run step set_intercept_enabled intercept_request decide_current set_notify_callback
calls_in_history = refl

run-conserves_example :
    answered (run instance_init history).1 ++ waiting (run instance_init history).0.queue
    ≡ 101 ∷ 102 ∷ 103 ∷ []
run-conserves_example = run-conserves instance_init history tt
