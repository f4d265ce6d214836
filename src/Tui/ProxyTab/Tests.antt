-- ===== src/Tui/ProxyTab/Tests.antt =====
-- A waiting request, drawn and forwarded.
use burp_tui.Prelude.{ℕ, ◌≡◌, refl, codes, Bool, true, false, none, some, [], ◌∷◌}
use burp_tui.Http.Message.{HttpRequest, empty_request}
use burp_tui.Http.Raw.{normalized, with_crlf}
use burp_tui.Proxy.Intercept.{InterceptedRequest, InterceptManager, decided, forward}
use burp_tui.Tui.Formatter.{format_http_request_raw}
use burp_tui.Tui.ProxyTab.{new_tab, forward_button, draw}
use burp_tui.Tui.ProxyTab.Forwarded.{assigned_text, draw-forward_button}

abbrev request : HttpRequest
request = record empty_request { method = codes "GET"; url = codes "/" }

abbrev item : ℕ → InterceptedRequest HttpRequest Bool
item n = record {
  id = n;
  is_https = false;
  host = codes "a";
  port = 80;
  request = request;
  on_decision = some true;
}

abbrev manager : InterceptManager HttpRequest Bool Bool
manager = record { intercept_enabled = true; queue = []; notify_callback = none }

draw-forward_button_example :
    let waiting : InterceptManager HttpRequest Bool Bool = record manager {
      queue = item 3 ∷ item 4 ∷ [];
    } in
    let r = forward_button (draw waiting [] new_tab) waiting in
    (r.0.queue ≡ item 4 ∷ [])
    × (r.1 ≡ decided true forward ∷ [])
    × (assigned_text r.2
        ≡ some (normalized (with_crlf (format_http_request_raw request (codes "a")))))
    × (forward_button new_tab manager ≡ (manager, [], none))
draw-forward_button_example =
    draw-forward_button manager [] new_tab (item 3) (item 4 ∷ []) true refl refl refl
