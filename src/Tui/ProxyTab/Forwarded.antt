-- ===== src/Tui/ProxyTab/Forwarded.antt =====
-- What the Forward button sends: the editor, the formatter, the parser and the queue together.
use burp_tui.Prelude.{
  ◌≡◌, refl, ap, ◌∙◌, Bytes, true, false, Option, none, some, List, [], ◌∷◌, ◌==◌,
}
use burp_tui.Http.Message.{HttpRequest, HttpTransaction, serialize_request}
use burp_tui.Http.Raw.{parse_raw_http_request, normalized, with_crlf}
use burp_tui.Http.Raw.Sent.{normalized_sent}
use burp_tui.Proxy.Intercept.{
  InterceptedRequest, InterceptManager, peek_current, decide_current, notify, decided, forward,
}
use burp_tui.Tui.TextEditor.{set_text, get_text}
use burp_tui.Tui.TextEditor.Text.{get_text-set_text}
use burp_tui.Tui.Formatter.{format_http_request_raw}
use burp_tui.Tui.ProxyTab.{ProxyTab, forward_button, load_waiting, draw}

-- the request that is assigned, as its session serialises it
abbrev pub assigned_text : Option HttpRequest → Option Bytes
assigned_text none = none
assigned_text (some r) = some (serialize_request r)

module _ {K N : Type 0} where
  loaded :
      (m : InterceptManager HttpRequest K N) (entries : List HttpTransaction) (tab : ProxyTab)
      (item : InterceptedRequest HttpRequest K) (rest : List (InterceptedRequest HttpRequest K))
      → m.intercept_enabled ≡ true
      → (item.id == tab.last_intercept_id) ≡ false
      → (draw (record m { queue = item ∷ rest }) entries tab).editor
        ≡ set_text (format_http_request_raw item.request item.host) tab.editor
  unfolding draw load_waiting peek_current
  loaded m entries tab item rest on fresh = rw (on, fresh) refl

  -- The request at the head of the queue is drawn for the first time, with interception on, and
  -- then forwarded without an edit: the head leaves the queue, the others stay in order, its
  -- decision callback is called with Forward before the interface is told, and its session then
  -- sends the text that the tab shows of the request, with every line end as `\r\n`, normalised.
  -- With an empty queue nothing is assigned, called or changed.
  pub draw-forward_button :
      (m : InterceptManager HttpRequest K N) (entries : List HttpTransaction) (tab : ProxyTab)
      (item : InterceptedRequest HttpRequest K) (rest : List (InterceptedRequest HttpRequest K))
      (k : K)
      → m.intercept_enabled ≡ true
      → item.on_decision ≡ some k
      → (item.id == tab.last_intercept_id) ≡ false
      → let shown = format_http_request_raw item.request item.host in
        let waiting : InterceptManager HttpRequest K N = record m { queue = item ∷ rest } in
        let r = forward_button (draw waiting entries tab) waiting in
        (r.0.queue ≡ rest)
        × (r.1 ≡ decided k forward ∷ notify m)
        × (assigned_text r.2 ≡ some (normalized (with_crlf shown)))
        × (forward_button tab (record m { queue = [] }) ≡ (record m { queue = [] }, [], none))
  unfolding forward_button peek_current decide_current
  draw-forward_button m entries tab item rest k on decision fresh =
      let shown = format_http_request_raw item.request item.host in
      let sent = normalized_sent (with_crlf shown) in
      (
        refl,
        rw decision refl,
        ap (λ e. some (serialize_request (parse_raw_http_request (get_text e))))
              (loaded m entries tab item rest on fresh)
            ∙ ap (λ t. some (serialize_request (parse_raw_http_request t)))
                (get_text-set_text shown tab.editor)
            ∙ ap some sent,
        refl,
      )
