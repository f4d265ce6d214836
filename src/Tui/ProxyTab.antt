-- ===== src/Tui/ProxyTab.antt =====
-- The tab of the waiting requests (src/tui/ProxyTab.cpp): what its buttons do, and what drawing it
-- loads into the editor and the viewers. The label of the toggle and the view mode follow from the
-- flag of the manager at each drawing. The drawing of the editor and of the viewers is theirs.
use burp_tui.Prelude.{
  ℕ, ◌-◌, Bytes, codes, Bool, true, false, not, Option, none, some, List, [], ◌∷◌, ◌++◌, ◌==◌,
  to_string, ℤ, pos, negsuc, ◌+◌, if◌then◌else◌,
}
use burp_tui.Http.Message.{HttpRequest, HttpTransaction}
use burp_tui.Http.Raw.{parse_raw_http_request}
use burp_tui.Proxy.Intercept.{
  InterceptedRequest, InterceptManager, Called, peek_current, forward_current, drop_current,
  set_intercept_enabled,
}
use burp_tui.Tui.TextEditor
use burp_tui.Tui.TextEditor.{TextEditor, new_editor, set_text, get_text}
use burp_tui.Tui.Viewer
use burp_tui.Tui.Viewer.{Viewer, new_viewer, set_content}
use burp_tui.Tui.Formatter.{
  format_http_request_lines, format_http_request_raw, format_http_response_lines,
  format_http_response_raw,
}
use burp_tui.Tui.Repeater.{RepeaterManager, set_request}
use burp_tui.Tui.Repeater
pub mod Forwarded
mod Tests

-- An id is the bit pattern of an `int`, as in the manager; `-1` is the last one.
pub record ProxyTab : Type 0 where
  pub last_displayed_id : ℕ
  pub last_intercept_id : ℕ
  pub editor : TextEditor
  pub request_viewer : Viewer
  pub response_viewer : Viewer

abbrev pub no_id : ℕ
no_id = 4294967295

abbrev pub new_tab : ProxyTab
new_tab = record {
  last_displayed_id = no_id;
  last_intercept_id = no_id;
  editor = new_editor;
  request_viewer = new_viewer;
  response_viewer = new_viewer;
}

-- `std::to_string` of an `int`
abbrev pub int_to_string : ℤ → Bytes
int_to_string (pos n) = to_string n
int_to_string (negsuc n) = codes "-" ++ to_string (n + 1)

-- `entries->back()`
abbrev pub back : List HttpTransaction → Option HttpTransaction
back [] = none
back (t ∷ []) = some t
back (t ∷ u ∷ ts) = back (u ∷ ts)

abbrev pub copy_response_button : Bool → ProxyTab → ProxyTab
copy_response_button ok tab = record tab {
  response_viewer = (Viewer.copy_to_clipboard ok tab.response_viewer).0;
}

-- the request at the head of the queue, loaded once
unfoldable pub load_waiting :
    {K : Type 0} → Option (InterceptedRequest HttpRequest K) → ProxyTab → ProxyTab
unfolding set_text format_http_request_raw
load_waiting none tab = record tab { last_intercept_id = no_id }
load_waiting (some item) tab = if item.id == tab.last_intercept_id then tab else record tab {
  last_intercept_id = item.id;
  editor = set_text (format_http_request_raw item.request item.host) tab.editor;
}

abbrev pub shown_request : Option HttpRequest → HttpTransaction → Viewer → Viewer
shown_request none t v = v
shown_request (some req) t v =
    set_content (format_http_request_lines req t.is_https t.host)
      (format_http_request_raw req t.host) v

-- the last transaction, loaded once
unfoldable pub load_latest : Option HttpTransaction → ProxyTab → ProxyTab
unfolding format_http_response_lines format_http_response_raw
load_latest none tab = tab
load_latest (some t) tab =
    let shown_response : Viewer = elim t.response [
      | none ↦ tab.response_viewer
      | some res ↦
          set_content (format_http_response_lines res) (format_http_response_raw res)
            tab.response_viewer
    ] in
    if t.id == tab.last_displayed_id then tab else record tab {
      last_displayed_id = t.id;
      request_viewer = shown_request t.request t tab.request_viewer;
      response_viewer = shown_response;
    }

module _ {K N : Type 0} where
  unfoldable pub toggle_button :
      InterceptManager HttpRequest K N → InterceptManager HttpRequest K N × List (Called K N)
  toggle_button m = set_intercept_enabled (not m.intercept_enabled) m

  -- The manager, the callbacks that it called, and what was assigned to the request of the head,
  -- which its session shares.
  unfoldable pub forward_button :
      ProxyTab
      → InterceptManager HttpRequest K N
      → InterceptManager HttpRequest K N × List (Called K N) × Option HttpRequest
  unfolding peek_current parse_raw_http_request
  forward_button tab m =
      let r = forward_current m in
      let assigned : Option HttpRequest = elim (peek_current m) [
        | none ↦ none
        | some item ↦ some (parse_raw_http_request (get_text tab.editor))
      ] in
      (r.0, r.1, assigned)

  abbrev pub drop_button :
      InterceptManager HttpRequest K N → InterceptManager HttpRequest K N × List (Called K N)
  drop_button m = let r = drop_current m in (r.0, r.1)

  unfoldable pub to_repeater_button :
      ProxyTab
      → InterceptManager HttpRequest K N
      → List HttpTransaction
      → RepeaterManager
      → RepeaterManager × List Repeater.Call
  unfolding peek_current set_request format_http_request_raw
  to_repeater_button tab m entries r =
      let waiting : RepeaterManager × List Repeater.Call = elim (peek_current m) [
        | none ↦ (r, [])
        | some item ↦
            set_request item.host (to_string item.port) item.is_https (get_text tab.editor) r
      ] in
      let live : RepeaterManager × List Repeater.Call = elim (back entries) [
        | none ↦ (r, [])
        | some t ↦ elim t.request [
          | none ↦ (r, [])
          | some req ↦
              set_request t.host (int_to_string t.port) t.is_https
                (format_http_request_raw req t.host) r
        ]
      ] in
      if m.intercept_enabled then waiting else live

  -- `ok`: what the clipboard answers
  unfoldable pub copy_request_button : Bool → InterceptManager HttpRequest K N → ProxyTab → ProxyTab
  unfolding TextEditor.copy_to_clipboard Viewer.copy_to_clipboard
  copy_request_button ok m tab =
      if m.intercept_enabled
      then record tab { editor = (TextEditor.copy_to_clipboard ok tab.editor).0 }
      else record tab { request_viewer = (Viewer.copy_to_clipboard ok tab.request_viewer).0 }

  -- what drawing the tab loads
  unfoldable pub draw :
      InterceptManager HttpRequest K N → List HttpTransaction → ProxyTab → ProxyTab
  unfolding load_waiting load_latest peek_current
  draw m entries tab =
      if m.intercept_enabled
      then load_waiting (peek_current m) tab
      else load_latest (back entries) tab
