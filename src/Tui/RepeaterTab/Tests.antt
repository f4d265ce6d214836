-- ===== src/Tui/RepeaterTab/Tests.antt =====
-- The repeater tab, run, and its theorem applied.
use burp_tui.Prelude.{codes, true, false, some, [], ◌∷◌, ◌≡◌, refl}
use burp_tui.Tui.TextEditor.{new_editor}
use burp_tui.Tui.Repeater.{RepeaterManager, received, complete}
use burp_tui.Tui.RepeaterTab.{RepeaterTab, new_tab, send_button, sync_with_manager}
use burp_tui.Tui.RepeaterTab.Following.{Shows, request_of, retyped, send-follow}

abbrev idle_manager : RepeaterManager
idle_manager = record {
  host = codes "a.example";
  port = codes "443";
  is_https = true;
  raw_request = [];
  raw_response = [];
  status_text = [];
  is_sending = false;
  has_notify = false;
  has_switch_tab = false;
}

abbrev some_tab : RepeaterTab
some_tab = record (new_tab idle_manager) {
  req_editor = record new_editor { lines = codes "G" ∷ [] };
}

send-follow_example :
    let sending = (send_button some_tab idle_manager).0 in
    let followed = sync_with_manager sending some_tab in
    let typed = retyped (codes "b.example") (codes "80") false new_editor followed in
    let ended = (complete (request_of some_tab) (received (codes "HTTP/1.1 200 OK")) 5 sending).0 in
    let final = sync_with_manager ended typed in
    ((send_button some_tab idle_manager).2 ≡ some (request_of some_tab))
    × (followed.req_editor.lines ≡ some_tab.req_editor.lines)
    × (final.req_editor ≡ new_editor)
    × (final.host ≡ codes "b.example")
    × (final.port ≡ codes "80")
    × (final.is_https ≡ false)
    × (final.last_loaded_res ≡ ended.raw_response)
    × Shows ended.raw_response final.res_viewer
unfolding new_tab
send-follow_example =
    send-follow idle_manager some_tab (codes "b.example") (codes "80") false new_editor
      (received (codes "HTTP/1.1 200 OK")) 5 refl (((refl, refl), tt), tt) refl (refl, refl)
