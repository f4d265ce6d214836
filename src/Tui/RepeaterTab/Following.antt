-- ===== src/Tui/RepeaterTab/Following.antt =====
-- How the repeater tab and the manager stay together.
use burp_tui.Prelude.{
  ℕ, Bytes, bytes_eq, bytes_eq→eq, bytes_eq_refl, Bool, true, false, not, some, if◌then◌else◌, ◌≡◌,
  refl, sym, ap, ◌∙◌, is_empty, codes,
}
use mathlib.Core.Path.{subst}
use burp_tui.Tui.Viewer.{Viewer}
use burp_tui.Tui.Formatter.{format_body_lines}
use burp_tui.Tui.TextEditor.{TextEditor, set_text, get_text}
use burp_tui.Tui.TextEditor.Text.{set_text-get_text, IsClean}
use burp_tui.Tui.Repeater.{
  RepeaterManager, Sent, Outcome, set_target, execute_request, complete, sanitize_target,
  clean_request, error_text,
}
use burp_tui.Tui.RepeaterTab.{
  RepeaterTab, send_button, load_request, load_response, sync_with_manager,
}

complete-raw_request :
    (t : Sent) (o : Outcome) (ms : ℕ) (m : RepeaterManager)
    → (complete t o ms m).0.raw_request ≡ m.raw_request
unfolding complete
complete-raw_request t o ms m = if_lem (is_empty (error_text o)) _ _ refl refl
  where
    if_lem :
        (b : Bool) (x y : RepeaterManager)
        → x.raw_request ≡ m.raw_request
        → y.raw_request ≡ m.raw_request
        → (if b then x else y).raw_request ≡ m.raw_request
    if_lem true x y h k = h
    if_lem false x y h k = k

-- The request in the tab and where it goes, without the response.
abbrev IsSameRequest : RepeaterTab → RepeaterTab → Type 0
IsSameRequest a b =
    (a.host ≡ b.host)
    × (a.port ≡ b.port)
    × (a.is_https ≡ b.is_https)
    × (a.req_editor ≡ b.req_editor)
    × (a.last_loaded_req ≡ b.last_loaded_req)

same_lem :
    (b : Bool) (m : RepeaterManager) (tab : RepeaterTab)
    → IsSameRequest (if b then load_response m tab else tab) tab
same_lem true m tab = (refl, refl, refl, refl, refl)
same_lem false m tab = (refl, refl, refl, refl, refl)

kept_lem :
    (m : RepeaterManager) (tab : RepeaterTab)
    → m.raw_request ≡ tab.last_loaded_req
    → IsSameRequest (sync_with_manager m tab) tab
unfolding sync_with_manager
kept_lem m tab h =
    rw (h, bytes_eq_refl tab.last_loaded_req)
      (same_lem (not (bytes_eq m.raw_response tab.last_loaded_res)) m tab)

response_lem :
    (b : Bool) (m : RepeaterManager) (tab : RepeaterTab)
    → bytes_eq m.raw_response tab.last_loaded_res ≡ b
    → (if not b then load_response m tab else tab).last_loaded_res ≡ m.raw_response
response_lem true m tab h = sym (bytes_eq→eq m.raw_response tab.last_loaded_res h)
response_lem false m tab h = refl

-- The viewer has the text `t`, and the rows that show it.
abbrev pub Shows : Bytes → Viewer → Type 0
Shows t v = (v.raw_text ≡ t) × (v.rows ≡ format_body_lines t (codes "text/plain"))

shows_lem :
    (b : Bool) (m : RepeaterManager) (tab : RepeaterTab)
    → bytes_eq m.raw_response tab.last_loaded_res ≡ b
    → Shows tab.last_loaded_res tab.res_viewer
    → Shows m.raw_response (if not b then load_response m tab else tab).res_viewer
shows_lem true m tab h s =
    subst (λ t. Shows t tab.res_viewer) (sym (bytes_eq→eq m.raw_response tab.last_loaded_res h)) s
shows_lem false m tab h s = (refl, refl)

asked_lem :
    (b : Bool) (m : RepeaterManager) (tab : RepeaterTab)
    → Shows tab.last_loaded_res tab.res_viewer
    → let asked = if b then load_request m tab else tab in
      Shows m.raw_response
        (if not (bytes_eq m.raw_response asked.last_loaded_res)
          then load_response m asked
          else asked).res_viewer
asked_lem true m tab s = shows_lem _ m (load_request m tab) refl s
asked_lem false m tab s = shows_lem _ m tab refl s

-- Following shows the manager's response, where the last one was shown.
shown_response :
    (m : RepeaterManager) (tab : RepeaterTab)
    → Shows tab.last_loaded_res tab.res_viewer
    → Shows m.raw_response (sync_with_manager m tab).res_viewer
unfolding sync_with_manager
shown_response m tab s = asked_lem (not (bytes_eq m.raw_request tab.last_loaded_req)) m tab s

taken_up :
    (m : RepeaterManager) (tab : RepeaterTab)
    → (sync_with_manager m tab).last_loaded_res ≡ m.raw_response
unfolding sync_with_manager
taken_up m tab =
    let asked =
      if not (bytes_eq m.raw_request tab.last_loaded_req) then load_request m tab else tab in
    response_lem (bytes_eq m.raw_response asked.last_loaded_res) m asked refl

-- Only the text of the request is compared: a manager with the same text and another target is not
-- followed.
pub same_text_lem :
    (m : RepeaterManager) (tab : RepeaterTab)
    → m.raw_request ≡ tab.last_loaded_req
    → let tab' = sync_with_manager m tab in
      (tab'.host ≡ tab.host) × (tab'.port ≡ tab.port) × (tab'.is_https ≡ tab.is_https)
same_text_lem m tab h = let k = kept_lem m tab h in (k.0, k.1, k.2)

editor_lem :
    (b : Bool) (m : RepeaterManager) (tab : RepeaterTab)
    → bytes_eq m.raw_request tab.last_loaded_req ≡ b
    → m.raw_request ≡ get_text tab.req_editor
    → IsClean tab.req_editor.lines
    → is_empty tab.req_editor.lines ≡ false
    → let asked = if not b then load_request m tab else tab in
      (asked.req_editor.lines ≡ tab.req_editor.lines) × (asked.last_loaded_req ≡ m.raw_request)
editor_lem true m tab e h c n = (refl, sym (bytes_eq→eq m.raw_request tab.last_loaded_req e))
editor_lem false m tab e h c n = (
  ap (λ t. (set_text t tab.req_editor).lines) h
      ∙ set_text-get_text tab.req_editor tab.req_editor c n,
  refl,
)

-- the tab that shows the manager's request, where that is the text of the editor
shown_lem :
    (m : RepeaterManager) (tab : RepeaterTab)
    → m.raw_request ≡ get_text tab.req_editor
    → IsClean tab.req_editor.lines
    → is_empty tab.req_editor.lines ≡ false
    → ((sync_with_manager m tab).req_editor.lines ≡ tab.req_editor.lines)
      × ((sync_with_manager m tab).last_loaded_req ≡ m.raw_request)
unfolding sync_with_manager
shown_lem m tab h c n =
    let asked =
      if not (bytes_eq m.raw_request tab.last_loaded_req) then load_request m tab else tab in
    let s = same_lem (not (bytes_eq m.raw_response asked.last_loaded_res)) m asked in
    let e = editor_lem (bytes_eq m.raw_request tab.last_loaded_req) m tab refl h c n in
    (ap (λ e. e.lines) s.3 ∙ e.0, s.4 ∙ e.1)

-- the request that pressing the button starts
abbrev pub request_of : RepeaterTab → Sent
request_of tab =
    let (host, port, https) = sanitize_target tab.host tab.port tab.is_https in
    record {
      host = host;
      port = port;
      is_https = https;
      request = clean_request host (get_text tab.req_editor);
    }

started_lem :
    (m : RepeaterManager) (tab : RepeaterTab)
    → m.is_sending ≡ false
    → ((send_button tab m).2 ≡ some (request_of tab))
      × ((send_button tab m).0.raw_request ≡ get_text tab.req_editor)
unfolding send_button execute_request set_target
started_lem m tab h = rw h (refl, refl)

-- What the user makes of the tab while a request is out: the inputs and the editor.
abbrev pub retyped : Bytes → Bytes → Bool → TextEditor → RepeaterTab → RepeaterTab
retyped host port is_https editor tab = record tab {
  host = host;
  port = port;
  is_https = is_https;
  req_editor = editor;
}

-- When no request is in flight, the editor has lines without line ends in them, and the viewer shows
-- the response loaded last: pressing Send starts one request, of the editor's text cleaned and to the
-- typed target, and following the manager leaves the editor's lines as they are. Whatever the user
-- then types, chooses and edits, and however the request ends, following the manager again changes
-- neither editor nor target, and loads the manager's response, whose text and rows the viewer shows.
pub send-follow :
    (m : RepeaterManager) (tab : RepeaterTab) (host port : Bytes) (is_https : Bool)
    (editor : TextEditor) (o : Outcome) (ms : ℕ)
    → m.is_sending ≡ false
    → IsClean tab.req_editor.lines
    → is_empty tab.req_editor.lines ≡ false
    → Shows tab.last_loaded_res tab.res_viewer
    → let sending = (send_button tab m).0 in
      let followed = sync_with_manager sending tab in
      let typed = retyped host port is_https editor followed in
      let ended = (complete (request_of tab) o ms sending).0 in
      let final = sync_with_manager ended typed in
      ((send_button tab m).2 ≡ some (request_of tab))
      × (followed.req_editor.lines ≡ tab.req_editor.lines)
      × (final.req_editor ≡ editor)
      × (final.host ≡ host)
      × (final.port ≡ port)
      × (final.is_https ≡ is_https)
      × (final.last_loaded_res ≡ ended.raw_response)
      × Shows ended.raw_response final.res_viewer
send-follow m tab host port is_https editor o ms idle clean some_line shown =
    let sending = (send_button tab m).0 in
    let (start, raw) = started_lem m tab idle in
    let (lines, loaded) = shown_lem sending tab raw clean some_line in
    let typed = retyped host port is_https editor (sync_with_manager sending tab) in
    let ended = (complete (request_of tab) o ms sending).0 in
    let same = complete-raw_request (request_of tab) o ms sending ∙ sym loaded in
    let before = shown_response sending tab shown in
    let loaded_res = taken_up sending tab in
    let k = kept_lem ended typed same in
    (
      start,
      lines,
      k.3,
      k.0,
      k.1,
      k.2,
      taken_up ended typed,
      shown_response ended typed
          (subst (λ t. Shows t (sync_with_manager sending tab).res_viewer) (sym loaded_res) before),
    )
