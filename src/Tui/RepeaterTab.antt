-- ===== src/Tui/RepeaterTab.antt =====
-- The tab of the repeater (src/tui/RepeaterTab.cpp): its buttons, and how it follows the manager. The
-- inputs of FTXUI write the fields; whether the clipboard takes a text is an argument.
use burp_tui.Prelude.{Bytes, codes, bytes_eq, Bool, true, false, not, Option, List, if◌then◌else◌}
use burp_tui.Tui.TextEditor.{TextEditor, new_editor, set_text, get_text}
use burp_tui.Tui.TextEditor
use burp_tui.Tui.Viewer.{Viewer, new_viewer, set_raw_text}
use burp_tui.Tui.Viewer
use burp_tui.Tui.Repeater.{
  RepeaterManager, Call, Sent, set_target, set_raw_request, execute_request,
}
pub mod Following
mod Tests

pub record RepeaterTab : Type 0 where
  pub host : Bytes
  pub port : Bytes
  pub is_https : Bool
  pub last_loaded_req : Bytes
  pub last_loaded_res : Bytes
  pub req_editor : TextEditor
  pub res_viewer : Viewer

-- `MakeRepeaterTab`
unfoldable pub new_tab : RepeaterManager → RepeaterTab
new_tab m = record {
  host = m.host;
  port = m.port;
  is_https = m.is_https;
  last_loaded_req = m.raw_request;
  last_loaded_res = m.raw_response;
  req_editor = set_text m.raw_request new_editor;
  res_viewer = set_raw_text m.raw_response (codes "text/plain") new_viewer;
}

unfoldable pub send_button :
    RepeaterTab → RepeaterManager → RepeaterManager × List Call × Option Sent
send_button tab m =
    let aimed = (set_target tab.host tab.port tab.is_https m).0 in
    execute_request (set_raw_request (get_text tab.req_editor) aimed)

abbrev pub copy_req_btn : Bool → RepeaterTab → RepeaterTab
copy_req_btn ok tab = record tab { req_editor = (TextEditor.copy_to_clipboard ok tab.req_editor).0 }

abbrev pub copy_res_btn : Bool → RepeaterTab → RepeaterTab
copy_res_btn ok tab = record tab { res_viewer = (Viewer.copy_to_clipboard ok tab.res_viewer).0 }

abbrev pub load_request : RepeaterManager → RepeaterTab → RepeaterTab
load_request m tab = record tab {
  last_loaded_req = m.raw_request;
  req_editor = set_text m.raw_request tab.req_editor;
  host = m.host;
  port = m.port;
  is_https = m.is_https;
}

abbrev pub load_response : RepeaterManager → RepeaterTab → RepeaterTab
load_response m tab = record tab {
  last_loaded_res = m.raw_response;
  res_viewer = set_raw_text m.raw_response (codes "text/plain") tab.res_viewer;
}

unfoldable pub sync_with_manager : RepeaterManager → RepeaterTab → RepeaterTab
sync_with_manager m tab =
    let asked =
      if not (bytes_eq m.raw_request tab.last_loaded_req) then load_request m tab else tab in
    if not (bytes_eq m.raw_response asked.last_loaded_res) then load_response m asked else asked
