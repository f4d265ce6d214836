-- ===== src/Tui/HistoryTab.antt =====
-- The tab of the captured transactions (src/tui/HistoryTab.cpp): the entries and their labels, the
-- selected one, and the one that the viewers show. The menu is FTXUI's: the index that it leaves
-- after an arrow, and whether it took the key, are arguments, as the focus and the clipboard are.
use burp_tui.Prelude.{
  ℕ, ◌+◌, ◌-◌, ◌^◌, min, Bytes, codes, Bool, true, false, not, Option, none, some, List, [], ◌∷◌,
  ◌++◌, ◌==◌, ◌&&◌, ◌||◌, ltb, bytes_eq, is_empty, length, take, drop, map, get_elem?, to_string,
  if◌then◌else◌,
}
use burp_tui.Http.Message.{HttpTransaction}
use burp_tui.Tui.Viewer.{Viewer, new_viewer, set_content, copy_to_clipboard}
use burp_tui.Tui.Formatter.{
  text, format_http_request_lines, format_http_request_raw, format_http_response_lines,
  format_http_response_raw,
}
use burp_tui.Tui.Repeater.{RepeaterManager, set_request}
use burp_tui.Tui.Repeater
use burp_tui.Tui.ProxyTab.{int_to_string}
pub mod Labelled

-- `while (s.size() < n) s += ' ';` for `n` up to sixteen
abbrev pub padded_to : ℕ → Bytes → Bytes
padded_to n s = s ++ drop (length s) (take n (codes "                "))

-- `std::to_string` of the `int` with these 32 bits
abbrev pub id_string : ℕ → Bytes
id_string id = if ltb id (2 ^ 31) then to_string id else codes "-" ++ to_string (2 ^ 32 - id)

-- `if (s.size() > n) s = s.substr(0, n - 3) + "...";`
abbrev pub shortened : ℕ → Bytes → Bytes
shortened n s = if ltb n (length s) then take (n - 3) s ++ codes "..." else s

abbrev pub method_of : HttpTransaction → Bytes
method_of t = elim t.request [ none ↦ codes "?" | some r ↦ r.method ]

abbrev pub path_of : HttpTransaction → Bytes
path_of t = elim t.request [ none ↦ codes "/" | some r ↦ r.url ]

abbrev pub status_of : HttpTransaction → Bytes
status_of t = elim t.response [ none ↦ codes "???" | some r ↦ to_string r.status_code ]

unfoldable pub build_menu_label : HttpTransaction → Bytes
build_menu_label t =
    padded_to 4 (codes "#" ++ id_string t.id)
    ++ (codes " "
        ++ (padded_to 7 (method_of t)
            ++ (codes " ["
                ++ (padded_to 3 (status_of t)
                    ++ (codes "] "
                        ++ ((if t.is_https then codes "HTTPS" else codes "HTTP ")
                            ++ (codes " "
                                ++ (padded_to 16 (shortened 16 t.host)
                                    ++ (codes " " ++ shortened 22 (path_of t))))))))))

pub record HistoryTab : Type 0 where
  pub entries : List HttpTransaction
  pub labels : List Bytes
  pub selected_index : ℕ
  pub last_loaded : Option ℕ
  pub request_viewer : Viewer
  pub response_viewer : Viewer

-- `MakeHistoryTab`
abbrev pub new_tab : List HttpTransaction → HistoryTab
new_tab entries = record {
  entries = entries;
  labels = map build_menu_label entries;
  selected_index = 0;
  last_loaded = none;
  request_viewer = new_viewer;
  response_viewer = new_viewer;
}

-- the button and the keys that send the selected request to the repeater
unfoldable pub send_to_repeater :
    HistoryTab → RepeaterManager → RepeaterManager × List Repeater.Call
unfolding set_request format_http_request_raw
send_to_repeater tab r = elim (get_elem? tab.entries tab.selected_index) [
  | none ↦ (r, [])
  | some t ↦ elim t.request [
    | none ↦ (r, [])
    | some req ↦
        set_request t.host (int_to_string t.port) t.is_https (format_http_request_raw req t.host) r
  ]
]

abbrev pub is_loaded : Option ℕ → ℕ → Bool
is_loaded none i = false
is_loaded (some j) i = j == i

-- both viewers show the transaction `t`, at index `i`
unfoldable pub load : ℕ → HttpTransaction → HistoryTab → HistoryTab
unfolding format_http_request_lines format_http_request_raw format_http_response_lines
    format_http_response_raw
load i t tab =
    let request : Viewer = elim t.request [
      | none ↦ set_content (text (codes "(No request data)") ∷ []) [] tab.request_viewer
      | some req ↦
          set_content (format_http_request_lines req t.is_https t.host)
            (format_http_request_raw req t.host) tab.request_viewer
    ] in
    let response : Viewer = elim t.response [
      | none ↦ set_content (text (codes "(Response pending...)") ∷ []) [] tab.response_viewer
      | some res ↦
          set_content (format_http_response_lines res) (format_http_response_raw res)
            tab.response_viewer
    ] in
    record tab { last_loaded = some i; request_viewer = request; response_viewer = response }

unfoldable pub update_active_details : HistoryTab → HistoryTab
unfolding load
update_active_details tab =
    let i = min (length tab.entries - 1) tab.selected_index in
    let cleared = record tab {
      last_loaded = none;
      request_viewer = set_content [] [] tab.request_viewer;
      response_viewer = set_content [] [] tab.response_viewer;
    } in
    elim (get_elem? tab.entries i) [
      | none ↦ cleared
      | some t ↦ if is_loaded tab.last_loaded i then tab else load i t tab
    ]

-- the transactions that the queue gave
unfoldable pub append_items : List HttpTransaction → HistoryTab → HistoryTab
unfolding build_menu_label
append_items items tab = record tab {
  entries = tab.entries ++ items;
  labels = tab.labels ++ map build_menu_label items;
}

pub data Event : Type 0 where
  custom : (popped : List HttpTransaction) → Event
  arrow : (index : ℕ) (taken : Bool) → Event
  character : Bytes → Event
  other : Event

abbrev pub is_key : Bytes → Bytes → Bool
is_key s key = bytes_eq s key

-- `j` and `k` with the focus on the menu
unfoldable pub step_down : HistoryTab → HistoryTab
unfolding update_active_details
step_down tab =
    if ltb (tab.selected_index + 1) (length tab.entries)
    then update_active_details (record tab { selected_index = tab.selected_index + 1 })
    else tab

unfoldable pub step_up : HistoryTab → HistoryTab
unfolding update_active_details
step_up tab =
    if ltb 0 tab.selected_index
    then update_active_details (record tab { selected_index = tab.selected_index - 1 })
    else tab

-- the state after an event and whether it was taken, but for what is sent to the repeater
unfoldable pub on_event : (menu_focused ok : Bool) → Event → HistoryTab → HistoryTab × Bool
unfolding update_active_details append_items step_down step_up copy_to_clipboard
on_event focused ok (custom popped) tab = (update_active_details (append_items popped tab), false)
on_event focused ok (arrow index taken) tab =
    if focused
    then (update_active_details (record tab { selected_index = index }), taken)
    else (tab, false)
on_event focused ok (character s) tab =
    let copied_request = record tab {
      request_viewer = (copy_to_clipboard ok tab.request_viewer).0;
    } in
    let copied_response = record tab {
      response_viewer = (copy_to_clipboard ok tab.response_viewer).0;
    } in
    if focused && is_key s (codes "j")
    then (step_down tab, true)
    else if focused && is_key s (codes "k")
    then (step_up tab, true)
    else if is_key s (codes "r") || is_key s (codes "R")
    then (tab, true)
    else if is_key s (codes "y") && not focused
    then (copied_request, true)
    else if is_key s (codes "c") && not focused
    then (copied_response, true)
    else (tab, false)
on_event focused ok other tab = (tab, false)
