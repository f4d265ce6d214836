-- ===== src/App/TuiApp.antt =====
-- The root of the terminal interface (src/tui/TuiApp.cpp): its shortcuts, and the flag that keeps
-- the threads' requests to redraw to one event at a time. FTXUI's queue of events is the number of
-- `Event::Custom` in it; what its containers do with an event is the parameter `layout`.
use burp_tui.Prelude.{ℕ, ◌+◌, Bool, true, false, List, [], ◌∷◌, ◌++◌, ◌==◌, ◌||◌, if◌then◌else◌}
use burp_tui.Http.Message.{HttpTransaction}
use burp_tui.Util.Queues.{try_pop_all}
use burp_tui.Tui.HistoryTab.{HistoryTab}
use burp_tui.Tui.HistoryTab

-- What the shared parts of the application are, between two steps of its threads.
pub record Shared : Type 0 where
  pub tx_queue : List HttpTransaction
  pub update_pending : Bool
  pub posted : ℕ

-- the compare-and-exchange of the trigger: whether it won, so that it posts an event next
unfoldable pub exchange_pending : Shared → Bool × Shared
exchange_pending s =
    if s.update_pending then (false, s) else (true, record s { update_pending = true })

-- `screen_.PostEvent(Event::Custom)`
abbrev pub post_custom : Shared → Shared
post_custom s = record s { posted = s.posted + 1 }

-- `getUpdateTrigger()`, called with no other thread in between
unfoldable pub trigger : Shared → Shared
unfolding exchange_pending
trigger s = let r = exchange_pending s in if r.0 then post_custom r.1 else r.1

pub data TabName : Type 0 where
  proxy_tab : TabName
  repeater_tab : TabName

pub record TuiApp : Type 0 where
  pub shared : Shared
  pub active_tab : ℕ
  pub exited : Bool
  pub history : HistoryTab
  -- the calls of `OnEvent(Event::Custom)` on the other tabs
  pub refreshed : List TabName

-- `historyTab->OnEvent(Event::Custom)`
unfoldable pub refresh_history : TuiApp → TuiApp
unfolding try_pop_all HistoryTab.on_event
refresh_history app =
    let (left, popped) = try_pop_all app.shared.tx_queue in
    record app {
      shared = record app.shared { tx_queue = left };
      history = (HistoryTab.on_event false false (HistoryTab.custom popped) app.history).0;
    }

abbrev pub refresh : TabName → TuiApp → TuiApp
refresh tab app = record app { refreshed = app.refreshed ++ tab ∷ [] }

-- `updatePending_.store(false)`
unfoldable pub clear_pending : TuiApp → TuiApp
clear_pending app = record app { shared = record app.shared { update_pending = false } }

abbrev pub exit_loop : TuiApp → TuiApp
exit_loop app = record app { exited = true }

abbrev pub show : ℕ → TuiApp → TuiApp
show tab app = record app { active_tab = tab }

pub data Event : Type 0 where
  custom : Event
  control : ℕ → Event
  function_key : ℕ → Event
  character : ℕ → Event
  other : Event

-- the tabs' shortcuts, by the index of the tab
unfoldable pub go_to : ℕ → TuiApp → TuiApp
unfolding refresh_history
go_to tab app =
    if tab == 1
    then refresh_history (show 1 app)
    else if tab == 2
    then refresh repeater_tab (show 2 app)
    else show tab app

module _ (layout : Event → TuiApp → Bool × TuiApp) where
  -- the hotkeys that no component took
  unfoldable pub fallback : Event → TuiApp → Bool × TuiApp
  unfolding go_to
  fallback (character c) app =
      if c == b'q' || c == b'Q'
      then (true, exit_loop app)
      else if c == b'1'
      then (true, go_to 0 app)
      else if c == b'2'
      then (true, go_to 1 app)
      else if c == b'3'
      then (true, go_to 2 app)
      else if c == b'4'
      then (true, go_to 3 app)
      else (false, app)
  fallback e app = (false, app)

  abbrev pub after_layout : Event → Bool × TuiApp → Bool × TuiApp
  after_layout e r = if r.0 then r else fallback e r.1

  unfoldable pub catch_event : Event → TuiApp → Bool × TuiApp
  unfolding clear_pending refresh_history go_to fallback
  catch_event custom app =
      (false, refresh repeater_tab (refresh proxy_tab (refresh_history (clear_pending app))))
  catch_event (control c) app =
      if c == 17 || c == 3
      then (true, exit_loop app)
      else after_layout (control c) (layout (control c) app)
  catch_event (function_key n) app =
      if n == 1
      then (true, go_to 0 app)
      else if n == 2
      then (true, go_to 1 app)
      else if n == 3
      then (true, go_to 2 app)
      else if n == 4
      then (true, go_to 3 app)
      else after_layout (function_key n) (layout (function_key n) app)
  catch_event (character c) app = after_layout (character c) (layout (character c) app)
  catch_event other app = after_layout other (layout other app)
