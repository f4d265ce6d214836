-- ===== src/App/Updates.antt =====
-- The threads that report transactions, and the interface that shows them, step by step.
use burp_tui.Prelude.{
  ℕ, zero, suc, ◌+◌, Bool, true, false, Option, none, some, List, [], ◌∷◌, ◌++◌, if◌then◌else◌, ltb,
  ◌-◌,
}
use burp_tui.Http.Message.{HttpTransaction}
use burp_tui.Util.Queues.{ts_push}
use burp_tui.App.TuiApp.{
  Shared, exchange_pending, post_custom, TuiApp, refresh_history, clear_pending,
}
mod Refreshed
pub mod Counted
pub mod Shown
pub mod Settled

-- Where a thread stands in the callback of `App::run` (the push into the queue, then the trigger),
-- or in a bare trigger, which starts at the exchange.
pub data Caller : Type 0 where
  to_push : HttpTransaction → Caller
  to_exchange : Caller
  to_post : Caller
  done : Caller

-- Where the interface stands in handling `Event::Custom`.
pub data Ui : Type 0 where
  idle : Ui
  taken : Ui
  cleared : Ui

unfoldable pub call_step : Caller → Shared → Option (Caller × Shared)
unfolding ts_push exchange_pending
call_step (to_push t) s = some (to_exchange, record s { tx_queue = ts_push t s.tx_queue })
call_step to_exchange s = let r = exchange_pending s in some (if r.0 then to_post else done, r.1)
call_step to_post s = some (done, post_custom s)
call_step done s = none

-- the step of the thread at an index
unfoldable pub advance : ℕ → List Caller → Shared → Option (List Caller × Shared)
unfolding call_step
advance i [] s = none
advance zero (c ∷ cs) s = elim (call_step c s) [ none ↦ none | some r ↦ some (r.0 ∷ cs, r.1) ]
advance (suc i) (c ∷ cs) s = elim (advance i cs s) [ none ↦ none | some r ↦ some (c ∷ r.0, r.1) ]

pub record World : Type 0 where
  pub app : TuiApp
  pub callers : List Caller
  pub ui : Ui

pub data Move : Type 0 where
  -- a session reports a transaction; another part pulls the trigger
  report : HttpTransaction → Move
  pull : Move
  -- the thread at an index goes on
  go_on : ℕ → Move
  -- the interface goes on; or handles the key of the history tab; or an event is posted directly
  ui_step : Move
  show_history : Move
  post : Move

unfoldable pub ui_next : World → Option World
unfolding refresh_history clear_pending
ui_next w = elim w.ui [
  | idle ↦
      if ltb 0 w.app.shared.posted
      then some (record w {
        app = record w.app { shared = record w.app.shared { posted = w.app.shared.posted - 1 } };
        ui = taken;
      })
      else none
  | taken ↦ some (record w { app = clear_pending w.app; ui = cleared })
  | cleared ↦ some (record w { app = refresh_history w.app; ui = idle })
]

-- `none`: the move is not possible now.
unfoldable pub move : Move → World → Option World
unfolding advance ui_next refresh_history
move (report t) w = some (record w { callers = w.callers ++ to_push t ∷ [] })
move pull w = some (record w { callers = w.callers ++ to_exchange ∷ [] })
move (go_on i) w = elim (advance i w.callers w.app.shared) [
  | none ↦ none
  | some r ↦ some (record w { app = record w.app { shared = r.1 }; callers = r.0 })
]
move ui_step w = ui_next w
move show_history w = elim w.ui [
  | idle ↦ some (record w { app = refresh_history w.app })
  | taken ↦ none
  | cleared ↦ none
]
move post w = some (record w { app = record w.app { shared = post_custom w.app.shared } })

-- A history of moves; those that are not possible do nothing.
unfoldable pub run : List Move → World → World
unfolding move
run [] w = w
run (m ∷ ms) w = elim (move m w) [ none ↦ run ms w | some next ↦ run ms next ]
