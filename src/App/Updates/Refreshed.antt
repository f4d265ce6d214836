-- ===== src/App/Updates/Refreshed.antt =====
-- What refreshing the history tab does to the queue and to the entries.
use burp_tui.Prelude.{◌≡◌, ap, ◌∙◌, false, List, [], ◌++◌}
use burp_tui.Http.Message.{HttpTransaction}
use burp_tui.Util.Queues.{try_pop_all}
use burp_tui.Util.Queues.Order.{drain_lem}
use burp_tui.Tui.HistoryTab.{append_items}
use burp_tui.Tui.HistoryTab
use burp_tui.Tui.HistoryTab.Labelled.{update-keeps}
use burp_tui.App.TuiApp.{TuiApp, refresh_history}

pop_lem : (q : List HttpTransaction) → try_pop_all q ≡ ([], q)
unfolding try_pop_all
pop_lem q = drain_lem q []

pub refresh-shared :
    (app : TuiApp) → (refresh_history app).shared ≡ record app.shared { tx_queue = [] }
unfolding refresh_history
refresh-shared app = ap (λ r. record app.shared { tx_queue = r.0 }) (pop_lem app.shared.tx_queue)

custom-entries :
    (app : TuiApp) (popped : List HttpTransaction)
    → (HistoryTab.on_event false false (HistoryTab.custom popped) app.history).0.entries
      ≡ app.history.entries ++ popped
unfolding HistoryTab.on_event append_items
custom-entries app popped = (update-keeps (append_items popped app.history)).1

pub refresh-entries :
    (app : TuiApp)
    → (refresh_history app).history.entries ≡ app.history.entries ++ app.shared.tx_queue
unfolding refresh_history
refresh-entries app =
    custom-entries app (try_pop_all app.shared.tx_queue).1
    ∙ ap (λ r. app.history.entries ++ r.1) (pop_lem app.shared.tx_queue)
