-- ===== src/App/Updates/Counted.antt =====
-- The flag `updatePending_` is set only while an event is on its way, and a queue that is not empty
-- is noticed by somebody; the steps of threads and interface come to an end.
use burp_tui.Prelude.{
  ℕ, zero, suc, ◌+◌, ◌≤◌, min, ◌≡◌, inl, inr, refl, sym, ap, Bool, true, false, Option, none, some,
  List, [], ◌∷◌, ◌++◌, arith, ltb, ◌*◌, length, Bool-cases,
}
use mathlib.Core.Path.{subst}
use burp_tui.Http.Message.{HttpTransaction}
use burp_tui.Util.Queues.{ts_push}
use burp_tui.App.TuiApp.{Shared, exchange_pending, post_custom, clear_pending, refresh_history}
use burp_tui.App.Updates.Refreshed.{refresh-shared}
use burp_tui.App.Updates.{
  Caller, to_push, to_exchange, to_post, done, Ui, idle, taken, cleared, call_step, advance, World,
  Move, report, pull, go_on, ui_step, show_history, post, ui_next, move, run,
}

abbrev pub flag : Bool → ℕ
flag true = 1
flag false = 0

abbrev exchange_of : Caller → ℕ
exchange_of to_exchange = 1
exchange_of _ = 0

abbrev post_of : Caller → ℕ
post_of to_post = 1
post_of _ = 0

-- the steps that a caller has before it, and those of the event that it may post
abbrev work_of : Caller → ℕ
work_of (to_push t) = 6
work_of to_exchange = 5
work_of to_post = 4
work_of done = 0

unfoldable pub exchanges : List Caller → ℕ
exchanges [] = 0
exchanges (c ∷ cs) = exchange_of c + exchanges cs

unfoldable pub posts : List Caller → ℕ
posts [] = 0
posts (c ∷ cs) = post_of c + posts cs

unfoldable pub work : List Caller → ℕ
work [] = 0
work (c ∷ cs) = work_of c + work cs

-- What a step of one thread does: it pushes, it loses the exchange, it wins it, or it posts.
pub data Went (s : Shared) (cs : List Caller) (s' : Shared) (cs' : List Caller) : Type 0 where
  pushed :
      (t : HttpTransaction)
      → s' ≡ record s { tx_queue = ts_push t s.tx_queue }
      → exchanges cs' ≡ exchanges cs + 1
      → posts cs' ≡ posts cs
      → work cs' + 1 ≡ work cs
      → Went s cs s' cs'
  lost :
      s.update_pending ≡ true
      → s' ≡ s
      → exchanges cs' + 1 ≡ exchanges cs
      → posts cs' ≡ posts cs
      → work cs' + 5 ≡ work cs
      → Went s cs s' cs'
  won :
      s.update_pending ≡ false
      → s' ≡ record s { update_pending = true }
      → exchanges cs' + 1 ≡ exchanges cs
      → posts cs' ≡ posts cs + 1
      → work cs' + 1 ≡ work cs
      → Went s cs s' cs'
  posted_one :
      s' ≡ post_custom s
      → exchanges cs' ≡ exchanges cs
      → posts cs' + 1 ≡ posts cs
      → work cs' + 4 ≡ work cs
      → Went s cs s' cs'

Went-cons :
    (c : Caller) (s s' : Shared) (cs cs' : List Caller)
    → Went s cs s' cs'
    → Went s (c ∷ cs) s' (c ∷ cs')
unfolding exchanges posts work
Went-cons c s s' cs cs' (pushed t e x p w) = pushed t e (omega arith) (omega arith) (omega arith)
Went-cons c s s' cs cs' (lost b e x p w) = lost b e (omega arith) (omega arith) (omega arith)
Went-cons c s s' cs cs' (won b e x p w) = won b e (omega arith) (omega arith) (omega arith)
Went-cons c s s' cs cs' (posted_one e x p w) =
    posted_one e (omega arith) (omega arith) (omega arith)

-- a step of a thread, where one is possible
abbrev pub IsStep : Shared → List Caller → Option (List Caller × Shared) → Type 0
IsStep s cs none = Unit {0}
IsStep s cs (some r) = Went s cs r.1 r.0

exchange_lem :
    (b : Bool) (s : Shared) (cs : List Caller)
    → IsStep
        (record s { update_pending = b })
        (to_exchange ∷ cs)
        (advance zero (to_exchange ∷ cs) (record s { update_pending = b }))
unfolding advance call_step exchange_pending exchanges posts work
exchange_lem true s cs = lost refl refl (omega arith) (omega arith) (omega arith)
exchange_lem false s cs = won refl refl (omega arith) (omega arith) (omega arith)

IsStep-cons :
    (c : Caller) (s : Shared) (cs : List Caller) (o : Option (List Caller × Shared))
    → IsStep s cs o
    → IsStep s (c ∷ cs) (elim o [ none ↦ none | some r ↦ some (c ∷ r.0, r.1) ])
IsStep-cons c s cs none h = tt
IsStep-cons c s cs (some r) h = Went-cons c s r.1 cs r.0 h

pub advance-IsStep : (i : ℕ) (cs : List Caller) (s : Shared) → IsStep s cs (advance i cs s)
unfolding advance call_step exchanges posts work
advance-IsStep i [] s = tt
advance-IsStep zero (to_push t ∷ cs) s = pushed t refl (omega arith) (omega arith) (omega arith)
advance-IsStep zero (to_exchange ∷ cs) s = exchange_lem s.update_pending s cs
advance-IsStep zero (to_post ∷ cs) s = posted_one refl (omega arith) (omega arith) (omega arith)
advance-IsStep zero (done ∷ cs) s = tt
advance-IsStep (suc i) (c ∷ cs) s = IsStep-cons c s cs (advance i cs s) (advance-IsStep i cs s)

abbrev pub is_taken : Ui → ℕ
is_taken taken = 1
is_taken _ = 0

abbrev pub is_cleared : Ui → ℕ
is_cleared cleared = 1
is_cleared _ = 0

-- While the flag is set an event waits, is being handled, or is about to be posted; and while the
-- queue is not empty the flag is set, or somebody is about to set it or to empty the queue.
abbrev IsWatchedAt : Shared → List Caller → Ui → Type 0
IsWatchedAt s callers ui =
    (flag s.update_pending ≤ s.posted + (posts callers + is_taken ui))
    × (min 1 (length s.tx_queue) ≤ flag s.update_pending + (exchanges callers + is_cleared ui))

abbrev pub IsWatched : World → Type 0
IsWatched w = IsWatchedAt w.app.shared w.callers w.ui

-- how many steps the threads and the interface still have to do
unfoldable pub left : World → ℕ
left w = work w.callers + (3 * w.app.shared.posted + (2 * is_taken w.ui + is_cleared w.ui))

abbrev KeepsWatch : World → Option World → Type 0
KeepsWatch w none = Unit {0}
KeepsWatch w (some next) = IsWatched w → IsWatched next

abbrev with_step : World → Option (List Caller × Shared) → Option World
with_step w o = elim o [
  | none ↦ none
  | some r ↦ some (record w { app = record w.app { shared = r.1 }; callers = r.0 })
]

flag_le : (b : Bool) → flag b ≤ 1
flag_le true = omega arith
flag_le false = omega arith

Went-IsWatched :
    (w : World) (s' : Shared) (cs' : List Caller)
    → Went w.app.shared w.callers s' cs'
    → IsWatched w
    → IsWatched (record w { app = record w.app { shared = s' }; callers = cs' })
Went-IsWatched w s' cs' (pushed t e x p g) (h, k) = rw e (omega arith, omega arith)
Went-IsWatched w s' cs' (lost b e x p g) (h, k) = rw e (omega arith, omega (arith, ap flag b))
Went-IsWatched w s' cs' (won b e x p g) (h, k) = rw e (omega arith, omega arith)
Went-IsWatched w s' cs' (posted_one e x p g) (h, k) = rw e (omega arith, omega arith)

go_on-KeepsWatch :
    (w : World) (o : Option (List Caller × Shared))
    → IsStep w.app.shared w.callers o
    → KeepsWatch w (with_step w o)
go_on-KeepsWatch w none h = tt
go_on-KeepsWatch w (some r) h = Went-IsWatched w r.1 r.0 h

-- Once the queue is drained, only the flag is to watch.
drained :
    (w : World)
    → flag w.app.shared.update_pending ≤ w.app.shared.posted + posts w.callers
    → IsWatchedAt (refresh_history w.app).shared w.callers idle
drained w h =
    subst (λ s. IsWatchedAt s w.callers idle) (sym (refresh-shared w.app))
      (omega arith, omega arith)

ui-KeepsWatch :
    (ui : Ui) (w : World) → KeepsWatch (record w { ui = ui }) (ui_next (record w { ui = ui }))
unfolding ui_next clear_pending
ui-KeepsWatch idle w = elim (Bool-cases (ltb 0 w.app.shared.posted)) [
  | inl p ↦ rw p (λ (h, k). (omega (arith, flag_le w.app.shared.update_pending), omega arith))
  | inr p ↦ rw p tt
]
ui-KeepsWatch taken w = λ (h, k). (omega arith, omega arith)
ui-KeepsWatch cleared w = λ (h, k). drained w (omega arith)

show-KeepsWatch :
    (ui : Ui) (w : World)
    → KeepsWatch (record w { ui = ui }) (move show_history (record w { ui = ui }))
unfolding move
show-KeepsWatch idle w = λ (h, k). drained w (omega arith)
show-KeepsWatch taken w = tt
show-KeepsWatch cleared w = tt

exchanges-append :
    (cs : List Caller) (c : Caller) → exchanges (cs ++ c ∷ []) ≡ exchanges cs + exchange_of c
unfolding exchanges
exchanges-append [] c = omega arith
exchanges-append (d ∷ cs) c = omega (arith, exchanges-append cs c)

posts-append : (cs : List Caller) (c : Caller) → posts (cs ++ c ∷ []) ≡ posts cs + post_of c
unfolding posts
posts-append [] c = omega arith
posts-append (d ∷ cs) c = omega (arith, posts-append cs c)

move-KeepsWatch : (m : Move) (w : World) → KeepsWatch w (move m w)
unfolding move
move-KeepsWatch (report t) w = λ (h, k). (
  omega (arith, posts-append w.callers (to_push t)),
  omega (arith, exchanges-append w.callers (to_push t)),
)
move-KeepsWatch pull w = λ (h, k). (
  omega (arith, posts-append w.callers to_exchange),
  omega (arith, exchanges-append w.callers to_exchange),
)
move-KeepsWatch (go_on i) w = go_on-KeepsWatch w _ (advance-IsStep i w.callers w.app.shared)
move-KeepsWatch ui_step w = ui-KeepsWatch w.ui w
move-KeepsWatch show_history w = show-KeepsWatch w.ui w
move-KeepsWatch post w = λ (h, k). (omega arith, k)

keeps_lem :
    (w : World) (o : Option World) (ms : List Move)
    → KeepsWatch w o
    → ((v : World) → IsWatched v → IsWatched (run ms v))
    → IsWatched w
    → IsWatched (elim o [ none ↦ run ms w | some next ↦ run ms next ])
keeps_lem w none ms h ih i = ih w i
keeps_lem w (some next) ms h ih i = ih next (h i)

pub run-IsWatched : (ms : List Move) (w : World) → IsWatched w → IsWatched (run ms w)
unfolding run
run-IsWatched [] w h = h
run-IsWatched (m ∷ ms) w h = keeps_lem w (move m w) ms (move-KeepsWatch m w) (run-IsWatched ms) h
