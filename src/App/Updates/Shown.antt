-- ===== src/App/Updates/Shown.antt =====
-- Every reported transaction is shown, in the end.
use burp_tui.Prelude.{
  ℕ, zero, suc, ◌+◌, ◌≡◌, inl, inr, refl, sym, ap, ◌∙◌, Bool, true, false, Option, none, some, List,
  [], ◌∷◌, ◌++◌, arith, ltb, Bool-cases, get_elem?, append_assoc, append-nil,
}
use burp_tui.Http.Message.{HttpTransaction}
use burp_tui.Util.Queues.{ts_push}
use burp_tui.App.TuiApp.{Shared, exchange_pending, clear_pending, refresh_history}
use burp_tui.App.Updates.Refreshed.{refresh-shared, refresh-entries}
use burp_tui.App.Updates.{
  Caller, to_push, to_exchange, to_post, done, Ui, idle, taken, cleared, call_step, advance, World,
  Move, report, pull, go_on, ui_step, show_history, post, ui_next, move, run,
}
use burp_tui.App.Updates.Counted.{flag}

-- what the callers have still to push, in the order of their threads
unfoldable pub unpushed : List Caller → List HttpTransaction
unpushed [] = []
unpushed (to_push t ∷ cs) = t ∷ unpushed cs
unpushed (to_exchange ∷ cs) = unpushed cs
unpushed (to_post ∷ cs) = unpushed cs
unpushed (done ∷ cs) = unpushed cs

abbrev pub item_of : Option Caller → List HttpTransaction
item_of none = []
item_of (some c) = unpushed (c ∷ [])

-- the transaction that a move pushes into the queue
unfoldable pub pushed_by : Move → World → List HttpTransaction
pushed_by (go_on i) w = item_of (get_elem? w.callers i)
pushed_by m w = []

-- the transactions that a history of moves pushes, in the order of the pushes
unfoldable pub pushes : List Move → World → List HttpTransaction
pushes [] w = []
pushes (m ∷ ms) w = elim (move m w) [
  | none ↦ pushes ms w
  | some next ↦ pushed_by m w ++ pushes ms next
]

-- what is shown, and what waits to be
abbrev pub reported : World → List HttpTransaction
reported w = w.app.history.entries ++ w.app.shared.tx_queue

-- No thread and no part of the interface has a step left.
abbrev pub IsQuiet : World → Type 0
IsQuiet w = ((i : ℕ) → move (go_on i) w ≡ none) × (move ui_step w ≡ none)

abbrev pub count : (HttpTransaction → Bool) → List HttpTransaction → ℕ
count p [] = 0
count p (t ∷ ts) = flag (p t) + count p ts

unfoldable pub reports : List Move → List HttpTransaction
reports [] = []
reports (report t ∷ ms) = t ∷ reports ms
reports (m ∷ ms) = reports ms

count-append :
    (p : HttpTransaction → Bool) (ts us : List HttpTransaction)
    → count p (ts ++ us) ≡ count p ts + count p us
count-append p [] us = omega arith
count-append p (t ∷ ts) us = omega (arith, count-append p ts us)

-- a step of the thread `c`, or of none: what it pushes, and what is left to push
abbrev Pushes : List Caller → Shared → List HttpTransaction → Option (List Caller × Shared) → Type 0
Pushes cs s items none = Unit {0}
Pushes cs s items (some r) =
    (r.1.tx_queue ≡ s.tx_queue ++ items)
    × ((p : HttpTransaction → Bool)
        → count p items + count p (unpushed r.0) ≡ count p (unpushed cs))

exchange-Pushes :
    (b : Bool) (s : Shared) (cs : List Caller)
    → Pushes
        (to_exchange ∷ cs)
        s
        []
        (advance zero (to_exchange ∷ cs) (record s { update_pending = b }))
unfolding advance call_step exchange_pending unpushed
exchange-Pushes true s cs = (sym (append-nil s.tx_queue), λ p. omega arith)
exchange-Pushes false s cs = (sym (append-nil s.tx_queue), λ p. omega arith)

unpushed-cons :
    (c : Caller) (cs : List Caller) → unpushed (c ∷ cs) ≡ unpushed (c ∷ []) ++ unpushed cs
unfolding unpushed
unpushed-cons (to_push t) cs = refl
unpushed-cons to_exchange cs = refl
unpushed-cons to_post cs = refl
unpushed-cons done cs = refl

count-unpushed :
    (p : HttpTransaction → Bool) (c : Caller) (cs : List Caller)
    → count p (unpushed (c ∷ cs)) ≡ count p (unpushed (c ∷ [])) + count p (unpushed cs)
count-unpushed p c cs = rw (unpushed-cons c cs) (count-append p (unpushed (c ∷ [])) (unpushed cs))

Pushes-cons :
    (c : Caller) (cs : List Caller) (s : Shared) (items : List HttpTransaction)
    (o : Option (List Caller × Shared))
    → Pushes cs s items o
    → Pushes (c ∷ cs) s items (elim o [ none ↦ none | some r ↦ some (c ∷ r.0, r.1) ])
Pushes-cons c cs s items none h = tt
Pushes-cons c cs s items (some r) (q, h) =
    (q, λ p. omega (arith, h p, count-unpushed p c cs, count-unpushed p c r.0))

advance-Pushes :
    (i : ℕ) (cs : List Caller) (s : Shared)
    → Pushes cs s (item_of (get_elem? cs i)) (advance i cs s)
unfolding advance call_step ts_push unpushed
advance-Pushes i [] s = tt
advance-Pushes zero (to_push t ∷ cs) s = (refl, λ p. omega arith)
advance-Pushes zero (to_exchange ∷ cs) s = exchange-Pushes s.update_pending s cs
advance-Pushes zero (to_post ∷ cs) s = (sym (append-nil s.tx_queue), λ p. omega arith)
advance-Pushes zero (done ∷ cs) s = tt
advance-Pushes (suc i) (c ∷ cs) s =
    Pushes-cons c cs s (item_of (get_elem? cs i)) (advance i cs s) (advance-Pushes i cs s)

-- What a move keeps: what is shown or waits only grows by what it pushes.
abbrev Grows : Move → World → World → Type 0
Grows m w next =
    (reported next ≡ reported w ++ pushed_by m w)
    × ((p : HttpTransaction → Bool)
        → count p (pushed_by m w) + count p (unpushed next.callers)
          ≡ count p (unpushed w.callers) + count p (reports (m ∷ [])))

abbrev GrowsTo : Move → World → Option World → Type 0
GrowsTo m w none = (p : HttpTransaction → Bool) → count p (reports (m ∷ [])) ≡ 0
GrowsTo m w (some next) = Grows m w next

refreshed_lem : (w : World) → reported (record w { app = refresh_history w.app }) ≡ reported w ++ []
refreshed_lem w =
    ap (λ s. (refresh_history w.app).history.entries ++ s.tx_queue) (refresh-shared w.app)
    ∙ (append-nil (refresh_history w.app).history.entries
        ∙ (refresh-entries w.app ∙ sym (append-nil (reported w))))

go_on-Grows :
    (i : ℕ) (w : World) (o : Option (List Caller × Shared))
    → Pushes w.callers w.app.shared (item_of (get_elem? w.callers i)) o
    → GrowsTo (go_on i) w (elim o [
      | none ↦ none
      | some r ↦ some (record w { app = record w.app { shared = r.1 }; callers = r.0 })
    ])
unfolding pushed_by reports
go_on-Grows i w none h = λ p. refl
go_on-Grows i w (some r) (q, h) = (
  ap (w.app.history.entries ++◌) q
      ∙ sym (append_assoc w.app.history.entries w.app.shared.tx_queue _),
  λ p. omega (arith, h p),
)

ui-Grows :
    (ui : Ui) (w : World) → GrowsTo ui_step (record w { ui = ui }) (ui_next (record w { ui = ui }))
unfolding ui_next clear_pending pushed_by reports
ui-Grows idle w = elim (Bool-cases (ltb 0 w.app.shared.posted)) [
  | inl e ↦ rw e (sym (append-nil (reported w)), λ p. omega arith)
  | inr e ↦ rw e (λ p. refl)
]
ui-Grows taken w = (sym (append-nil (reported w)), λ p. omega arith)
ui-Grows cleared w = (refreshed_lem w, λ p. omega arith)

show-Grows :
    (ui : Ui) (w : World)
    → GrowsTo show_history (record w { ui = ui }) (move show_history (record w { ui = ui }))
unfolding move pushed_by reports
show-Grows idle w = (refreshed_lem w, λ p. omega arith)
show-Grows taken w = λ p. refl
show-Grows cleared w = λ p. refl

unpushed-append :
    (p : HttpTransaction → Bool) (cs : List Caller) (c : Caller)
    → count p (unpushed (cs ++ c ∷ [])) ≡ count p (unpushed cs) + count p (unpushed (c ∷ []))
unfolding unpushed
unpushed-append p [] c = omega arith
unpushed-append p (d ∷ cs) c =
    omega (arith, unpushed-append p cs c, count-unpushed p d (cs ++ c ∷ []), count-unpushed p d cs)

to_push_lem :
    (p : HttpTransaction → Bool) (t : HttpTransaction)
    → count p (unpushed (to_push t ∷ [])) ≡ flag (p t)
unfolding unpushed
to_push_lem p t = omega arith

to_exchange_lem : (p : HttpTransaction → Bool) → count p (unpushed (to_exchange ∷ [])) ≡ 0
unfolding unpushed
to_exchange_lem p = refl

move-Grows : (m : Move) (w : World) → GrowsTo m w (move m w)
unfolding move pushed_by reports
move-Grows (report t) w = (
  sym (append-nil (reported w)),
  λ p. omega (arith, unpushed-append p w.callers (to_push t), to_push_lem p t),
)
move-Grows pull w = (
  sym (append-nil (reported w)),
  λ p. omega (arith, unpushed-append p w.callers to_exchange, to_exchange_lem p),
)
move-Grows (go_on i) w = go_on-Grows i w _ (advance-Pushes i w.callers w.app.shared)
move-Grows ui_step w = ui-Grows w.ui w
move-Grows show_history w = show-Grows w.ui w
move-Grows post w = (sym (append-nil (reported w)), λ p. omega arith)

-- what a history of moves keeps
abbrev pub RunGrows : List Move → World → World → List HttpTransaction → Type 0
RunGrows ms w end items =
    (reported end ≡ reported w ++ items)
    × ((p : HttpTransaction → Bool)
        → count p items + count p (unpushed end.callers)
          ≡ count p (unpushed w.callers) + count p (reports ms))

reports-cons :
    (p : HttpTransaction → Bool) (m : Move) (ms : List Move)
    → count p (reports (m ∷ ms)) ≡ count p (reports (m ∷ [])) + count p (reports ms)
unfolding reports
reports-cons p (report t) ms = omega arith
reports-cons p pull ms = omega arith
reports-cons p (go_on i) ms = omega arith
reports-cons p ui_step ms = omega arith
reports-cons p show_history ms = omega arith
reports-cons p post ms = omega arith

nothing_lem :
    (w : World) (p : HttpTransaction → Bool)
    → 0 + count p (unpushed w.callers) ≡ count p (unpushed w.callers) + count p (reports [])
unfolding reports
nothing_lem w p = omega arith

RunGrows-step :
    (m : Move) (ms : List Move) (w : World) (o : Option World)
    → GrowsTo m w o
    → ((v : World) → RunGrows ms v (run ms v) (pushes ms v))
    → RunGrows
        (m ∷ ms)
        w
        (elim o [ none ↦ run ms w | some next ↦ run ms next ])
        (elim o [ none ↦ pushes ms w | some next ↦ pushed_by m w ++ pushes ms next ])
RunGrows-step m ms w none h ih =
    let (r, k) = ih w in (r, λ p. omega (arith, h p, k p, reports-cons p m ms))
RunGrows-step m ms w (some next) (q, h) ih =
    let (r, k) = ih next in
    (
      r ∙ (ap (◌++ pushes ms next) q ∙ append_assoc (reported w) (pushed_by m w) (pushes ms next)),
      λ p.
          omega
            (arith, h p, k p, count-append p (pushed_by m w) (pushes ms next), reports-cons p m ms),
    )

pub run-RunGrows : (ms : List Move) (w : World) → RunGrows ms w (run ms w) (pushes ms w)
unfolding run pushes
run-RunGrows [] w = (sym (append-nil (reported w)), nothing_lem w)
run-RunGrows (m ∷ ms) w = RunGrows-step m ms w (move m w) (move-Grows m w) (run-RunGrows ms)
