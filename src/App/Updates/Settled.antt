-- ===== src/App/Updates/Settled.antt =====
-- When the threads and the interface have no step left, every reported transaction is shown; and
-- they come to that point.
use burp_tui.Prelude.{
  ℕ, suc, ◌+◌, ◌≤◌, ◌<◌, min, ◌≡◌, inl, inr, refl, sym, ap, ◌∙◌, Bool, true, false, Option, none,
  some, List, [], ◌∷◌, ◌++◌, arith, if◌then◌else◌, ltb, ◌&&◌, length, Bool-cases, append-nil,
}
use burp_tui.Http.Message.{HttpTransaction}
use burp_tui.App.TuiApp.{Shared, TuiApp, clear_pending}
use burp_tui.App.Updates.Refreshed.{refresh-shared}
use burp_tui.App.Updates.{
  Caller, to_push, to_exchange, to_post, done, Ui, idle, taken, cleared, call_step, advance, World,
  Move, report, pull, go_on, ui_step, show_history, post, ui_next, move, run,
}
use burp_tui.App.Updates.Counted.{
  is_taken, is_cleared, exchanges, posts, left, IsWatched, run-IsWatched, Went, pushed, lost, won,
  posted_one, IsStep, advance-IsStep,
}
use burp_tui.App.Updates.Shown.{unpushed, pushes, reports, count, IsQuiet, run-RunGrows}

if_none : {A : Type 0} (b : Bool) (x : A) → (if b then some x else none) ≡ none → b ≡ false
if_none true x h = absurd (cc (h))
if_none false x h = refl

map_none :
    {A B : Type 0} (f : A → B) (o : Option A)
    → (elim o as (λ x. Option B) [ none ↦ none | some a ↦ some (f a) ]) ≡ none
    → o ≡ none
map_none f none h = refl
map_none f (some a) h = absurd (cc (h))

ui-quiet :
    (ui : Ui) (w : World)
    → ui_next (record w { ui = ui }) ≡ none
    → (ui ≡ idle) × (w.app.shared.posted ≡ 0)
unfolding ui_next
ui-quiet idle w h = let e = if_none (ltb 0 w.app.shared.posted) _ h in (refl, ground (arith, e))
ui-quiet taken w h = absurd (cc (h))
ui-quiet cleared w h = absurd (cc (h))

callers-quiet :
    (cs : List Caller) (s : Shared)
    → ((i : ℕ) → advance i cs s ≡ none)
    → (exchanges cs ≡ 0) × (posts cs ≡ 0) × (unpushed cs ≡ [])
unfolding advance call_step exchanges posts unpushed
callers-quiet [] s h = (refl, refl, refl)
callers-quiet (to_push t ∷ cs) s h = absurd (cc (h 0))
callers-quiet (to_exchange ∷ cs) s h = absurd (cc (h 0))
callers-quiet (to_post ∷ cs) s h = absurd (cc (h 0))
callers-quiet (done ∷ cs) s h =
    let quiet : (i : ℕ) → advance i cs s ≡ none =
      λ i. map_none (λ r. (done ∷ r.0, r.1)) (advance i cs s) (h (suc i)) in
    let rest = callers-quiet cs s quiet in (omega (arith, rest.0), omega (arith, rest.1), rest.2)

abbrev pub started : TuiApp → World
started app = record { app = app; callers = []; ui = idle }

empty_lem : (q : List HttpTransaction) → min 1 (length q) ≤ 0 → q ≡ []
empty_lem [] h = refl
empty_lem (t ∷ q) h = absurd (omega arith)

started-IsWatched :
    (app : TuiApp)
    → app.shared.tx_queue ≡ []
    → app.shared.update_pending ≡ false
    → IsWatched (started app)
started-IsWatched app q f = (rw f (omega arith), rw q (omega arith))

nothing_unpushed : (p : HttpTransaction → Bool) → count p (unpushed []) ≡ 0
unfolding unpushed
nothing_unpushed p = refl

quiet_lem :
    (w : World) → IsWatched w → IsQuiet w → (w.app.shared.tx_queue ≡ []) × (unpushed w.callers ≡ [])
unfolding move
quiet_lem w (h, k) (goes, ui) =
    let quiet : (i : ℕ) → advance i w.callers w.app.shared ≡ none = λ i.
      map_none (λ r. record w { app = record w.app { shared = r.1 }; callers = r.0 }) _ (goes i) in
    let c = callers-quiet w.callers w.app.shared quiet in
    let u = ui-quiet w.ui w ui in
    (
      empty_lem w.app.shared.tx_queue
          (omega (arith, h, k, c.0, c.1, u.1, ap is_taken u.0, ap is_cleared u.0)),
      c.2,
    )

-- From an empty queue and with the update flag unset, over any interleaving of the threads that
-- report transactions, pull the trigger and post events with the steps of the interface: when no
-- thread and no part of the interface has a step left, the queue is empty, the history shows what it
-- showed and then the pushed transactions in the order of their pushes, and these are the reported
-- ones, each as often as it was reported.
pub no_lost_update :
    (app : TuiApp) (ms : List Move)
    → app.shared.tx_queue ≡ []
    → app.shared.update_pending ≡ false
    → IsQuiet (run ms (started app))
    → ((run ms (started app)).app.shared.tx_queue ≡ [])
      × ((run ms (started app)).app.history.entries
          ≡ app.history.entries ++ pushes ms (started app))
      × ((p : HttpTransaction → Bool) → count p (pushes ms (started app)) ≡ count p (reports ms))
no_lost_update app ms q f quiet =
    let end = run ms (started app) in
    let (e, u) = quiet_lem end (run-IsWatched ms (started app) (started-IsWatched app q f)) quiet in
    let (r, c) = run-RunGrows ms (started app) in
    (
      e,
      sym (append-nil end.app.history.entries)
          ∙ (ap (end.app.history.entries ++◌) (sym e)
              ∙ (r
                  ∙ ap (λ q. (app.history.entries ++ q) ++ pushes ms (started app)) q
                  ∙ ap (◌++ pushes ms (started app)) (append-nil app.history.entries))),
      λ p. omega (arith, c p, ap (count p) u, nothing_unpushed p),
    )

-- A step of a thread or of the interface.
abbrev pub is_step : Move → Bool
is_step (go_on i) = true
is_step ui_step = true
is_step _ = false

abbrev Drops : World → Option World → Type 0
Drops w none = Unit {0}
Drops w (some next) = left next < left w

Went-Drops :
    (w : World) (s' : Shared) (cs' : List Caller)
    → Went w.app.shared w.callers s' cs'
    → Drops w (some (record w { app = record w.app { shared = s' }; callers = cs' }))
unfolding left
Went-Drops w s' cs' (pushed t e x p g) = let q = ap (λ s. s.posted) e in omega arith
Went-Drops w s' cs' (lost b e x p g) = let q = ap (λ s. s.posted) e in omega arith
Went-Drops w s' cs' (won b e x p g) = let q = ap (λ s. s.posted) e in omega arith
Went-Drops w s' cs' (posted_one e x p g) = let q = ap (λ s. s.posted) e in omega arith

go_on-Drops :
    (w : World) (o : Option (List Caller × Shared))
    → IsStep w.app.shared w.callers o
    → Drops w (elim o [
      | none ↦ none
      | some r ↦ some (record w { app = record w.app { shared = r.1 }; callers = r.0 })
    ])
go_on-Drops w none h = tt
go_on-Drops w (some r) h = Went-Drops w r.1 r.0 h

ui-Drops : (ui : Ui) (w : World) → Drops (record w { ui = ui }) (ui_next (record w { ui = ui }))
unfolding ui_next clear_pending left
ui-Drops idle w = elim (Bool-cases (ltb 0 w.app.shared.posted)) [
  | inl e ↦ rw e (ground (arith, e))
  | inr e ↦ rw e tt
]
ui-Drops taken w = omega arith
ui-Drops cleared w = omega (arith, ap (λ s. s.posted) (refresh-shared w.app))

move-Drops : (m : Move) (w : World) → is_step m ≡ true → Drops w (move m w)
unfolding move
move-Drops (report t) w h = absurd (cc (h))
move-Drops pull w h = absurd (cc (h))
move-Drops (go_on i) w h = go_on-Drops w _ (advance-IsStep i w.callers w.app.shared)
move-Drops ui_step w h = ui-Drops w.ui w
move-Drops show_history w h = absurd (cc (h))
move-Drops post w h = absurd (cc (h))

abbrev pub are_steps : List Move → Bool
are_steps [] = true
are_steps (m ∷ ms) = is_step m && are_steps ms

-- how many of the moves are possible when their turn comes
unfoldable pub performed : List Move → World → ℕ
performed [] w = 0
performed (m ∷ ms) w = elim (move m w) [ none ↦ performed ms w | some next ↦ 1 + performed ms next ]

bounded_step :
    (ms : List Move) (w : World) (o : Option World)
    → Drops w o
    → ((v : World) → performed ms v + left (run ms v) ≤ left v)
    → (elim o [ none ↦ performed ms w | some next ↦ 1 + performed ms next ])
        + left (elim o [ none ↦ run ms w | some next ↦ run ms next ])
      ≤ left w
bounded_step ms w none h ih = ih w
bounded_step ms w (some next) h ih = omega (arith, ih next)

and_left : (a b : Bool) → a && b ≡ true → a ≡ true
and_left true b h = refl
and_left false b h = h

and_right : (a b : Bool) → a && b ≡ true → b ≡ true
and_right true b h = h
and_right false b h = absurd (cc (h))

-- In any state, however the threads in their calls and the interface take turns while nothing new is
-- reported: the steps they take and those left to them are together at most those left at first.
pub steps_bounded :
    (ms : List Move) (w : World) → are_steps ms ≡ true → performed ms w + left (run ms w) ≤ left w
unfolding performed run
steps_bounded [] w h = omega arith
steps_bounded (m ∷ ms) w h =
    bounded_step ms w (move m w) (move-Drops m w (and_left (is_step m) (are_steps ms) h))
      (λ v. steps_bounded ms v (and_right (is_step m) (are_steps ms) h))
