-- ===== src/Tui/Repeater/Sending.antt =====
-- The request in flight: there is at most one, and its end lets the next one be sent.
use burp_tui.Prelude.{
  ℕ, ◌≡◌, refl, ◌⊎◌, inl, inr, Bytes, Bool, true, false, Option, none, some, List, [], ◌∷◌,
  is_empty, Bool-cases,
}
use burp_tui.Tui.Repeater.{
  RepeaterManager, Sent, new_manager, set_target, set_request, set_raw_request, set_raw_response,
  set_notify_callback, set_switch_tab_callback, execute_request, Outcome, error_text, complete,
}

-- the manager and the threads that have not ended, the last one started first
pub record World : Type 0 where
  pub manager : RepeaterManager
  pub threads : List Sent

abbrev pub new_world : World
new_world = record { manager = new_manager; threads = [] }

pub data Action : Type 0 where
  targeting : (host port : Bytes) → (is_https : Bool) → Action
  requesting : (host port : Bytes) → (is_https : Bool) → (raw : Bytes) → Action
  editing : (raw : Bytes) → Action
  editing_response : (raw : Bytes) → Action
  notifying switching : (given : Bool) → Action
  sending : Action
  ending : Outcome → (ms : ℕ) → Action

abbrev pub launched : Option Sent → List Sent → List Sent
launched none ts = ts
launched (some t) ts = t ∷ ts

-- the end of a thread, where there is one
abbrev pub end_thread : Outcome → ℕ → List Sent → RepeaterManager → World
end_thread o ms [] m = record { manager = m; threads = [] }
end_thread o ms (t ∷ ts) m = record { manager = (complete t o ms m).0; threads = ts }

unfoldable pub act : Action → World → World
unfolding set_target set_request execute_request complete
act (targeting h p s) w = record w { manager = (set_target h p s w.manager).0 }
act (requesting h p s raw) w = record w { manager = (set_request h p s raw w.manager).0 }
act (editing raw) w = record w { manager = set_raw_request raw w.manager }
act (editing_response raw) w = record w { manager = set_raw_response raw w.manager }
act (notifying given) w = record w { manager = set_notify_callback given w.manager }
act (switching given) w = record w { manager = set_switch_tab_callback given w.manager }
act sending w = record {
  manager = (execute_request w.manager).0;
  threads = launched (execute_request w.manager).2 w.threads;
}
act (ending o ms) w = end_thread o ms w.threads w.manager

unfoldable pub run : List Action → World → World
unfolding act
run [] w = w
run (a ∷ more) w = run more (act a w)

-- The flag tells whether there is a thread, and there is at most one.
abbrev pub IsValid : World → Type 0
IsValid w =
    ((w.manager.is_sending ≡ false) × (w.threads ≡ []))
    ⊎ ((w.manager.is_sending ≡ true) × ((t : Sent) × (w.threads ≡ t ∷ [])))

complete-ends :
    (t : Sent) (o : Outcome) (ms : ℕ) (m : RepeaterManager)
    → (complete t o ms m).0.is_sending ≡ false
unfolding complete
complete-ends t o ms m = elim (Bool-cases (is_empty (error_text o))) [
  | inl p ↦ rw p refl
  | inr p ↦ rw p refl
]

-- no thread, or one
idle :
    {b : Bool} {ts : List Sent}
    → b ≡ false
    → ts ≡ []
    → ((b ≡ false) × (ts ≡ [])) ⊎ ((b ≡ true) × ((t : Sent) × (ts ≡ t ∷ [])))
idle h e = inl (h, e)

end_thread-IsValid :
    (o : Outcome) (ms : ℕ) (ts : List Sent) (m : RepeaterManager)
    → IsValid (record { manager = m; threads = ts })
    → IsValid (end_thread o ms ts m)
end_thread-IsValid o ms [] m v = v
end_thread-IsValid o ms (t ∷ []) m v = idle (complete-ends t o ms m) refl
end_thread-IsValid o ms (t ∷ u ∷ ts) m (inl (h, e)) = cc
end_thread-IsValid o ms (t ∷ u ∷ ts) m (inr (h, (s, e))) = cc

execute-busy : (m : RepeaterManager) → m.is_sending ≡ true → execute_request m ≡ (m, [], none)
unfolding execute_request
execute-busy m h = rw h refl

execute-idle :
    (m : RepeaterManager)
    → m.is_sending ≡ false
    → ((execute_request m).0.is_sending ≡ true) × ((t : Sent) × ((execute_request m).2 ≡ some t))
unfolding execute_request
execute-idle m h = rw h (refl, (_, refl))

sending-IsValid : (w : World) → IsValid w → IsValid (act sending w)
unfolding act
sending-IsValid w (inl (h, e)) =
    let (on, (t, sent)) = execute-idle w.manager h in rw (sent, e) (inr (on, (t, refl)))
sending-IsValid w (inr (h, v)) = rw (execute-busy w.manager h) (inr (h, v))

act-IsValid : (a : Action) (w : World) → IsValid w → IsValid (act a w)
unfolding act
act-IsValid (targeting h p s) w v = v
act-IsValid (requesting h p s raw) w v = v
act-IsValid (editing raw) w v = v
act-IsValid (editing_response raw) w v = v
act-IsValid (notifying given) w v = v
act-IsValid (switching given) w v = v
act-IsValid sending w v = sending-IsValid w v
act-IsValid (ending o ms) w v = end_thread-IsValid o ms w.threads w.manager v

run_from : (actions : List Action) (w : World) → IsValid w → IsValid (run actions w)
unfolding run
run_from [] w v = v
run_from (a ∷ more) w v = run_from more (act a w) (act-IsValid a w v)

-- Whatever the user sets, edits and sends and whenever the threads end: there is at most one
-- request in flight, and the flag `isSending_` is set exactly while there is one.
pub one_in_flight : (actions : List Action) → IsValid (run actions new_world)
one_in_flight actions = run_from actions new_world (inl (refl, refl))

ended :
    (o : Outcome) (ms : ℕ) (ts : List Sent) (m : RepeaterManager)
    → IsValid (record { manager = m; threads = ts })
    → ((end_thread o ms ts m).manager.is_sending ≡ false) × ((end_thread o ms ts m).threads ≡ [])
ended o ms [] m (inl v) = v
ended o ms [] m (inr (h, (t, e))) = cc
ended o ms (t ∷ []) m v = (complete-ends t o ms m, refl)
ended o ms (t ∷ u ∷ ts) m (inl (h, e)) = cc
ended o ms (t ∷ u ∷ ts) m (inr (h, (s, e))) = cc

-- However the manager came to its state: once the thread that may be in flight has ended, in
-- whatever way, the next call to send starts a request, and it is the only one in flight.
pub sends_again :
    (actions : List Action) (o : Outcome) (ms : ℕ)
    → (t : Sent) × ((act sending (act (ending o ms) (run actions new_world))).threads ≡ t ∷ [])
unfolding act
sends_again actions o ms =
    let w = run actions new_world in
    let (off, none_left) = ended o ms w.threads w.manager (one_in_flight actions) in
    let (_, (t, sent)) = execute-idle (end_thread o ms w.threads w.manager).manager off in
    (t, rw (sent, none_left) refl)
