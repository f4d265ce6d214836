-- ===== src/App/Server/Accepting.antt =====
-- A server that serves waits for one connection at a time.
use burp_tui.Prelude.{
  ℕ, ◌+◌, ◌≤◌, ◌≡◌, ◌⊎◌, inl, inr, refl, sym, ap, ◌∙◌, Bool, true, false, not, List, [], ◌∷◌, ◌&&◌,
  if◌then◌else◌, arith,
}
use burp_tui.App.Server.{
  Server, new_server, StartAnswers, do_accept, start_thread, start, stop, Completion, accepted,
  accept_error, handler_threw, complete, Step, starting, stopping, completing, step, run,
}

abbrev flag : Bool → ℕ
flag true = 1
flag false = 0

-- asio's documentation: opening an acceptor that is open fails.
abbrev pub OpensOnce : List Step → Type 0
OpensOnce [] = Unit {0}
OpensOnce (starting os ∷ cs) = (os.open_ok true ≡ false) × OpensOnce cs
OpensOnce (stopping ∷ cs) = OpensOnce cs
OpensOnce (completing c ∷ cs) = OpensOnce cs

-- A server that serves is running and waits for exactly one connection; none does for more.
abbrev pub IsSound : Server → Type 0
IsSound s =
    ((s.serving ≡ false) ⊎ ((s.running ≡ true) × (s.accepting ≡ 1)))
    × (s.accepting ≤ flag s.acceptor_open)

if_IsSound : (b : Bool) (x y : Server) → IsSound x → IsSound y → IsSound (if b then x else y)
if_IsSound true x y h k = h
if_IsSound false x y h k = k

stopped_lem : (s : Server) → s.running ≡ false → IsSound s → s.serving ≡ false
stopped_lem s r (inl e, a) = e
stopped_lem s r (inr (e, o), a) = absurd (cc (r, e))

thread-IsSound :
    (b : Bool) (os : StartAnswers) (s : Server)
    → s.running ≡ true
    → s.serving ≡ false
    → s.acceptor_open ≡ true
    → s.accepting ≡ 1
    → IsSound (start_thread (record os { thread_ok = b }) s)
unfolding start_thread
thread-IsSound true os s r e o a = (inr (r, a), omega (arith, ap flag o))
thread-IsSound false os s r e o a = (inl e, omega (arith, ap flag o))

-- where the acceptor is not open
closed_lem :
    (os : StartAnswers) (s : Server)
    → s.serving ≡ false
    → s.accepting ≤ 0
    → IsSound (start os (record s { running = false; acceptor_open = false }))
unfolding start do_accept
closed_lem os s e a =
    if_IsSound (not os.resolve_ok) _ _ (inl e, a)
      (if_IsSound (not (os.open_ok false)) _ _ (inl e, a)
        (if_IsSound (not (os.reuse_ok && (os.bind_ok && os.listen_ok))) _ _ (inl e, omega arith)
          (thread-IsSound os.thread_ok os
            (record s { acceptor_open = true; running = true; accepting = s.accepting + 1 }) refl e
            refl (omega arith))))

open_lem :
    (b : Bool) (os : StartAnswers) (s : Server)
    → b ≡ os.open_ok true
    → b ≡ false
    → s.serving ≡ false
    → s.accepting ≤ 1
    → IsSound (start os (record s { running = false; acceptor_open = true }))
unfolding start
open_lem b os s o h e a = rw (sym o ∙ h) (if_IsSound (not os.resolve_ok) _ _ (inl e, a) (inl e, a))

serving_lem :
    (s : Server) → (s.serving ≡ false) ⊎ ((false ≡ true) × (s.accepting ≡ 1)) → s.serving ≡ false
serving_lem s (inl e) = e
serving_lem s (inr (e, o)) = absurd (cc (e))

start-IsSound :
    (b o : Bool) (os : StartAnswers) (s : Server)
    → os.open_ok true ≡ false
    → IsSound (record s { running = b; acceptor_open = o })
    → IsSound (start os (record s { running = b; acceptor_open = o }))
unfolding start
start-IsSound true o os s h i = i
start-IsSound false true os s h (i, a) = open_lem (os.open_ok true) os s refl h (serving_lem s i) a
start-IsSound false false os s h (i, a) = closed_lem os s (serving_lem s i) a

stop-IsSound :
    (b : Bool) (s : Server)
    → IsSound (record s { running = b })
    → IsSound (stop (record s { running = b }))
unfolding stop
stop-IsSound true s h = (inl refl, omega arith)
stop-IsSound false s h = h

complete-IsSound :
    (c : Completion) (s : Server)
    → s.accepting ≡ 1
    → s.accepting ≤ flag s.acceptor_open
    → IsSound (complete c (record s { running = true }))
unfolding complete do_accept
complete-IsSound (accepted true) s e a = (inl refl, omega arith)
complete-IsSound (accepted false) s e a = (inr (refl, omega arith), omega arith)
complete-IsSound accept_error s e a = (inr (refl, omega arith), omega arith)
complete-IsSound handler_threw s e a = (inl refl, a)

serving-IsSound :
    (b r : Bool) (c : Completion) (s : Server)
    → IsSound (record s { running = r; serving = b })
    → IsSound (
        if b
        then complete c (record s { running = r; serving = b })
        else record s { running = r; serving = b })
serving-IsSound false r c s h = h
serving-IsSound true r c s (inl e, a) = absurd (cc (e))
serving-IsSound true true c s (inr (e, o), a) = complete-IsSound c (record s { serving = true }) o a
serving-IsSound true false c s (inr (e, o), a) = absurd (cc (e))

-- From a new server.
run-IsSound : (cs : List Step) (s : Server) → OpensOnce cs → IsSound s → IsSound (run cs s)
unfolding run step
run-IsSound [] s h i = i
run-IsSound (starting os ∷ cs) s (o, h) i =
    run-IsSound cs _ h (start-IsSound s.running s.acceptor_open os s o i)
run-IsSound (stopping ∷ cs) s h i = run-IsSound cs _ h (stop-IsSound s.running s i)
run-IsSound (completing c ∷ cs) s h i =
    run-IsSound cs _ h (serving-IsSound s.serving s.running c s i)

-- From a new server, over any history of starts, stops and completions, with or without errors and
-- exceptions, where opening an acceptor that is open already fails: a server that serves is running
-- and waits for exactly one connection, and no server waits for more than one, or for one with its
-- acceptor closed.
pub one_accept : (cs : List Step) → OpensOnce cs → IsSound (run cs new_server)
one_accept cs h = run-IsSound cs new_server h (inl refl, omega arith)
