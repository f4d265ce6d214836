-- ===== src/App/Server/Deaf.antt =====
-- When the server accepts no connections any more, and whether it says so.
use burp_tui.Prelude.{
  ℕ, ◌+◌, ◌≡◌, refl, ap, ◌∙◌, Bool, true, false, not, List, [], ◌∷◌, ◌&&◌, if◌then◌else◌,
}
use burp_tui.App.Server.{
  Server, new_server, StartAnswers, do_accept, start_thread, start, stop, Completion, handler_threw,
  complete, Step, starting, stopping, completing, step, run,
}

abbrev IsDead : ℕ → Server → Type 0
IsDead n s = (s.io_stopped ≡ true) × (s.serving ≡ false) × (s.sessions ≡ n)

thread-IsDead :
    (b : Bool) (n : ℕ) (os : StartAnswers) (s : Server)
    → IsDead n s
    → IsDead n (start_thread (record os { thread_ok = b }) s)
unfolding start_thread
thread-IsDead true n os s (i, e, h) = (i, ap not i, h)
thread-IsDead false n os s h = h

if_IsDead :
    (n : ℕ) (b : Bool) (x y : Server) → IsDead n x → IsDead n y → IsDead n (if b then x else y)
if_IsDead n true x y h k = h
if_IsDead n false x y h k = k

start-IsDead : (n : ℕ) (os : StartAnswers) (s : Server) → IsDead n s → IsDead n (start os s)
unfolding start do_accept
start-IsDead n os s h = if_IsDead n s.running _ _ h (
    if_IsDead n (not os.resolve_ok) _ _ h (
      if_IsDead n (not (os.open_ok s.acceptor_open)) _ _ h (
        if_IsDead n (not (os.reuse_ok && (os.bind_ok && os.listen_ok))) _ _ h (
          thread-IsDead os.thread_ok n os
            (record s { acceptor_open = true; running = true; accepting = s.accepting + 1 }) h))))

stop-IsDead : (n : ℕ) (s : Server) → IsDead n s → IsDead n (stop s)
unfolding stop
stop-IsDead n s (i, e, h) = if_IsDead n s.running _ _ (refl, refl, h) (i, e, h)

completing-IsDead :
    (b : Bool) (n : ℕ) (c : Completion) (s : Server)
    → IsDead n (record s { serving = b })
    → IsDead n (if b then complete c (record s { serving = b }) else record s { serving = b })
completing-IsDead true n c s (i, e, h) = absurd (cc (e))
completing-IsDead false n c s h = h

run-IsDead : (cs : List Step) (n : ℕ) (s : Server) → IsDead n s → IsDead n (run cs s)
unfolding run step
run-IsDead [] n s h = h
run-IsDead (starting os ∷ cs) n s h = run-IsDead cs n _ (start-IsDead n os s h)
run-IsDead (stopping ∷ cs) n s h = run-IsDead cs n _ (stop-IsDead n s h)
run-IsDead (completing c ∷ cs) n s h = run-IsDead cs n _ (completing-IsDead s.serving n c s h)

stop-IsDead_running :
    (b : Bool) (s : Server) → b ≡ true → IsDead s.sessions (stop (record s { running = b }))
unfolding stop
stop-IsDead_running true s h = (refl, refl, refl)
stop-IsDead_running false s h = absurd (cc (h))

abbrev pub all_fine : StartAnswers
all_fine = record {
  resolve_ok = true;
  open_ok = not;
  reuse_ok = true;
  bind_ok = true;
  listen_ok = true;
  thread_ok = true;
}

restart_lem :
    (b : Bool) (s : Server)
    → b ≡ true
    → (start all_fine (stop (record s { running = b }))).running ≡ true
unfolding start stop do_accept start_thread
restart_lem true s h = refl
restart_lem false s h = absurd (cc (h))

-- Once a running server is stopped, it is given no connection any more, whatever is started,
-- stopped and completed afterwards; but a start of it that meets no error says that it is running.
pub stopped_for_good :
    (cs : List Step) (s : Server)
    → s.running ≡ true
    → ((run cs (stop s)).sessions ≡ s.sessions) × ((start all_fine (stop s)).running ≡ true)
stopped_for_good cs s h = (
  (run-IsDead cs s.sessions (stop s) (stop-IsDead_running s.running s h)).2,
  restart_lem s.running s h,
)

abbrev pub never_stops : List Step → Bool
never_stops [] = true
never_stops (stopping ∷ cs) = false
never_stops (starting os ∷ cs) = never_stops cs
never_stops (completing c ∷ cs) = never_stops cs

deaf_lem :
    (cs : List Step) (s : Server)
    → never_stops cs ≡ true
    → let end = run cs (record s { running = true; serving = false }) in
      (end.running ≡ true) × (end.sessions ≡ s.sessions)
unfolding run step start
deaf_lem [] s h = (refl, refl)
deaf_lem (stopping ∷ cs) s h = absurd (cc (h))
deaf_lem (starting os ∷ cs) s h = deaf_lem cs s h
deaf_lem (completing c ∷ cs) s h = deaf_lem cs s h

thrown_lem :
    (b : Bool) (cs : List Step) (s : Server)
    → b ≡ true
    → never_stops cs ≡ true
    → let end = run cs (complete handler_threw (record s { running = b })) in
      (end.running ≡ true) × (end.sessions ≡ s.sessions)
unfolding complete
thrown_lem true cs s e h = deaf_lem cs s h
thrown_lem false cs s e h = absurd (cc (e))

-- After a handler of a running server throws, and until it is stopped, the server says that it is
-- running, and is given no connection any more, whatever completes and however often it is started.
pub thrown_deaf :
    (cs : List Step) (s : Server)
    → s.running ≡ true
    → never_stops cs ≡ true
    → ((run cs (complete handler_threw s)).running ≡ true)
      × ((run cs (complete handler_threw s)).sessions ≡ s.sessions)
thrown_deaf cs s e h = thrown_lem s.running cs s e h

-- Every open of an open acceptor fails, as asio documents.
abbrev pub OpenOnce : List StartAnswers → Type 0
OpenOnce [] = Unit {0}
OpenOnce (os ∷ oss) = (os.open_ok true ≡ false) × OpenOnce oss

unfoldable pub start_all : List StartAnswers → Server → Server
start_all [] s = s
start_all (os ∷ oss) s = start_all oss (start os s)

if_same : {A : Type 0} (b : Bool) (x : A) → (if b then x else x) ≡ x
if_same true x = refl
if_same false x = refl

again_lem :
    (os : StartAnswers) (s : Server)
    → os.open_ok true ≡ false
    → start os (record s { running = false; acceptor_open = true })
      ≡ record s { running = false; acceptor_open = true }
unfolding start
again_lem os s h = rw h (if_same (not os.resolve_ok) _)

all_lem :
    (oss : List StartAnswers) (s : Server)
    → OpenOnce oss
    → (start_all oss (record s { running = false; acceptor_open = true })).running ≡ false
unfolding start_all
all_lem [] s h = refl
all_lem (os ∷ oss) s (o, h) =
    ap (λ t. (start_all oss t).running) (again_lem os s o) ∙ all_lem oss s h

if_never : {A : Type 0} (b : Bool) (x y : A) → (if not (b && false) then x else y) ≡ x
if_never true x y = refl
if_never false x y = refl

first_lem :
    (os : StartAnswers)
    → os.resolve_ok ≡ true
    → os.open_ok false ≡ true
    → os.bind_ok ≡ false
    → start os new_server ≡ record new_server { acceptor_open = true }
unfolding start
first_lem os r o b = rw (r, o, b) (if_never os.reuse_ok _ _)

-- When the first start of a new server resolves its address and opens the acceptor but fails to bind
-- it, no later start succeeds, whatever else it meets, where opening an acceptor that is open
-- already fails.
pub failed_start_sticks :
    (os : StartAnswers) (oss : List StartAnswers)
    → os.resolve_ok ≡ true
    → os.open_ok false ≡ true
    → os.bind_ok ≡ false
    → OpenOnce oss
    → (start_all (os ∷ oss) new_server).running ≡ false
unfolding start_all
failed_start_sticks os oss r o b h =
    ap (λ t. (start_all oss t).running) (first_lem os r o b) ∙ all_lem oss new_server h
