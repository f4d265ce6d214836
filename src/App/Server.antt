-- ===== src/App/Server.antt =====
-- The proxy server (src/proxy/ProxyServer.cpp). What asio and the operating system answer are
-- arguments; `open` is asked with whether the acceptor is open already. The io context runs handlers
-- on the server's thread until it is stopped, or a handler throws; it is never restarted.
use burp_tui.Prelude.{ℕ, ◌+◌, ◌-◌, Bool, true, false, not, List, [], ◌∷◌, ◌&&◌, if◌then◌else◌}
pub mod Accepting
pub mod Deaf

pub record Server : Type 0 where
  pub running : Bool
  pub acceptor_open : Bool
  pub io_stopped : Bool
  -- the thread is inside `io_context_.run()`
  pub serving : Bool
  pub thread_joinable : Bool
  -- the calls of `async_accept` that have not completed
  pub accepting : ℕ
  pub sessions : ℕ

abbrev pub new_server : Server
new_server = record {
  running = false;
  acceptor_open = false;
  io_stopped = false;
  serving = false;
  thread_joinable = false;
  accepting = 0;
  sessions = 0;
}

pub record StartAnswers : Type 0 where
  pub resolve_ok : Bool
  pub open_ok : Bool → Bool
  pub reuse_ok : Bool
  pub bind_ok : Bool
  pub listen_ok : Bool
  pub thread_ok : Bool

unfoldable pub do_accept : Server → Server
do_accept s = if s.running then record s { accepting = s.accepting + 1 } else s

-- the `catch` of `start`
abbrev pub start_failed : Server → Server
start_failed s = record s { running = false }

-- the thread's function is `io_context_.run()`, which returns at once on a stopped context
unfoldable pub start_thread : StartAnswers → Server → Server
start_thread os s =
    if os.thread_ok
    then record s { thread_joinable = true; serving = not s.io_stopped }
    else start_failed s

unfoldable pub start : StartAnswers → Server → Server
unfolding do_accept start_thread
start os s =
    let opened = record s { acceptor_open = true } in
    if s.running
    then s
    else if not os.resolve_ok
    then start_failed s
    else if not (os.open_ok s.acceptor_open)
    then start_failed s
    else if not (os.reuse_ok && (os.bind_ok && os.listen_ok))
    then start_failed opened
    else start_thread os (do_accept (record opened { running = true }))

-- Closing the acceptor cancels its accept, whose handler a stopped context does not call any more.
unfoldable pub stop : Server → Server
stop s =
    if s.running
    then record s {
      running = false;
      acceptor_open = false;
      accepting = 0;
      io_stopped = true;
      serving = false;
      thread_joinable = false;
    }
    else s

-- What the io context calls: the handler of `async_accept`, with or without an error, where the
-- session's `start` may throw; or another handler, which may throw.
pub data Completion : Type 0 where
  accepted : (start_throws : Bool) → Completion
  accept_error : Completion
  handler_threw : Completion

unfoldable pub complete : Completion → Server → Server
unfolding do_accept
complete (accepted throws) s =
    let started = record s { accepting = s.accepting - 1; sessions = s.sessions + 1 } in
    if throws then record started { serving = false } else do_accept started
complete accept_error s = do_accept (record s { accepting = s.accepting - 1 })
complete handler_threw s = record s { serving = false }

pub data Step : Type 0 where
  starting : StartAnswers → Step
  stopping : Step
  completing : Completion → Step

-- Nothing completes while the context is not run.
unfoldable pub step : Step → Server → Server
unfolding start stop complete
step (starting os) s = start os s
step stopping s = stop s
step (completing c) s = if s.serving then complete c s else s

unfoldable pub run : List Step → Server → Server
unfolding step
run [] s = s
run (c ∷ cs) s = run cs (step c s)
