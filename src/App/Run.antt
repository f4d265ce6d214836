-- ===== src/App/Run.antt =====
-- `App::run` and the destructor of `App` (src/app/App.cpp): the certificates, the proxy and the
-- interface, one after the other. What the server is asked to do while the interface runs, and
-- which calls throw, are arguments.
use burp_tui.Prelude.{
  ℕ, Bool, true, false, not, Option, none, some, List, ◌≡◌, is_some, ◌⊎◌, inl, inr, refl, sym, ◌∙◌,
  ◌&&◌, if◌then◌else◌,
}
use burp_tui.Proxy.Certs.SslInit.{
  SslInit, InitAnswers, Result, returned, threw, new_ssl_init, initialize,
}
use burp_tui.Proxy.Certs.Lifetime.{initialize_new}
use burp_tui.Proxy.Certs.Lifetime.Root.{answer_of}
use burp_tui.App.Server.{Server, new_server, StartAnswers, start, stop, Step}
use burp_tui.App.Server
use burp_tui.App.Args.{Config}

-- the value returned, `none` for an exception; whether the interface was run; the server at the end,
-- or as it is when the exception leaves `run`
pub record Ran : Type 0 where
  pub exit_code : Option ℕ
  pub shown : Bool
  pub ssl : SslInit
  pub server : Server

-- Whether the constructors of `TuiApp` and `ProxyServer`, and `tui.run()`, return, rather than throw.
-- Nothing catches such an exception: it ends the process, and `~App` does not run.
pub record Endings : Type 0 where
  pub tui_made : Bool
  pub server_made : Bool
  pub tui_returns : Bool

-- from `if (!proxy_->isRunning())` on
unfoldable pub run_started : Endings → List Step → SslInit → Server → Ran
unfolding Server.run
run_started ends during ssl started =
    if not started.running
    then record { exit_code = some 1; shown = false; ssl = ssl; server = stop started }
    else if not ends.tui_returns
    then record { exit_code = none; shown = true; ssl = ssl; server = Server.run during started }
    else record {
      exit_code = some 0;
      shown = true;
      ssl = ssl;
      server = stop (stop (Server.run during started));
    }

-- what `run` is when an exception leaves it before the proxy is started
abbrev pub thrown_early : SslInit → Ran
thrown_early ssl = record { exit_code = none; shown = false; ssl = ssl; server = new_server }

-- from the interface and the proxy on, once the authority is set up
unfoldable pub run_set_up : StartAnswers → Endings → List Step → SslInit → Ran
unfolding run_started
run_set_up os ends during ssl =
    if not (ends.tui_made && ends.server_made)
    then thrown_early ssl
    else run_started ends during ssl (start os new_server)

abbrev pub run_with : StartAnswers → Endings → List Step → Result × SslInit → Ran
run_with os ends during (threw, ssl) = thrown_early ssl
run_with os ends during (returned false, ssl) = record {
  exit_code = some 1;
  shown = false;
  ssl = ssl;
  server = new_server;
}
run_with os ends during (returned true, ssl) = run_set_up os ends during ssl

unfoldable pub run : InitAnswers → StartAnswers → Endings → List Step → Config → Ran
unfolding run_set_up
run init os ends during cfg = run_with os ends during (initialize init cfg.ca_dir new_ssl_init).1

stop_at : (b : Bool) (s : Server) → (stop (record s { running = b })).running ≡ false
unfolding stop
stop_at true s = refl
stop_at false s = refl

stop_lem : (s : Server) → (stop s).running ≡ false
stop_lem s = stop_at s.running s

-- The certificate authority is there.
abbrev IsSetUp : SslInit → Type 0
IsSetUp ssl = (ssl.initialized ≡ true) × (is_some ssl.ca_cert ≡ true) × (is_some ssl.ca_key ≡ true)

-- How `run` may end, where the proxy is `proxy` once it was started.
abbrev pub IsRun : Endings → List Step → Server → Ran → Type 0
IsRun ends during proxy r =
    let made = ends.tui_made && ends.server_made in
    ((r.exit_code ≡ some 0)
      × (r.shown ≡ true)
      × IsSetUp r.ssl
      × (made ≡ true)
      × (proxy.running ≡ true)
      × (ends.tui_returns ≡ true)
      × (r.server.running ≡ false))
    ⊎ ((r.exit_code ≡ some 1)
        × (r.shown ≡ false)
        × ((r.ssl.initialized ≡ false) ⊎ (IsSetUp r.ssl × (made ≡ true) × (proxy.running ≡ false)))
        × (r.server.running ≡ false))
    ⊎ ((r.exit_code ≡ none)
        × (r.shown ≡ false)
        × ((r.ssl.initialized ≡ false) ⊎ (IsSetUp r.ssl × (made ≡ false)))
        × (r.server ≡ new_server))
    ⊎ ((r.exit_code ≡ none)
        × (r.shown ≡ true)
        × IsSetUp r.ssl
        × (made ≡ true)
        × (proxy.running ≡ true)
        × (ends.tui_returns ≡ false)
        × (r.server ≡ Server.run during proxy))

module _ (during : List Step) (ssl : SslInit) (h : IsSetUp ssl) where
  started_lem :
      (running returns : Bool) (s : Server)
      → let ends : Endings = record {
        tui_made = true;
        server_made = true;
        tui_returns = returns;
      } in
        let proxy = record s { running = running } in
        IsRun ends during proxy (run_started ends during ssl proxy)
  unfolding run_started
  started_lem true true s =
      inl (refl, refl, h, refl, refl, refl, stop_lem (stop (Server.run during _)))
  started_lem true false s = inr (inr (inr (refl, refl, h, refl, refl, refl, refl)))
  started_lem false returns s =
      inr (inl (refl, refl, inr (h, refl, refl), stop_lem (record s { running = false })))

  set_up_lem :
      (made proxy_made returns : Bool) (os : StartAnswers)
      → let ends : Endings = record {
        tui_made = made;
        server_made = proxy_made;
        tui_returns = returns;
      } in
        IsRun ends during (start os new_server) (run_set_up os ends during ssl)
  unfolding run_set_up
  set_up_lem true true returns os =
      started_lem (start os new_server).running returns (start os new_server)
  set_up_lem true false returns os = inr (inr (inl (refl, refl, inr (h, refl), refl)))
  set_up_lem false proxy_made returns os = inr (inr (inl (refl, refl, inr (h, refl), refl)))

with_lem :
    (os : StartAnswers) (ends : Endings) (during : List Step) (r : Result × SslInit) (ok : Bool)
    → (answer_of r.0 ≡ ok)
      × (r.1.initialized ≡ ok)
      × (is_some r.1.ca_cert ≡ ok)
      × (is_some r.1.ca_key ≡ ok)
    → IsRun ends during (start os new_server) (run_with os ends during r)
with_lem os ends during (threw, ssl) ok (a, i, c, k) =
    inr (inr (inl (refl, refl, inl (i ∙ sym a), refl)))
with_lem os ends during (returned false, ssl) ok (a, i, c, k) =
    inr (inl (refl, refl, inl (i ∙ sym a), refl))
with_lem os ends during (returned true, ssl) ok (a, i, c, k) =
    set_up_lem during ssl (i ∙ sym a, c ∙ sym a, k ∙ sym a) ends.tui_made ends.server_made
      ends.tui_returns os

-- Whatever OpenSSL, the file system and the operating system answer, and whatever the proxy does
-- while the interface runs, `run` ends in one of four ways. It returns 0 when the authority is set
-- up, the interface and the proxy are made, the proxy has started and the interface ran and
-- returned; the proxy is then stopped. It returns 1, without running the interface and with no
-- running proxy, when setting up the authority fails or the proxy, once made, does not start. An
-- exception leaves it before the proxy is started, when setting up the authority or making the
-- interface or the proxy throws. And an exception that leaves the interface while the proxy runs
-- leaves `run` too; the proxy is then as it was, and not stopped.
pub run_lem :
    (init : InitAnswers) (os : StartAnswers) (ends : Endings) (during : List Step) (cfg : Config)
    → IsRun ends during (start os new_server) (run init os ends during cfg)
unfolding run
run_lem init os ends during cfg =
    let (ok, a, i, c, k) = initialize_new init cfg.ca_dir in
    with_lem os ends during (initialize init cfg.ca_dir new_ssl_init).1 ok (a, i, c, k)
