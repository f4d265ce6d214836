-- ===== src/App/Tests.antt =====
-- The application's parts, run, and its theorems applied.
use burp_tui.Prelude.{
  ℕ, ◌≤◌, ◌+◌, codes, bytes_eq, stoi, stoi_digits, skip_spaces, read_digits, read_more, Bool, true,
  false, none, some, List, [], ◌∷◌, ◌++◌, ◌≡◌, refl, zero, suc,
}
use burp_tui.Http.Message.{HttpTransaction, empty_transaction}
use burp_tui.Util.Queues.{ts_push, try_pop_all, drain}
use burp_tui.Tui.HistoryTab.{new_tab}
use burp_tui.Proxy.Certs.{Filled}
use burp_tui.Proxy.Certs.SslInit.{InitAnswers}
use burp_tui.App.Args.{default_config, configured, kind_of, unknown, parse_last, parse_args}
use burp_tui.App.Args.Options.{
  Opt, mouse_opt, port_opt, host_opt, word, print_opts, meaning, parse_args-print_opts,
}
use burp_tui.App.TuiApp.{
  TuiApp, Event, function_key, character, trigger, exchange_pending, refresh_history, clear_pending,
  go_to, fallback, catch_event,
}
use burp_tui.App.Updates.{
  World, Move, report, pull, go_on, ui_step, call_step, advance, ui_next, move, run,
}
use burp_tui.App.Updates.Counted.{left}
use burp_tui.App.Updates.Shown.{pushes, reports, count, IsQuiet}
use burp_tui.App.Updates.Settled.{started, no_lost_update, performed, steps_bounded}
use burp_tui.App.Server.{
  Server, new_server, StartAnswers, start, stop, complete, accepted, accept_error, handler_threw,
  Step, starting, stopping, completing, step, do_accept, start_thread,
}
use burp_tui.App.Server
use burp_tui.App.Server.Accepting.{IsSound, one_accept}
use burp_tui.App.Server.Deaf.{
  all_fine, start_all, stopped_for_good, thrown_deaf, failed_start_sticks,
}
use burp_tui.App.Run.{Endings, IsRun, run_lem}
use burp_tui.App.Run

parsed_port :
    parse_args (codes "-p" ∷ codes "70000" ∷ codes "--mouse" ∷ []) default_config
    ≡ configured (record default_config { listen_port = 4464 })
unfolding parse_args parse_last kind_of bytes_eq stoi stoi_digits skip_spaces read_digits read_more
parsed_port = refl

verbose_word : kind_of (codes "-v") ≡ unknown
unfolding kind_of bytes_eq
verbose_word = refl

abbrev some_opts : List Opt
some_opts =
    mouse_opt true
    ∷ port_opt false (codes "70000")
    ∷ word (codes "-v") verbose_word
    ∷ host_opt (codes "--host")
    ∷ []

parse_args-print_opts_example :
    parse_args (print_opts some_opts) default_config ≡ meaning some_opts default_config
parse_args-print_opts_example = parse_args-print_opts some_opts default_config

abbrev some_app : TuiApp
some_app = record {
  shared = record { tx_queue = []; update_pending = false; posted = 0 };
  active_tab = 0;
  exited = false;
  history = new_tab [];
  refreshed = [];
}

abbrev ignoring : Event → TuiApp → Bool × TuiApp
ignoring e app = (false, app)

keys :
    ((catch_event ignoring (character 51) some_app).1.active_tab ≡ 2)
    × ((catch_event ignoring (character 113) some_app).1.exited ≡ true)
    × ((catch_event (λ e app. (true, app)) (character 113) some_app).1.exited ≡ false)
    × ((catch_event ignoring (function_key 4) some_app).1.active_tab ≡ 3)
    × ((trigger (trigger some_app.shared)).posted ≡ 1)
unfolding catch_event fallback go_to trigger exchange_pending
keys = (refl, refl, refl, refl, refl)

-- Two threads report, the second while the first has not posted yet.
abbrev two_reports : List Move
two_reports =
    report (record empty_transaction { id = 1 })
    ∷ report (record empty_transaction { id = 2 })
    ∷ go_on 0
    ∷ go_on 0
    ∷ go_on 1
    ∷ go_on 1
    ∷ go_on 0
    ∷ ui_step
    ∷ ui_step
    ∷ ui_step
    ∷ []

two_reports-IsQuiet : IsQuiet (run two_reports (started some_app))
unfolding run move advance call_step ui_next refresh_history clear_pending ts_push try_pop_all drain
    exchange_pending
two_reports-IsQuiet = (quiet, refl)
  where
    quiet : (i : ℕ) → move (go_on i) (run two_reports (started some_app)) ≡ none
    quiet zero = refl
    quiet (suc zero) = refl
    quiet (suc (suc i)) = refl

no_lost_update_example :
    ((run two_reports (started some_app)).app.shared.tx_queue ≡ [])
    × ((run two_reports (started some_app)).app.history.entries
        ≡ some_app.history.entries ++ pushes two_reports (started some_app))
    × ((p : HttpTransaction → Bool)
        → count p (pushes two_reports (started some_app)) ≡ count p (reports two_reports))
no_lost_update_example = no_lost_update some_app two_reports refl refl two_reports-IsQuiet

abbrev one_waiting : World
one_waiting = run (report empty_transaction ∷ pull ∷ []) (started some_app)

abbrev some_steps : List Move
some_steps = go_on 1 ∷ go_on 0 ∷ ui_step ∷ go_on 1 ∷ ui_step ∷ go_on 0 ∷ []

steps_bounded_example :
    performed some_steps one_waiting + left (run some_steps one_waiting) ≤ left one_waiting
steps_bounded_example = steps_bounded some_steps one_waiting refl

abbrev some_service : List Step
some_service =
    starting all_fine
    ∷ completing (accepted false)
    ∷ completing accept_error
    ∷ starting all_fine
    ∷ completing (accepted false)
    ∷ []

one_accept_example : IsSound (Server.run some_service new_server)
one_accept_example = one_accept some_service (refl, (refl, tt))

served : (Server.run some_service new_server).sessions ≡ 2
unfolding Server.run step start stop complete do_accept start_thread
served = refl

abbrev serving_server : Server
serving_server = record new_server {
  running = true;
  acceptor_open = true;
  serving = true;
  thread_joinable = true;
  accepting = 1;
}

stopped_for_good_example :
    ((Server.run some_service (stop serving_server)).sessions ≡ 0)
    × ((start all_fine (stop serving_server)).running ≡ true)
stopped_for_good_example = stopped_for_good some_service serving_server refl

thrown_deaf_example :
    ((Server.run some_service (complete handler_threw serving_server)).running ≡ true)
    × ((Server.run some_service (complete handler_threw serving_server)).sessions ≡ 0)
thrown_deaf_example = thrown_deaf some_service serving_server refl refl

failed_start_sticks_example :
    (start_all (record all_fine { bind_ok = false } ∷ all_fine ∷ all_fine ∷ []) new_server).running
    ≡ false
failed_start_sticks_example =
    failed_start_sticks (record all_fine { bind_ok = false }) (all_fine ∷ all_fine ∷ []) refl refl
      refl (refl, (refl, tt))

-- Every call succeeds.
abbrev all_set : Filled
all_set = record {
  version_ok = true;
  serial_ok = true;
  not_before_ok = true;
  not_after_ok = true;
  pubkey_ok = true;
  name_ok = λ field. true;
  issuer_ok = true;
  added = λ nid. true;
}

abbrev fine_certificates : InitAnswers
fine_certificates = record {
  init_ok = true;
  dir_exists = some true;
  dir_created = none;
  cert_exists = some true;
  key_exists = some true;
  rsa_ok = true;
  x509_ok = true;
  ext_ok = λ nid. true;
  filled = all_set;
  sign_ok = true;
  key_file_ok = true;
  cert_file_ok = true;
  key_parsed = true;
  cert_parsed = true;
  keys_match = true;
  key_written = true;
  cert_written = true;
  digest_bytes = none;
}

-- The interface throws.
abbrev interface_throws : Endings
interface_throws = record { tui_made = true; server_made = true; tui_returns = false }

run_lem_example :
    IsRun interface_throws some_service
      (start all_fine new_server)
      (Run.run fine_certificates all_fine interface_throws some_service default_config)
run_lem_example = run_lem fine_certificates all_fine interface_throws some_service default_config
