-- ===== src/Proxy/Session/Reports.antt =====
-- Which transactions a session reports, and when it looks for an upstream host.
use burp_tui.Prelude.{
  ℕ, ◌≡◌, refl, ap, ◌∙◌, true, Option, none, some, List, [], ◌∷◌, ◌++◌, append-nil, Bytes, codes,
  bytes_eq, All, choose, choose-append, is_some, arith, Bool-cases, inl, inr, Bool, ℤ, append_assoc,
  is_empty, stoi, to_u16, false,
}
use burp_tui.Http.Message.{HttpRequest}
use burp_tui.Http.Parser.{Llhttp}
use burp_tui.Proxy.Intercept.{forward, drop}
use burp_tui.Proxy.Session.State.{
  Effect, async_resolve, on_transaction, timer_cancel, intercept_request, returned, bump, Session,
  Env, new_session, start, forward_request,
}
use burp_tui.Proxy.Session.Handlers.{
  dispatch_request, handle_request, route_to, admit_request, with_host,
}
use burp_tui.Proxy.Session.Route.{target, split_host_port, is_own_host, or_default}
use burp_tui.Proxy.Session.Completions.{Event, run, handle_decision}
use burp_tui.Proxy.Session.Extends.{Extends, ext_refl, ext_emit, Allows, ext_plain}
use burp_tui.Proxy.Session.ExtendsHandlers.{final}
use burp_tui.Proxy.Session.ExtendsSteps.{ext_handle_decision, ext_run}

-- A reported transaction has a response.
abbrev pub IsAnswered : Effect → Type 0
IsAnswered (on_transaction t) = is_some t.response ≡ true
IsAnswered _ = Unit {0}

IsAnswered-Allows : Allows IsAnswered
IsAnswered-Allows = record { plain = plain_answered; answered = λ t r e. ap is_some e }
  where
    plain_answered : (e : Effect) → burp_tui.Proxy.Session.Extends.is_plain e ≡ true → IsAnswered e
    plain_answered (on_transaction t) h = cc
    plain_answered _ h = tt

-- From a new session, over any history of completions, timeouts, decisions and edits, also one that
-- ends with an exception: every transaction that the session reported has a response.
pub run-IsAnswered :
    {L : Type 0} (env : Env) (ll : Llhttp L) (next : ℕ) (events : List Event)
    → All IsAnswered (final (run env ll events (start (new_session ll next)))).effects
unfolding start
run-IsAnswered env ll next events =
    let x =
      ext_run {es = []} IsAnswered-Allows env ll (λ h p. tt) events (start (new_session ll next))
        (record {
          added = (start (new_session ll next)).effects;
          is_append = refl;
          all_added = (tt, (tt, tt));
        }) in
    rw x.is_append x.all_added

-- the hosts looked up, in order
abbrev pub resolution : Effect → Option (Bytes × Bytes)
resolution (async_resolve host port) = some (host, port)
resolution _ = none

abbrev pub resolutions : List Effect → List (Bytes × Bytes)
resolutions = choose resolution

abbrev NoResolution : Effect → Type 0
NoResolution e = resolution e ≡ none

NoResolution-Allows : Allows NoResolution
NoResolution-Allows = record { plain = plain_unresolved; answered = λ t r e. refl }
  where
    plain_unresolved :
        (e : Effect) → burp_tui.Proxy.Session.Extends.is_plain e ≡ true → NoResolution e
    plain_unresolved (async_resolve h p) k = cc
    plain_unresolved _ k = refl

resolutions_none : (es : List Effect) → All NoResolution es → resolutions es ≡ []
resolutions_none [] h = refl
resolutions_none (e ∷ es) h = ground (arith, resolutions_none es)

resolutions-Extends :
    (es es' : List Effect) → Extends NoResolution es es' → resolutions es' ≡ resolutions es
resolutions-Extends es es' x =
    rw (x.is_append, choose-append, resolutions_none x.added x.all_added) (append-nil _)

module _ {L : Type 0} (env : Env) where
  forward_resolves :
      (s : Session L)
      → s.client_open ≡ true
      → resolutions (handle_decision env forward s).effects
        ≡ resolutions s.effects ++ (s.upstream_host, s.upstream_port) ∷ []
  unfolding handle_decision forward_request
  forward_resolves s h = elim (Bool-cases s.server_open) [
    | inl e ↦ rw (h, e) (simp (choose-append, append-nil))
    | inr e ↦ rw (h, e) (simp (choose-append, append-nil))
  ]

  dropped_resolves :
      (s : Session L) → resolutions (handle_decision env drop s).effects ≡ resolutions s.effects
  dropped_resolves s =
      resolutions-Extends _ _
        (ext_handle_decision NoResolution-Allows env drop s (λ e. cc) (ext_refl s.effects))

  -- a request that is queued for the user
  module _ (host port : Bytes) (n : ℤ) (s : Session L) where
    abbrev queued : Session L
    queued = admit_request env true host port n (with_host env host s)

    admitted_lem :
        queued.effects
        ≡ s.effects
          ++ timer_cancel ∷ intercept_request s.current_transaction.id false host (to_u16 n) ∷ []
    unfolding admit_request
    admitted_lem = append_assoc s.effects (timer_cancel ∷ []) _

    admitted_request : queued.current_transaction.request ≡ s.current_transaction.request
    unfolding admit_request
    admitted_request = refl

    admitted_open : s.client_open ≡ true → queued.client_open ≡ true
    unfolding admit_request
    admitted_open h = h

    admitted_host : queued.upstream_host ≡ host
    unfolding admit_request
    admitted_host = refl

    admitted_port : queued.upstream_port ≡ or_default (codes "80") port
    unfolding admit_request
    admitted_port = refl

  -- the request is the current transaction's, with the id that the counter gave
  abbrev taken_in : HttpRequest → Session L → Session L
  taken_in req s = record s {
    current_transaction = record s.current_transaction { id = s.next_id; request = some req };
    next_id = bump s.next_id;
  }

  route_to-admit_request :
      (intercepting : Bool) (host port : Bytes) (n : ℤ) (s : Session L)
      → stoi (or_default (codes "80") port) ≡ some n
      → route_to env intercepting host port s
        ≡ returned (admit_request env intercepting host port n (with_host env host s))
  unfolding route_to
  route_to-admit_request intercepting host port n s h = rw (route_to, h) refl

  routed_lem :
      (intercepting : Bool) (req : HttpRequest) (s : Session L) (host port : Bytes) (n : ℤ)
      → bytes_eq req.method (codes "CONNECT") ≡ false
      → is_empty (target req) ≡ false
      → split_host_port (target req) (codes "80") ≡ (host, port)
      → is_own_host host req.url ≡ false
      → stoi (or_default (codes "80") port) ≡ some n
      → dispatch_request env intercepting req s
        ≡ returned
            (admit_request env intercepting host port n (with_host env host (taken_in req s)))
  unfolding dispatch_request handle_request
  routed_lem intercepting req s host port n method hosted split other numbered =
      rw (method, split, hosted, other)
        (route_to-admit_request intercepting host port n (taken_in req s) numbered)

  -- With interception on, a request is held that is not a `CONNECT`, names a host, is not for the
  -- proxy itself (by that host or by a `/cert` in its URL), and has a port that can be read:
  -- taking it from the parser stops the timer and asks the interception to decide on it, with its
  -- id, host and port, and does nothing else; the request is kept. Then dropping it looks up no
  -- upstream host, and forwarding it, the client being still connected, looks up exactly the
  -- request's host and port, once.
  pub held_until_decision :
      (req : HttpRequest) (s : Session L) (host port : Bytes) (n : ℤ)
      → bytes_eq req.method (codes "CONNECT") ≡ false
      → is_empty (target req) ≡ false
      → split_host_port (target req) (codes "80") ≡ (host, port)
      → is_own_host host req.url ≡ false
      → stoi (or_default (codes "80") port) ≡ some n
      → s.client_open ≡ true
      → let held = final (dispatch_request env true req s) in
        (held.effects
          ≡ s.effects ++ timer_cancel ∷ intercept_request s.next_id false host (to_u16 n) ∷ [])
        × (held.current_transaction.request ≡ some req)
        × (resolutions (handle_decision env drop held).effects ≡ resolutions s.effects)
        × (resolutions (handle_decision env forward held).effects
            ≡ resolutions s.effects ++ (host, or_default (codes "80") port) ∷ [])
  held_until_decision req s host port n method hosted split other numbered connected =
      let held = admit_request env true host port n (with_host env host (taken_in req s)) in
      let taken = taken_in req s in
      let e = routed_lem true req s host port n method hosted split other numbered in
      let asked = timer_cancel ∷ intercept_request s.next_id false host (to_u16 n) ∷ [] in
      let added : held.effects ≡ s.effects ++ asked = admitted_lem host port n (taken_in req s) in
      let unresolved : resolutions held.effects ≡ resolutions s.effects =
        rw (added, choose-append) (append-nil (resolutions s.effects)) in
      rw e (
        added,
        admitted_request host port n (taken_in req s),
        dropped_resolves held ∙ unresolved,
        forward_resolves held (admitted_open host port n (taken_in req s) connected)
            ∙ cc (unresolved, admitted_host host port n taken, admitted_port host port n taken),
      )
