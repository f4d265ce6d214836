-- ===== src/Proxy/Session/Throws.antt =====
-- When a request makes the handler throw: `std::stoi` on the text of a port.
use burp_tui.Prelude.{
  Bytes, ◌≡◌, refl, ap, codes, Bool, true, false, not, Option, none, some, ◌&&◌, ℤ, bytes_eq,
  is_empty, is_some, stoi, if◌then◌else◌, Bool-cases, inl, inr, ◌∙◌,
}
use burp_tui.Http.Message.{HttpRequest}
use burp_tui.Proxy.Session.State.{Session, Env, Outcome, returned, thrown, bump}
use burp_tui.Proxy.Session.Route.{split_host_port, target, is_own_host, or_default}
use burp_tui.Proxy.Session.Handlers.{
  handle_connect_method, route_to, handle_request, dispatch_request,
}

abbrev pub is_thrown : {L : Type 0} → Outcome L → Bool
is_thrown (returned s) = false
is_thrown (thrown s) = true

-- A request whose port is no number that fits an `int`: of a `CONNECT`, the port in its URL; of
-- another request that has a target and is not for the proxy itself, the port of the target.
abbrev pub has_bad_port : HttpRequest → Bool
has_bad_port req =
    let (connect_host, connect_port) = split_host_port req.url (codes "443") in
    let (host, port) = split_host_port (target req) (codes "80") in
    if bytes_eq req.method (codes "CONNECT")
    then not (is_some (stoi (or_default (codes "443") connect_port)))
    else not (is_empty (target req))
      && (not (is_own_host host req.url) && not (is_some (stoi (or_default (codes "80") port))))

module _ {L : Type 0} where
  by_port :
      (n : Option ℤ) (t : Session L) (f : ℤ → Session L)
      → is_thrown {L = L} (elim n as (λ _. Outcome L) [ none ↦ thrown t | some k ↦ returned (f k) ])
        ≡ not (is_some n)
  by_port none t f = refl
  by_port (some k) t f = refl

  if_thrown :
      (b : Bool) (t : Session L) (o : Outcome L)
      → is_thrown (if b then returned t else o) ≡ (not b && is_thrown o)
  if_thrown true t o = refl
  if_thrown false t o = refl

module _ {L : Type 0} (env : Env) where
  throws-handle_connect_method :
      (req : HttpRequest) (s : Session L)
      → is_thrown (handle_connect_method env req s)
        ≡ not (is_some (stoi (or_default (codes "443") (split_host_port req.url (codes "443")).1)))
  unfolding handle_connect_method
  throws-handle_connect_method req s =
      by_port (stoi (or_default (codes "443") (split_host_port req.url (codes "443")).1)) _ _

  throws-route_to :
      (intercepting : Bool) (host port : Bytes) (s : Session L)
      → is_thrown (route_to env intercepting host port s)
        ≡ not (is_some (stoi (or_default (codes "80") port)))
  unfolding route_to
  throws-route_to intercepting host port s = by_port (stoi (or_default (codes "80") port)) _ _

  throws-handle_request :
      (intercepting : Bool) (req : HttpRequest) (s : Session L)
      → is_thrown (handle_request env intercepting req s) ≡ (
          not (is_empty (target req))
          && (not (is_own_host (split_host_port (target req) (codes "80")).0 req.url)
              && not (
                  is_some (
                    stoi (or_default (codes "80") (split_host_port (target req) (codes "80")).1)))))
  unfolding handle_request
  throws-handle_request intercepting req s =
      let (host, port) = split_host_port (target req) (codes "80") in
      if_thrown (is_empty (target req)) _ _
      ∙ ap (not (is_empty (target req)) &&◌) (
          if_thrown (is_own_host host req.url) _ _
          ∙ ap (not (is_own_host host req.url) &&◌) (throws-route_to intercepting host port s))

  -- Dispatching a request throws out of the handler exactly if its port text is no number in the range of `int`: for a `CONNECT` the port of its
  -- URL; for another request the port of its target, unless it has no target or is one that the
  -- proxy answers itself. Interception and the state of the session make no difference.
  pub dispatch_throws :
      (intercepting : Bool) (req : HttpRequest) (s : Session L)
      → is_thrown (dispatch_request env intercepting req s) ≡ has_bad_port req
  unfolding dispatch_request
  dispatch_throws intercepting req s =
      let s1 : Session L = record s {
        current_transaction = record s.current_transaction { id = s.next_id; request = some req };
        next_id = bump s.next_id;
      } in
      elim (Bool-cases (bytes_eq req.method (codes "CONNECT"))) [
        | inl e ↦ rw (dispatch_request, e) (throws-handle_connect_method req s1)
        | inr e ↦ rw (dispatch_request, e) (throws-handle_request intercepting req s1)
      ]
