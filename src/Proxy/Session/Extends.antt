-- ===== src/Proxy/Session/Extends.antt =====
-- The effects that an operation adds: all of them satisfy a predicate.
use burp_tui.Prelude.{
  ◌≡◌, refl, sym, ap, ◌∙◌, Bool, true, false, some, List, [], ◌∷◌, ◌++◌, append-nil, append_assoc,
  All, All-append, if◌then◌else◌, Bytes, ℕ, is_empty, ◌==◌,
}
use burp_tui.Http.Message.{HttpResponse, HttpTransaction}
use burp_tui.Proxy.Session.State.{
  Effect, async_write_client, async_write_server, async_resolve, timer_cancel, remove_pending,
  shutdown_client, shutdown_server, on_transaction, Session, Env, emit, withdraw, close_client,
  close_server, close, do_client_write, write_client, do_server_write, write_server_blind, report,
  connect_upstream, forward_request,
}
use burp_tui.Proxy.Session.Replies.{
  reply_and_close, send_error_response, serve_ca_cert, serve_burp_help_page, ca_content,
}

-- `es'` is `es` with effects added that all satisfy `P`.
pub record Extends (P : Effect → Type 0) (es es' : List Effect) : Type 0 where
  pub added : List Effect
  pub is_append : es' ≡ es ++ added
  pub all_added : All P added

module _ {P : Effect → Type 0} where
  pub ext_refl : (es : List Effect) → Extends P es es
  ext_refl es = record { added = []; is_append = sym (append-nil es); all_added = tt }

  pub ext_emit :
      {es es' : List Effect} (e : Effect) → P e → Extends P es es' → Extends P es (es' ++ e ∷ [])
  ext_emit {es} e h x = record {
    added = x.added ++ e ∷ [];
    is_append = ap (◌++ e ∷ []) x.is_append ∙ append_assoc es x.added (e ∷ []);
    all_added = All-append P x.added (e ∷ []) x.all_added (h, tt);
  }

-- What the operations add, for any predicate that allows it.
module _ {L : Type 0} {P : Effect → Type 0} {es : List Effect} where
  pub ext_if :
      (b : Bool) (s t : Session L)
      → Extends P es s.effects
      → Extends P es t.effects
      → Extends P es (if b then s else t).effects
  ext_if true s t x y = x
  ext_if false s t x y = y

-- All effects but a resolution and a report.
abbrev pub is_plain : Effect → Bool
is_plain (async_resolve h p) = false
is_plain (on_transaction t) = false
is_plain _ = true

-- `P` allows the plain effects, and reports of transactions with a response.
pub record Allows (P : Effect → Type 0) : Type 0 where
  pub plain : (e : Effect) → is_plain e ≡ true → P e
  pub answered :
      (t : HttpTransaction) (r : HttpResponse) → t.response ≡ some r → P (on_transaction t)

module _ {L : Type 0} {P : Effect → Type 0} {es : List Effect} (a : Allows P) where
  pub ext_plain :
      (e : Effect) (s : Session L)
      → is_plain e ≡ true
      → Extends P es s.effects
      → Extends P es (emit e s).effects
  ext_plain e s h x = ext_emit e (a.plain e h) x

  ext_close_server :
      (s : Session L) → Extends P es s.effects → Extends P es (close_server s).effects
  ext_close_server s x = ext_if s.server_open _ s (ext_plain shutdown_server s refl x) x

  ext_close_client :
      (s : Session L) → Extends P es s.effects → Extends P es (close_client s).effects
  ext_close_client s x = ext_if s.client_open _ s (ext_plain shutdown_client s refl x) x

  ext_withdraw : (s : Session L) → Extends P es s.effects → Extends P es (withdraw s).effects
  ext_withdraw s x =
      ext_if (s.current_transaction.id == 0) s _ x (ext_plain (remove_pending _) s refl x)

  pub ext_close : (s : Session L) → Extends P es s.effects → Extends P es (close s).effects
  unfolding close
  ext_close s x =
      let s1 = emit timer_cancel s in
      let s2 = withdraw s1 in
      ext_close_server (close_client s2)
        (ext_close_client s2 (ext_withdraw s1 (ext_plain timer_cancel s refl x)))

  pub ext_do_client_write :
      (s : Session L) → Extends P es s.effects → Extends P es (do_client_write s).effects
  unfolding do_client_write
  ext_do_client_write s x = of_queue s.write_queue
    where
      of_queue :
          (q : List Bytes) → Extends P es (do_client_write (record s { write_queue = q })).effects
      of_queue [] = x
      of_queue (b ∷ _) = ext_plain (async_write_client b) s refl x

  pub ext_write_client :
      (b : Bytes) (s : Session L) → Extends P es s.effects → Extends P es (write_client b s).effects
  unfolding write_client
  ext_write_client b s x = ext_if (is_empty s.write_queue) _ _ (ext_do_client_write _ x) x

  pub ext_do_server_write :
      (s : Session L) → Extends P es s.effects → Extends P es (do_server_write s).effects
  unfolding do_server_write
  ext_do_server_write s x = of_queue s.write_server_queue
    where
      of_queue :
          (q : List Bytes)
          → Extends P es (do_server_write (record s { write_server_queue = q })).effects
      of_queue [] = x
      of_queue (b ∷ _) = ext_plain (async_write_server b) s refl x

  pub ext_write_server_blind :
      (b : Bytes) (s : Session L)
      → Extends P es s.effects
      → Extends P es (write_server_blind b s).effects
  unfolding write_server_blind
  ext_write_server_blind b s x =
      ext_if (is_empty s.write_server_queue) _ _ (ext_do_server_write _ x) x

  pub ext_report :
      (env : Env) (s : Session L) (r : HttpResponse)
      → s.current_transaction.response ≡ some r
      → Extends P es s.effects
      → Extends P es (report env s).effects
  unfolding report
  ext_report env s r h x =
      ext_if env.has_on_transaction _ s (ext_emit _ (a.answered s.current_transaction r h) x) x

  pub ext_reply_and_close :
      (env : Env) (r : HttpResponse) (text : Bytes) (s : Session L)
      → Extends P es s.effects
      → Extends P es (reply_and_close env r text s).effects
  unfolding reply_and_close
  ext_reply_and_close env r text s x = ext_write_client text _ (ext_report env _ r refl x)

  pub ext_send_error_response :
      (env : Env) (code : ℕ) (text : Bytes) (s : Session L)
      → Extends P es s.effects
      → Extends P es (send_error_response env code text s).effects
  unfolding send_error_response
  ext_send_error_response env code text s x = ext_reply_and_close env _ _ s x

  pub ext_serve_ca_cert :
      (env : Env) (s : Session L)
      → Extends P es s.effects
      → Extends P es (serve_ca_cert env s).effects
  unfolding serve_ca_cert
  ext_serve_ca_cert env s x =
      ext_if (is_empty (ca_content env)) _ _ (ext_send_error_response env _ _ s x)
        (ext_reply_and_close env _ _ s x)

  pub ext_serve_burp_help_page :
      (env : Env) (s : Session L)
      → Extends P es s.effects
      → Extends P es (serve_burp_help_page env s).effects
  unfolding serve_burp_help_page
  ext_serve_burp_help_page env s x = ext_reply_and_close env _ _ s x

  -- A forward resolves the upstream host.
  pub ext_forward_request :
      (s : Session L)
      → ((host port : Bytes) → P (async_resolve host port))
      → Extends P es s.effects
      → Extends P es (forward_request s).effects
  unfolding forward_request
  ext_forward_request s h x =
      let s1 = record (close_server s) { server_open = false } in
      ext_if s.client_open (connect_upstream s1) s
        (ext_emit (async_resolve s1.upstream_host s1.upstream_port) (h _ _) (ext_close_server s x))
        x
