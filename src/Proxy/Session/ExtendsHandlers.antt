-- ===== src/Proxy/Session/ExtendsHandlers.antt =====
-- The effects of the handlers, for any predicate on effects that allows what they do.
use burp_tui.Prelude.{
  ◌≡◌, refl, Bool, true, false, not, Option, none, some, List, [], ◌++◌, ◌&&◌, if◌then◌else◌, Bytes,
  ℤ, codes, is_empty, is_some, bytes_eq, stoi, to_u16, Option-cases, inl, inr, ltb, length,
}
use burp_tui.Http.Message.{HttpRequest, HttpResponse, empty_transaction}
use burp_tui.Http.Parser.{
  Llhttp, feed_request, feed_response, take_request, take_response, reset_request, reset_response,
}
use burp_tui.Proxy.Net.{ErrorCode, failed, is_eof}
use burp_tui.Proxy.Session.State.{
  Effect, async_read_client, async_read_upstream, async_resolve, timer_cancel, timer_reset,
  start_mitm, intercept_request, Session, Env, Outcome, returned, thrown, bump, emit, reset_timer,
  read_client, read_upstream, close, write_client, write_server_blind, report, connect_upstream,
}
use burp_tui.Proxy.Session.Route.{target, split_host_port, is_own_host, wants_cert, or_default}
use burp_tui.Proxy.Session.Replies.{ok_response, send_error_response}
use burp_tui.Proxy.Session.Handlers.{
  keep_alive, open_tunnel, with_host, handle_connect_method, admit_request, route_to,
  handle_request, dispatch_request, parse_client_data, handle_client_read, finish_response,
  flush_response, handle_upstream_read,
}
use burp_tui.Proxy.Session.Extends.{
  Extends, ext_emit, ext_if, Allows, ext_plain, ext_close, ext_write_client, ext_write_server_blind,
  ext_report, ext_send_error_response, ext_serve_ca_cert, ext_serve_burp_help_page,
  ext_forward_request,
}

-- the state in which a handler ends, by a return or by an exception
abbrev pub final : {L : Type 0} → Outcome L → Session L
final (returned s) = s
final (thrown s) = s

module _ {L : Type 0} {P : Effect → Type 0} {es : List Effect} (a : Allows P) (env : Env) where
  pub ext_admit_request :
      (intercepting : Bool) (host port : Bytes) (n : ℤ) (s : Session L)
      → (intercepting ≡ false → (h p : Bytes) → P (async_resolve h p))
      → Extends P es s.effects
      → Extends P es (admit_request env intercepting host port n s).effects
  unfolding admit_request
  ext_admit_request true host port n s r x =
      ext_plain a (intercept_request _ _ _ _) (emit timer_cancel s) refl
        (ext_plain a timer_cancel s refl x)
  ext_admit_request false host port n s r x = ext_forward_request a _ (r refl) x

  ext_route_to :
      (intercepting : Bool) (host port : Bytes) (s : Session L)
      → (intercepting ≡ false → (h p : Bytes) → P (async_resolve h p))
      → Extends P es s.effects
      → Extends P es (final (route_to env intercepting host port s)).effects
  unfolding route_to
  ext_route_to intercepting host port s r x =
      elim (Option-cases (stoi (or_default (codes "80") port))) [
        | inl e ↦ rw (e, final) x
        | inr (n, e) ↦
            rw (e, final) (ext_admit_request intercepting host port n (with_host env host s) r x)
      ]

  final_if :
      (b : Bool) (o o' : Outcome L)
      → Extends P es (final o).effects
      → Extends P es (final o').effects
      → Extends P es (final (if b then o else o')).effects
  final_if true o o' x y = x
  final_if false o o' x y = y

  final_option :
      {A : Type 0} (v : Option A) (o : Outcome L) (f : A → Outcome L)
      → Extends P es (final o).effects
      → ((b : A) → Extends P es (final (f b)).effects)
      → Extends P es (final (elim v [ none ↦ o | some b ↦ f b ])).effects
  final_option none o f x y = x
  final_option (some b) o f x y = y b

  ext_option :
      {A : Type 0} (v : Option A) (s : Session L) (f : A → Session L)
      → Extends P es s.effects
      → ((b : A) → Extends P es (f b).effects)
      → Extends P es (let t : Session L = elim v [ none ↦ s | some b ↦ f b ] in t.effects)
  ext_option none s f x y = x
  ext_option (some b) s f x y = y b

  pub ext_handle_request :
      (intercepting : Bool) (req : HttpRequest) (s : Session L)
      → (intercepting ≡ false → (h p : Bytes) → P (async_resolve h p))
      → Extends P es s.effects
      → Extends P es (final (handle_request env intercepting req s)).effects
  unfolding handle_request
  ext_handle_request intercepting req s r x =
      let (host, port) = split_host_port (target req) (codes "80") in
      final_if (is_empty (target req)) _ _ (ext_send_error_response a env _ _ s x) (
        final_if (is_own_host host req.url) _ _
          (ext_if (wants_cert req.url) _ _ (ext_serve_ca_cert a env s x)
            (ext_serve_burp_help_page a env s x))
          (ext_route_to intercepting host port s r x))

  ext_open_tunnel :
      (host port : Bytes) (n : ℤ) (s : Session L)
      → ((h p : Bytes) → P (async_resolve h p))
      → Extends P es s.effects
      → Extends P es (open_tunnel env host port n s).effects
  unfolding open_tunnel
  ext_open_tunnel host port n s r x =
      let res = record ok_response { status_text = codes "Connection Established" } in
      let s2 = record s {
        current_transaction = record s.current_transaction {
          port = n;
          is_https = true;
          response = some res;
        };
      } in
      let s3 = report env s2 in
      let y : Extends P es s3.effects = ext_report a env s2 res refl x in
      ext_if env.has_cert_cache
        (record (emit (start_mitm host (to_u16 n)) (emit timer_cancel s3)) { client_open = false })
        (connect_upstream
          (record s3 { is_connect = true; upstream_host = host; upstream_port = port }))
        (ext_plain a (start_mitm host (to_u16 n)) (emit timer_cancel s3) refl
          (ext_plain a timer_cancel s3 refl y))
        (unfold connect_upstream in ext_emit (async_resolve host port) (r host port) y)

  ext_handle_connect_method :
      (req : HttpRequest) (s : Session L)
      → ((h p : Bytes) → P (async_resolve h p))
      → Extends P es s.effects
      → Extends P es (final (handle_connect_method env req s)).effects
  unfolding handle_connect_method
  ext_handle_connect_method req s r x =
      let (host, port) = split_host_port req.url (codes "443") in
      elim (Option-cases (stoi (or_default (codes "443") port))) [
        | inl e ↦ rw (e, final) x
        | inr (n, e) ↦ rw (e, final) (ext_open_tunnel host port n (with_host env host s) r x)
      ]

  pub ext_dispatch_request :
      (intercepting : Bool) (req : HttpRequest) (s : Session L)
      → ((h p : Bytes) → P (async_resolve h p))
      → Extends P es s.effects
      → Extends P es (final (dispatch_request env intercepting req s)).effects
  unfolding dispatch_request
  ext_dispatch_request intercepting req s r x =
      let s1 = record s {
        current_transaction = record s.current_transaction { id = s.next_id; request = some req };
        next_id = bump s.next_id;
      } in
      final_if (bytes_eq req.method (codes "CONNECT")) _ _ (ext_handle_connect_method req s1 r x)
        (ext_handle_request intercepting req s1 (λ _. r) x)

  module _ (ll : Llhttp L) (r : (h p : Bytes) → P (async_resolve h p)) where
    ext_parse_client_data :
        (intercepting : Bool) (input : Bytes) (s : Session L)
        → Extends P es s.effects
        → Extends P es (final (parse_client_data env ll intercepting input s)).effects
    unfolding parse_client_data
    ext_parse_client_data intercepting input s x =
        let (fed, ready) = feed_request ll s.request_parser input in
        let (parser, taken) = take_request ll fed in
        let s1 = record s { client_data = s.client_data ++ input } in
        let unparsed = record s1 { request_parser = fed } in
        let refused : Session L = send_error_response env 400 (codes "Bad Request") unparsed in
        let parsed = record s1 { request_parser = parser } in
        final_if ready _ _
          (final_option taken (returned (read_client parsed))
            (λ req. dispatch_request env intercepting req parsed)
            (ext_plain a async_read_client parsed refl x)
            (λ req. ext_dispatch_request intercepting req parsed r x))
          (ext_if (ltb (length s1.client_data) 65536) (read_client unparsed) refused
            (ext_plain a async_read_client unparsed refl x)
            (ext_send_error_response a env 400 (codes "Bad Request") unparsed x))

    pub ext_handle_client_read :
        (intercepting : Bool) (ec : ErrorCode) (input : Bytes) (s : Session L)
        → Extends P es s.effects
        → Extends P es (final (handle_client_read env ll intercepting ec input s)).effects
    unfolding handle_client_read
    ext_handle_client_read intercepting ec input s x =
        let s1 = reset_timer s in
        let y : Extends P es s1.effects = ext_plain a timer_reset s refl x in
        final_if (failed ec) (returned (close s)) _ (ext_close a s x) (
          final_if s.is_connect (returned (read_client (write_server_blind input s1))) _
            (ext_plain a async_read_client (write_server_blind input s1) refl
              (ext_write_server_blind a input s1 y))
            (ext_parse_client_data intercepting input s1 y))

    ext_finish_response :
        (res : HttpResponse) (s : Session L)
        → Extends P es s.effects
        → Extends P es (finish_response env ll res s).effects
    unfolding finish_response
    ext_finish_response res s x =
        let s0 = record s {
          current_transaction = record s.current_transaction { response = some res };
        } in
        let s1 = report env s0 in
        let y : Extends P es s1.effects = ext_report a env s0 res refl x in
        let last = record s1 { close_after_write = true } in
        let kept = read_client (record s1 {
          request_parser = reset_request ll;
          response_parser = reset_response ll;
          client_data = [];
          server_data = [];
          current_transaction = empty_transaction;
          is_connect = false;
        }) in
        ext_if (keep_alive s.current_transaction.request res) kept
          (if is_empty s.write_queue then close last else last)
          (ext_plain a async_read_client s1 refl y)
          (ext_if (is_empty s.write_queue) (close last) last (ext_close a last y) y)

    ext_flush_response :
        (s : Session L) → Extends P es s.effects → Extends P es (flush_response env ll s).effects
    unfolding flush_response
    ext_flush_response s x =
        let (fed, _) = feed_response ll s.response_parser s.server_data in
        let (parser, taken) = take_response ll fed in
        let s1 = record s { response_parser = parser } in
        let told = λ (res : HttpResponse). record s1 {
          current_transaction = record s1.current_transaction { response = some res };
        } in
        ext_if (not (is_some s.current_transaction.response) && not (is_empty s.server_data)) _ s
          (ext_option taken s1 (λ res. report env (told res)) x
            (λ res. ext_report a env (told res) res refl x))
          x

    pub ext_handle_upstream_read :
        (ec : ErrorCode) (input : Bytes) (s : Session L)
        → Extends P es s.effects
        → Extends P es (handle_upstream_read env ll ec input s).effects
    unfolding handle_upstream_read
    ext_handle_upstream_read ec input s x =
        let s0 = reset_timer s in
        let s1 = write_client input s0 in
        let (fed, ready) = feed_response ll s1.response_parser input in
        let (parser, taken) = take_response ll fed in
        let s2 = record s1 { response_parser = parser } in
        let s3 = record s1 { response_parser = fed } in
        let flushed = if is_eof ec then flush_response env ll s else s in
        let y : Extends P es s1.effects =
          ext_write_client a input s0 (ext_plain a timer_reset s refl x) in
        ext_if (failed ec) (close flushed) _
          (ext_close a flushed
            (ext_if (is_eof ec) (flush_response env ll s) s (ext_flush_response s x) x))
          (ext_if s.is_connect (read_upstream s1) _ (ext_plain a async_read_upstream s1 refl y) (
            ext_if ready _ (read_upstream s3)
              (ext_option taken (read_upstream s2) (λ res. finish_response env ll res s2)
                (ext_plain a async_read_upstream s2 refl y) (λ res. ext_finish_response res s2 y))
              (ext_plain a async_read_upstream s3 refl y)))
