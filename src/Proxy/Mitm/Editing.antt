-- ===== src/Proxy/Mitm/Editing.antt =====
-- What becomes of an intercepted HTTPS request.
use burp_tui.Prelude.{
  ℕ, ◌≡◌, refl, ap, ◌∙◌, true, false, codes, [], ◌∷◌, ◌++◌, append_assoc, some, arith, List, Option,
  choose, choose-append, append-nil, Bytes, none, Bool, ◌&&◌, is_empty, if◌then◌else◌,
}
use burp_tui.Http.Message.{HttpRequest, serialize_request, empty_response}
use burp_tui.Proxy.Intercept.{forward, drop}
use burp_tui.Proxy.Mitm.State.{
  Effect, emit, reset_timer, async_write_client, async_write_failure, on_transaction, error_text,
  MitmSession, Env, async_write_upstream, intercept_request, timer_cancel, timer_reset,
  send_error_response, write_client, do_client_write, report,
}
use burp_tui.Proxy.Mitm.Handlers.{dispatch_request, edit_request, handle_decision}

-- the writes to the upstream server that were started
abbrev upstream_buffer : Effect → Option Bytes
upstream_buffer (async_write_upstream b) = some b
upstream_buffer _ = none

abbrev pub sent_upstream : List Effect → List Bytes
sent_upstream = choose upstream_buffer

sent_emit :
    (e : Effect) (es : List Effect)
    → upstream_buffer e ≡ none
    → sent_upstream (es ++ e ∷ []) ≡ sent_upstream es
sent_emit e es h =
    choose-append upstream_buffer es (e ∷ [])
    ∙ ap (sent_upstream es ++◌) (none_lem e h)
    ∙ append-nil (sent_upstream es)
  where
    none_lem : (e : Effect) → upstream_buffer e ≡ none → sent_upstream (e ∷ []) ≡ []
    none_lem e h = ground arith

module _ {L : Type 0} where
  sent_if :
      (b : Bool) (s t : MitmSession L) {c : List Bytes}
      → sent_upstream s.effects ≡ c
      → sent_upstream t.effects ≡ c
      → sent_upstream (if b then s else t).effects ≡ c
  sent_if true s t h k = h
  sent_if false s t h k = k

  sent_do_client_write :
      (s : MitmSession L) → sent_upstream (do_client_write s).effects ≡ sent_upstream s.effects
  unfolding do_client_write
  sent_do_client_write s = of_queue s.client_write_queue
    where
      of_queue :
          (q : List Bytes)
          → sent_upstream (do_client_write (record s { client_write_queue = q })).effects
            ≡ sent_upstream s.effects
      of_queue [] = refl
      of_queue (b ∷ q) =
          let t = record s { client_write_queue = b ∷ q } in
          sent_if s.is_closed t (emit (async_write_client b) t) refl
            (sent_emit (async_write_client b) s.effects refl)

  sent_write_client :
      (b : Bytes) (s : MitmSession L)
      → sent_upstream (write_client b s).effects ≡ sent_upstream s.effects
  unfolding write_client
  sent_write_client b s =
      let s' = record s { client_write_queue = s.client_write_queue ++ b ∷ [] } in
      sent_if s.is_closed s _ refl (
        sent_if (is_empty s.client_write_queue) (do_client_write s') s' (sent_do_client_write s')
          refl)

  sent_error_response :
      (env : Env) (code : ℕ) (text : Bytes) (s : MitmSession L)
      → sent_upstream (send_error_response env code text s).effects ≡ sent_upstream s.effects
  unfolding send_error_response
  sent_error_response env code text s =
      let res = record empty_response {
        version = codes "HTTP/1.1";
        status_code = code;
        status_text = text;
      } in
      let s0 = record s {
        close_after_write = true;
        current_transaction = record s.current_transaction { response = some res };
      } in
      let s1 = report env s0 in
      let y : sent_upstream s1.effects ≡ sent_upstream s.effects =
        sent_if env.has_on_transaction (emit (on_transaction s0.current_transaction) s0) s0
          (sent_emit (on_transaction s0.current_transaction) s.effects refl) refl in
      sent_if s.is_closed s _ refl (
        sent_if (s.client_handshake_done && s.client_stream)
          (write_client (error_text code text) s1)
          (emit (async_write_failure (error_text code text)) s1)
          (sent_write_client (error_text code text) s1 ∙ y)
          (sent_emit (async_write_failure (error_text code text)) s1.effects refl ∙ y))

module _ {L : Type 0} (env : Env) where
  drop_sends_nothing :
      (s : MitmSession L)
      → sent_upstream (handle_decision env drop s).effects ≡ sent_upstream s.effects
  unfolding handle_decision
  drop_sends_nothing s =
      let s1 = reset_timer s in
      sent_if s.is_closed s _ refl (
        sent_error_response env 502 (codes "Request Dropped by BurpTUI") s1
        ∙ sent_emit timer_reset s.effects refl)

  effects-forward :
      (r : HttpRequest) (s : MitmSession L)
      → s.is_closed ≡ false
      → s.upstream_write_queue ≡ []
      → (handle_decision env forward (edit_request r s)).effects
        ≡ (s.effects ++ timer_reset ∷ []) ++ async_write_upstream (serialize_request r) ∷ []
  unfolding handle_decision edit_request
  effects-forward r s active idle = ground arith

  forward_sends :
      (r : HttpRequest) (s : MitmSession L)
      → s.is_closed ≡ false
      → s.upstream_write_queue ≡ []
      → sent_upstream (handle_decision env forward (edit_request r s)).effects
        ≡ sent_upstream s.effects ++ serialize_request r ∷ []
  forward_sends r s active idle =
      ap sent_upstream (effects-forward r s active idle)
      ∙ choose-append upstream_buffer (s.effects ++ timer_reset ∷ []) _
      ∙ ap (◌++ serialize_request r ∷ []) (sent_emit timer_reset s.effects refl)

module _ {L : Type 0} (env : Env) (s : MitmSession L) where
  dispatched :
      (req : HttpRequest)
      → (dispatch_request env true req s).effects
        ≡ s.effects
          ++ (timer_cancel ∷ intercept_request s.next_id true s.target_host s.target_port ∷ [])
  unfolding dispatch_request
  dispatched req = append_assoc s.effects (timer_cancel ∷ []) _

  -- With interception on, a request from the client is queued for the user under the session's
  -- next id and host, and nothing is sent upstream. If the user edits it and forwards it while the
  -- session is open and its upstream queue empty, what is sent upstream is the edited request,
  -- once. If it is dropped, nothing is sent upstream.
  pub held_edited_sent :
      (req edited : HttpRequest)
      → s.is_closed ≡ false
      → s.upstream_write_queue ≡ []
      → ((dispatch_request env true req s).effects
          ≡ s.effects
            ++ (timer_cancel ∷ intercept_request s.next_id true s.target_host s.target_port ∷ []))
        × (sent_upstream
              (handle_decision env forward
                (edit_request edited (dispatch_request env true req s))).effects
            ≡ sent_upstream s.effects ++ serialize_request edited ∷ [])
        × (sent_upstream (handle_decision env drop (dispatch_request env true req s)).effects
            ≡ sent_upstream s.effects)
  unfolding dispatch_request
  held_edited_sent req edited active idle =
      let held = dispatch_request env true req s in
      let queued : held.effects
          ≡ s.effects
            ++ (timer_cancel ∷ intercept_request s.next_id true s.target_host s.target_port ∷ []) =
        dispatched req in
      let quiet : sent_upstream held.effects ≡ sent_upstream s.effects =
        ap sent_upstream queued ∙ choose-append upstream_buffer s.effects _ ∙ append-nil _ in
      (
        queued,
        forward_sends env edited held active idle ∙ ap (◌++ serialize_request edited ∷ []) quiet,
        drop_sends_nothing env held ∙ quiet,
      )
