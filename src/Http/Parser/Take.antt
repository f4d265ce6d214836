-- ===== src/Http/Parser/Take.antt =====
-- Feeding bytes and taking the finished message.
use burp_tui.Prelude.{
  Bytes, ◌≡◌, refl, sym, ap, ◌∙◌, true, Option, none, some, List, [], ◌∷◌, ◌++◌, arith, append-nil,
  append_assoc, choose,
}
use burp_tui.Http.Parser.{
  LlEvent, on_url, on_header_field, on_message_complete, Llhttp, RequestParser, ResponseParser,
  reset_request, reset_response, feed_request, feed_response, take_request, take_response,
  request_callback, request_callbacks,
}
use burp_tui.Http.Parser.Assembly.{joined}

module _ {L : Type 0} (ll : Llhttp L) where
  -- After a feed that reports a message: taking it succeeds and leaves the parser as a new one, so
  -- that a second take gives nothing; and until it is taken, feeding more bytes changes nothing.
  pub feed-take_request :
      (p : RequestParser L) (input more : Bytes)
      → (feed_request ll p input).1 ≡ true
      → (take_request ll (feed_request ll p input).0
          ≡ (reset_request ll, some (feed_request ll p input).0.request))
        × (take_request ll (reset_request ll) ≡ (reset_request ll, none))
        × (feed_request ll (feed_request ll p input).0 more ≡ ((feed_request ll p input).0, true))
  unfolding feed_request take_request
  feed-take_request p input more h = ground arith

  -- The same of responses.
  pub feed-take_response :
      (p : ResponseParser L) (input more : Bytes)
      → (feed_response ll p input).1 ≡ true
      → (take_response ll (feed_response ll p input).0
          ≡ (reset_response ll, some (feed_response ll p input).0.response))
        × (take_response ll (reset_response ll) ≡ (reset_response ll, none))
        × (feed_response ll (feed_response ll p input).0 more
            ≡ ((feed_response ll p input).0, true))
  unfolding feed_response take_response
  feed-take_response p input more h = ground arith

-- the pieces of a URL among the callbacks
abbrev url_piece : LlEvent → Option Bytes
url_piece (on_url s) = some s
url_piece _ = none

abbrev pub url_pieces : List LlEvent → List Bytes
url_pieces = choose url_piece

url_pieces-cons :
    (e : LlEvent) (es : List LlEvent)
    → joined (url_pieces (e ∷ es)) ≡ joined (url_pieces (e ∷ [])) ++ joined (url_pieces es)
url_pieces-cons (on_url s) es = ap (◌++ joined (url_pieces es)) (sym (append-nil s))
url_pieces-cons _ es = refl

module _ {L : Type 0} where
  url-callback :
      (p : RequestParser L) (e : LlEvent)
      → (request_callback p e).request.url ≡ p.request.url ++ joined (url_pieces (e ∷ []))
  unfolding request_callback
  url-callback p (on_url s) = ap (p.request.url ++◌) (sym (append-nil s))
  url-callback p (on_header_field s) = ground (arith, append-nil p.request.url)
  url-callback p (on_message_complete m i j s) = ground (arith, append-nil p.request.url)
  url-callback p _ = sym (append-nil _)

  -- Whatever the callbacks are, the stored URL is the one before with all the pieces of URLs that
  -- were delivered, in order: those of one message, and also those of a second message that
  -- llhttp finds in the same bytes before the first is taken.
  pub url-callbacks :
      (p : RequestParser L) (es : List LlEvent)
      → (request_callbacks p es).request.url ≡ p.request.url ++ joined (url_pieces es)
  unfolding request_callbacks
  url-callbacks p [] = sym (append-nil _)
  url-callbacks p (e ∷ es) =
      url-callbacks (request_callback p e) es
      ∙ ap (◌++ joined (url_pieces es)) (url-callback p e)
      ∙ append_assoc p.request.url (joined (url_pieces (e ∷ []))) (joined (url_pieces es))
      ∙ ap (p.request.url ++◌) (sym (url_pieces-cons e es))
