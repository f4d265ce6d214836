-- ===== src/Http/Parser/Assembly.antt =====
-- Header names and values put together from the fragments that llhttp delivers.
use burp_tui.Prelude.{
  ℕ, Bytes, ◌≡◌, refl, sym, ap, ◌∙◌, Bool, true, false, List, [], ◌∷◌, ◌++◌, map, append_assoc,
  append-nil, arith, is_empty, if◌then◌else◌,
}
use burp_tui.Http.Message.{Headers}
use burp_tui.Http.Parser.{
  LlEvent, on_header_field, on_header_value, on_message_complete, RequestParser,
  commit_request_header, request_callback, request_callbacks, version_text,
}

-- One header as it arrives: its name is not empty, and comes in one or more pieces, as does its
-- value.
pub record Fragments : Type 0 where
  pub initial : ℕ
  pub first_field : Bytes
  pub more_fields : List Bytes
  pub first_value : Bytes
  pub more_values : List Bytes

abbrev pub joined : List Bytes → Bytes
joined [] = []
joined (b ∷ bs) = b ++ joined bs

abbrev pub name : Fragments → Bytes
name f = (f.initial ∷ f.first_field) ++ joined f.more_fields

abbrev pub value : Fragments → Bytes
value f = f.first_value ++ joined f.more_values

abbrev pub header_events : Fragments → List LlEvent
header_events f =
    on_header_field (f.initial ∷ f.first_field)
    ∷ (map on_header_field f.more_fields
        ++ (on_header_value f.first_value ∷ map on_header_value f.more_values))

abbrev pub all_events : List Fragments → List LlEvent
all_events [] = []
all_events (f ∷ fs) = header_events f ++ all_events fs

abbrev pub header_list : List Fragments → Headers
header_list = map (λ f. (name f, value f))

abbrev stored : Headers → Bytes → Bytes → Headers
stored hs n v = if is_empty n then hs else hs ++ (n, v) ∷ []

-- A value is kept only beside its name.
abbrev Paired : Bytes → Bytes → Type 0
Paired n v = is_empty n ≡ true → v ≡ []

module _ {L : Type 0} where
  pub request_callbacks-append :
      (p : RequestParser L) (es fs : List LlEvent)
      → request_callbacks p (es ++ fs) ≡ request_callbacks (request_callbacks p es) fs
  unfolding request_callbacks
  request_callbacks-append p [] fs = refl
  request_callbacks-append p (e ∷ es) fs = request_callbacks-append (request_callback p e) es fs

  -- `p` with the headers `hs` stored and a header in the making
  abbrev holding : RequestParser L → Bool → Headers → Bytes → Bytes → RequestParser L
  holding p b hs n v = record p {
    request = record p.request { headers = hs };
    current_header_field = n;
    current_header_value = v;
    last_was_field = b;
  }

  more_fields_lem :
      (p : RequestParser L) (hs : Headers) (n v : Bytes) (bs : List Bytes)
      → request_callbacks (holding p true hs n v) (map on_header_field bs)
        ≡ holding p true hs (n ++ joined bs) v
  unfolding request_callbacks
  more_fields_lem p hs n v [] = ap (λ x. holding p true hs x v) (sym (append-nil n))
  more_fields_lem p hs n v (b ∷ bs) =
      more_fields_lem p hs (n ++ b) v bs
      ∙ ap (λ x. holding p true hs x v) (append_assoc n b (joined bs))

  more_values_lem :
      (p : RequestParser L) (hs : Headers) (n v : Bytes) (bs : List Bytes)
      → request_callbacks (holding p false hs n v) (map on_header_value bs)
        ≡ holding p false hs n (v ++ joined bs)
  unfolding request_callbacks
  more_values_lem p hs n v [] = ap (λ x. holding p false hs n x) (sym (append-nil v))
  more_values_lem p hs n v (b ∷ bs) =
      more_values_lem p hs n (v ++ b) bs
      ∙ ap (λ x. holding p false hs n x) (append_assoc v b (joined bs))

  -- From the first piece of the name on.
  rest_of_header :
      (p : RequestParser L) (hs : Headers) (f : Fragments)
      → request_callbacks (holding p true hs (f.initial ∷ f.first_field) []) (
          map on_header_field f.more_fields
          ++ (on_header_value f.first_value ∷ map on_header_value f.more_values))
        ≡ holding p false hs (name f) (value f)
  rest_of_header p hs f =
      rw (request_callbacks-append, more_fields_lem)
        (value_step p hs (name f) f.first_value (map on_header_value f.more_values)
          ∙ more_values_lem p hs (name f) f.first_value f.more_values)
    where
      value_step :
          (p : RequestParser L) (hs : Headers) (n b : Bytes) (es : List LlEvent)
          → request_callbacks (holding p true hs n []) (on_header_value b ∷ es)
            ≡ request_callbacks (holding p false hs n b) es
      value_step p hs n b es = unfold request_callbacks in refl

  one_header :
      (p : RequestParser L) (hs : Headers) (n v : Bytes) (f : Fragments)
      → Paired n v
      → request_callbacks (holding p false hs n v) (header_events f)
        ≡ holding p false (stored hs n v) (name f) (value f)
  unfolding request_callbacks
  one_header p hs [] v f h = rw (h refl) (rest_of_header p hs f)
  one_header p hs (c ∷ n) v f h = rest_of_header p (hs ++ (c ∷ n, v) ∷ []) f

  request_callbacks-nil : (p : RequestParser L) → request_callbacks p [] ≡ p
  unfolding request_callbacks
  request_callbacks-nil p = refl

  commit_holding :
      (p : RequestParser L) (hs : Headers) (n v : Bytes)
      → Paired n v
      → commit_request_header (holding p false hs n v) ≡ holding p false (stored hs n v) [] []
  unfolding commit_request_header
  commit_holding p hs [] v h = ap (holding p false hs []) (h refl)
  commit_holding p hs (c ∷ n) v h = refl

  all_headers :
      (p : RequestParser L) (hs : Headers) (n v : Bytes) (fs : List Fragments)
      → Paired n v
      → commit_request_header (request_callbacks (holding p false hs n v) (all_events fs))
        ≡ holding p false (stored hs n v ++ header_list fs) [] []
  all_headers p hs n v [] h =
      rw request_callbacks-nil
        (commit_holding p hs n v h ∙ ap (λ x. holding p false x [] []) (sym (append-nil _)))
  all_headers p hs n v (f ∷ fs) h =
      rw (request_callbacks-append, one_header p hs n v f h)
        (all_headers p (stored hs n v) (name f) (value f) fs (λ e. cc)
          ∙ ap (λ x. holding p false x [] [])
              (append_assoc (stored hs n v) ((name f, value f) ∷ []) (header_list fs)))

  -- what `on_message_complete` does after it stored the last header
  abbrev finished : RequestParser L → Bytes → ℕ → ℕ → RequestParser L
  finished p method major minor = record p {
    request = record p.request { method = method; version = version_text major minor };
    message_complete = true;
  }

  message_end :
      (p : RequestParser L) (method : Bytes) (major minor status : ℕ)
      → request_callbacks p (on_message_complete method major minor status ∷ [])
        ≡ finished (commit_request_header p) method major minor
  unfolding request_callbacks
  message_end p method major minor status = refl

  -- However llhttp cuts the names and values of a header section, each name being nonempty and
  -- each value delivered in at least one (possibly empty) piece: if no header is in the making,
  -- then after the section and the end of the message the parser has stored exactly the headers
  -- in their order, each name with its own value, behind those it had, and the message is
  -- complete with its method and version.
  pub headers_assembled :
      (p : RequestParser L) (fs : List Fragments) (method : Bytes) (major minor status : ℕ)
      → p.current_header_field ≡ []
      → p.current_header_value ≡ []
      → p.last_was_field ≡ false
      → request_callbacks p (all_events fs ++ on_message_complete method major minor status ∷ [])
        ≡ record p {
          request = record p.request {
            headers = p.request.headers ++ header_list fs;
            method = method;
            version = version_text major minor;
          };
          message_complete = true;
        }
  headers_assembled p fs method major minor status hf hv hl =
      let here : p ≡ holding p false p.request.headers [] [] = ground arith in
      request_callbacks-append p (all_events fs) _
      ∙ message_end _ method major minor status
      ∙ ap
          (λ q.
            finished (commit_request_header (request_callbacks q (all_events fs))) method major
              minor)
          here
      ∙ ap (λ q. finished q method major minor)
          (all_headers p p.request.headers [] [] fs (λ e. refl))
      ∙ ground arith
