-- ===== src/Tui/Formatter/Raw.antt =====
-- The text of a request that is copied or loaded, against what the proxy sends.
use burp_tui.Prelude.{
  ℕ, ◌≡◌, refl, sym, ap, ◌∙◌, Bytes, codes, Bool, true, false, Option, none, some, [], ◌∷◌, ◌++◌,
  ◌==◌, ◌||◌, ◌&&◌, is_empty, is_some, remove_if, append_assoc, append-nil, if◌then◌else◌,
  Bool-cases, inl, inr, arith, starts_with, ends_with, find, contains, take, drop, bytes_eq, map,
  to_lower, length, leb, ◌-◌, suc, length-append,
}
use burp_tui.Http.Message.{Headers, HttpRequest, serialize_request, serialize_headers, header, crlf}
use burp_tui.Http.Raw.{without_last}
use burp_tui.Tui.Formatter.{is_host_name, host_value, other_headers, format_http_request_raw}

-- Is the name `host`, in any case?
abbrev pub names_host : Bytes → Bool
names_host k = bytes_eq (map to_lower k) (codes "host")

lower_lem :
    (c : ℕ)
    → (to_lower c == 104 ≡ (c == 72 || c == 104))
      × (to_lower c == 111 ≡ (c == 111 || c == 79))
      × (to_lower c == 115 ≡ (c == 115 || c == 83))
      × (to_lower c == 116 ≡ (c == 116 || c == 84))
unfolding to_lower
lower_lem c = (ground arith, ground arith, ground arith, ground arith)

and_lem : (a b c d : Bool) → (a && b && c && d) ≡ (a && (b && (c && (d && true))))
and_lem false b c d = refl
and_lem true false c d = refl
and_lem true true false d = refl
and_lem true true true false = refl
and_lem true true true true = refl

is_host_name_lem : (k : Bytes) → is_host_name k ≡ names_host k
unfolding bytes_eq to_lower
is_host_name_lem [] = refl
is_host_name_lem (a ∷ []) = ground arith
is_host_name_lem (a ∷ b ∷ []) = ground arith
is_host_name_lem (a ∷ b ∷ c ∷ []) = ground arith
is_host_name_lem (a ∷ b ∷ c ∷ d ∷ []) =
    let l = lower_lem a in
    let m = lower_lem b in
    let n = lower_lem c in
    let o = lower_lem d in
    rw (l.0, m.1, n.2, o.3)
      (and_lem (a == 72 || a == 104) (b == 111 || b == 79) (c == 115 || c == 83)
        (d == 116 || d == 84))
is_host_name_lem (a ∷ b ∷ c ∷ d ∷ e ∷ k) = ground arith

other_headers_lem :
    (hs : Headers) → other_headers hs ≡ serialize_headers (remove_if (λ (k, v). names_host k) hs)
unfolding other_headers serialize_headers remove_if
other_headers_lem [] = refl
other_headers_lem ((k, v) ∷ rest) = elim (Bool-cases (names_host k)) [
  | inl p ↦ rw (is_host_name_lem k, p) (other_headers_lem rest)
  | inr p ↦
      rw (is_host_name_lem k, p)
        (ap (λ t. k ++ (codes ": " ++ (v ++ (crlf ++ t)))) (other_headers_lem rest))
]

-- What a host may be given with: a scheme before it, and a slash behind it.
pub data Scheme : Type 0 where
  no_scheme http https : Scheme

abbrev pub scheme_text : Scheme → Bytes
scheme_text no_scheme = []
scheme_text http = codes "http://"
scheme_text https = codes "https://"

abbrev pub slash_text : Bool → Bytes
slash_text true = codes "/"
slash_text false = []

-- the three steps of `host_value`
abbrev unschemed : Bytes → Bytes
unschemed named =
    if starts_with named (codes "https://")
    then drop 8 named
    else if starts_with named (codes "http://")
    then drop 7 named
    else named

abbrev unslashed : Bytes → Bytes
unslashed bare = if ends_with bare (codes "/") then without_last (λ c. true) bare else bare

abbrev unlabelled : Bytes → Bytes
unlabelled t = elim (find t (codes " (HTTP")) [ none ↦ t | some pos ↦ take pos t ]

unschemed_lem :
    (s : Scheme) (t : Bytes)
    → starts_with t (codes "https://") ≡ false
    → starts_with t (codes "http://") ≡ false
    → unschemed (scheme_text s ++ t) ≡ t
unfolding starts_with
unschemed_lem no_scheme t h k = rw (h, k) refl
unschemed_lem http t h k = refl
unschemed_lem https t h k = refl

drop-length : (h t : Bytes) → drop (length h) (h ++ t) ≡ t
drop-length [] t = refl
drop-length (c ∷ h) t =
    let n : length (c ∷ h) ≡ suc (length h) = omega arith in
    ap (λ k. drop k (c ∷ (h ++ t))) n ∙ drop-length h t

ends_with-slash : (h : Bytes) → ends_with (h ++ codes "/") (codes "/") ≡ true
unfolding ends_with
ends_with-slash h =
    let n : length (h ++ codes "/") - 1 ≡ length h = rw length-append (omega arith) in
    let l : leb 1 (length (h ++ codes "/")) ≡ true = rw length-append (ground arith) in
    rw (l, n, drop-length h (codes "/")) refl

without_last-slash : (h : Bytes) → without_last (λ c. true) (h ++ codes "/") ≡ h
unfolding without_last
without_last-slash [] = refl
without_last-slash (c ∷ []) = refl
without_last-slash (c ∷ d ∷ h) = ap (c ∷◌) (without_last-slash (d ∷ h))

unslashed_lem :
    (b : Bool) (h : Bytes) → ends_with h (codes "/") ≡ false → unslashed (h ++ slash_text b) ≡ h
unslashed_lem true h e = rw (ends_with-slash h) (without_last-slash h)
unslashed_lem false h e = rw (append-nil h, e) refl

unlabelled_lem :
    (h : Bytes) (o : Option ℕ) → find h (codes " (HTTP") ≡ o → is_some o ≡ false → unlabelled h ≡ h
unlabelled_lem h none e p = rw (unlabelled, e) refl
unlabelled_lem h (some n) e p = cc (p)

-- The host is a name with nothing around it that the code takes off.
pub record IsBare (h : Bytes) (slash : Bool) : Type 0 where
  pub some_text : is_empty h ≡ false
  pub no_https : starts_with (h ++ slash_text slash) (codes "https://") ≡ false
  pub no_http : starts_with (h ++ slash_text slash) (codes "http://") ≡ false
  pub no_slash : ends_with h (codes "/") ≡ false
  pub no_label : contains h (codes " (HTTP") ≡ false

host_value_lem :
    (host h : Bytes) (hs : Headers) (scheme : Scheme) (slash : Bool)
    → (if is_empty host then header hs (codes "Host") else host)
      ≡ scheme_text scheme ++ (h ++ slash_text slash)
    → IsBare h slash
    → host_value host hs ≡ h
unfolding host_value
host_value_lem host h hs scheme slash e bare =
    ap (λ t. unlabelled (unslashed (unschemed t))) e
    ∙ (ap (λ t. unlabelled (unslashed t))
          (unschemed_lem scheme (h ++ slash_text slash) bare.no_https bare.no_http)
        ∙ (ap unlabelled (unslashed_lem slash h bare.no_slash)
            ∙ unlabelled_lem h (find h (codes " (HTTP")) refl bare.no_label))

line_lem :
    (h more : Bytes)
    → is_empty h ≡ false
    → (if is_empty h then [] else codes "Host: " ++ (h ++ crlf)) ++ more
      ≡ codes "Host" ++ (codes ": " ++ (h ++ (crlf ++ more)))
line_lem h more e = rw e (ap (codes "Host: " ++◌) (append_assoc h crlf more))

-- A request that was not edited as text, with a host `h` that is given, or else named by its `Host`
-- header, as `h` itself, with `http://` or `https://` before it, with a slash behind it or with both:
-- its text is what the proxy sends for the same request with `Host: h` as its first header and no
-- other header that is named `host` in any case.
pub raw_text_sent :
    (req : HttpRequest) (host h : Bytes) (scheme : Scheme) (slash : Bool)
    → is_empty req.raw_override ≡ true
    → (if is_empty host then header req.headers (codes "Host") else host)
      ≡ scheme_text scheme ++ (h ++ slash_text slash)
    → IsBare h slash
    → let others = remove_if (λ (k, v). names_host k) req.headers in
      format_http_request_raw req host
      ≡ serialize_request (record req { headers = (codes "Host", h) ∷ others })
unfolding format_http_request_raw serialize_request serialize_headers
raw_text_sent req host h scheme slash plain named bare =
    let value = host_value_lem host h req.headers scheme slash named bare in
    let kept = remove_if (λ (k, v). names_host k) req.headers in
    rw (plain, value, other_headers_lem req.headers)
      (ap
        (λ t. req.method ++ (codes " " ++ (req.url ++ (codes " " ++ (req.version ++ (crlf ++ t))))))
        (line_lem h _ bare.some_text
          ∙ ap (codes "Host: " ++◌)
              (sym (append_assoc h (crlf ++ serialize_headers kept) (crlf ++ req.body)))))
