-- ===== src/Http/Raw.antt =====
-- The text of a request that the user typed or edited (`ParseRawHttpRequest`).
use burp_tui.Prelude.{
  ℕ, ◌+◌, Bytes, codes, Bool, true, false, not, Option, none, some, List, [], ◌∷◌, ◌++◌, ◌&&◌, ◌||◌,
  ◌==◌, contains, ends_with, find, bytes_eq, is_empty, is_space, skip_spaces, take, drop,
  if◌then◌else◌,
}
use burp_tui.Http.Message.{Headers, HttpRequest, crlf}
mod Marks
pub mod Sent
mod Tests

-- `auto p = str.find(mark); if (p != npos) str.erase(p, n);`
unfoldable pub erase_mark : Bytes → ℕ → Bytes → Bytes
erase_mark mark n s = elim (find s mark) [ none ↦ s | some p ↦ take p s ++ drop (p + n) s ]

unfoldable pub sanitized : Bytes → Bytes
unfolding erase_mark
sanitized raw = erase_mark (codes " (HTTP)") 7 (erase_mark (codes " (HTTPS)") 8 raw)

-- `\r` is left out and `\n` becomes `\r\n`.
unfoldable pub with_crlf : Bytes → Bytes
with_crlf [] = []
with_crlf (c ∷ cs) =
    let rest = with_crlf cs in
    if c == 13 then rest else if c == 10 then 13 ∷ 10 ∷ rest else c ∷ rest

unfoldable pub with_blank_line : Bytes → Bytes
with_blank_line s =
    if contains s (crlf ++ crlf)
    then s
    else if ends_with s crlf
    then s ++ crlf
    else s ++ (crlf ++ crlf)

abbrev pub normalized : Bytes → Bytes
normalized raw = with_blank_line (with_crlf (sanitized raw))

-- What `std::getline` gives until it fails.
unfoldable pub lines : Bytes → List Bytes
lines [] = []
lines (c ∷ cs) =
    let joined : List Bytes = elim (lines cs) [ [] ↦ (c ∷ []) ∷ [] | l ∷ ls ↦ (c ∷ l) ∷ ls ] in
    if c == 10 then [] ∷ lines cs else joined

-- `if (!s.empty() && s.back() == c) s.pop_back()`
unfoldable pub without_last : (ℕ → Bool) → Bytes → Bytes
without_last p [] = []
without_last p (c ∷ []) = if p c then [] else c ∷ []
without_last p (c ∷ d ∷ cs) = c ∷ without_last p (d ∷ cs)

abbrev pub without_cr : Bytes → Bytes
without_cr line = without_last (λ c. c == 13) line

-- `stream >> word`: the word, and what is left
unfoldable pub break_word : Bytes → Bytes × Bytes
break_word [] = ([], [])
break_word (c ∷ cs) =
    let (word, rest) = break_word cs in if is_space c then ([], c ∷ cs) else (c ∷ word, rest)

abbrev pub next_word : Bytes → Bytes × Bytes
next_word s = break_word (skip_spaces s)

abbrev pub or_else : Bytes → Bytes → Bytes
or_else d word = if is_empty word then d else word

unfoldable pub skip_blanks : Bytes → Bytes
skip_blanks [] = []
skip_blanks (c ∷ cs) = if c == 32 || c == 9 then skip_blanks cs else c ∷ cs

-- a header line; one without a colon gives nothing
unfoldable pub header_line : Bytes → Headers
unfolding skip_blanks
header_line line = elim (find line (codes ":")) [
  | none ↦ []
  | some colon ↦ (take colon line, skip_blanks (drop (colon + 1) line)) ∷ []
]

unfoldable pub body_text : List Bytes → Bytes
body_text [] = []
body_text (l ∷ ls) = l ++ (10 ∷ body_text ls)

-- the header lines up to a blank one, and the body
unfoldable pub headers_and_body : List Bytes → Headers × Bytes
unfolding header_line body_text
headers_and_body [] = ([], [])
headers_and_body (l ∷ ls) =
    let (hs, body) = headers_and_body ls in
    if bytes_eq l (13 ∷ []) || is_empty l
    then ([], body_text ls)
    else (header_line (without_cr l) ++ hs, body)

unfoldable pub parse_lines : Bytes → Bytes → List Bytes → HttpRequest
unfolding without_last break_word headers_and_body
parse_lines str text [] = record {
  method = [];
  url = [];
  version = codes "HTTP/1.1";
  headers = [];
  body = [];
  raw_override = text;
}
parse_lines str text (l ∷ ls) =
    let (method, rest) = next_word (without_cr l) in
    let (url, rest') = next_word rest in
    let (version, _) = next_word rest' in
    let (hs, body) = headers_and_body ls in
    record {
      method = or_else (codes "GET") method;
      url = or_else (codes "/") url;
      version = or_else (codes "HTTP/1.1") version;
      headers = hs;
      body = if ends_with str (10 ∷ []) then body else without_last (λ c. true) body;
      raw_override = text;
    }

unfoldable pub parse_raw_http_request : Bytes → HttpRequest
unfolding sanitized with_crlf with_blank_line lines parse_lines
parse_raw_http_request raw = parse_lines (sanitized raw) (normalized raw) (lines (normalized raw))
