-- ===== src/Tui/Formatter.antt =====
-- Messages as the interface shows and copies them (`HttpFormatter`). Of an element the text is
-- kept, that of the parts of an `hbox` one after the other; colours and styles are left out.
use burp_tui.Prelude.{
  ℕ, zero, suc, ◌+◌, ◌-◌, ◌*◌, ◌/◌, ◌%◌, min, Bytes, codes, Bool, true, false, not, Option, none,
  some, List, [], ◌∷◌, ◌++◌, ◌==◌, ◌&&◌, ◌||◌, contains, ends_with, find, starts_with, bytes_eq,
  is_empty, length, take, drop, ltb, leb, map, to_string, if◌then◌else◌,
}
use burp_tui.Http.Message.{Headers, HttpRequest, HttpResponse, header, serialize_headers, crlf}
use burp_tui.Http.Raw.{sanitized, erase_mark, lines, without_last, without_cr}
use burp_tui.Util.Encoding.{lower_digit}
pub mod Hex
pub mod Sanitize
pub mod Raw
mod Tests

-- what a byte other than `\r` is shown as
abbrev pub shown_byte : ℕ → ℕ
shown_byte c =
    if c == 10 || c == 9 || (leb 32 c && ltb c 127) then c else if leb 128 c then c else b'.'

-- `SanitizeText`, with how many bytes may still be put out
unfoldable pub sanitize_text : Bytes → ℕ → Bytes
sanitize_text [] left = []
sanitize_text (c ∷ cs) zero = []
sanitize_text (c ∷ cs) (suc left) =
    let skipped = sanitize_text cs (suc left) in
    let more = sanitize_text cs left in if c == 13 then skipped else shown_byte c ∷ more

abbrev pub binary_types : List Bytes
binary_types =
    codes "image/"
    ∷ codes "audio/"
    ∷ codes "video/"
    ∷ codes "font/"
    ∷ codes "application/octet-stream"
    ∷ codes "application/zip"
    ∷ codes "application/gzip"
    ∷ codes "application/pdf"
    ∷ []

abbrev pub has_any : List Bytes → Bytes → Bool
has_any [] s = false
has_any (t ∷ ts) s = contains s t || has_any ts s

abbrev pub is_control : ℕ → Bool
is_control c = ltb c 9 || (ltb 13 c && ltb c 32)

-- the loop over the sample: `none` at a null byte, else the count
unfoldable pub count_control : Bytes → ℕ → Option ℕ
count_control [] n = some n
count_control (c ∷ cs) n =
    let more = count_control cs (if is_control c then n + 1 else n) in if c == 0 then none else more

unfoldable pub is_binary_data : Bytes → Bytes → Bool
unfolding count_control find
is_binary_data bytes content_type =
    let sample = take (min (length bytes) 512) bytes in
    let by_bytes : Bool = elim (count_control sample 0) [
      | none ↦ true
      | some n ↦ ltb 8 ((n * 100) / length sample)
    ] in
    if has_any binary_types content_type then true else if is_empty sample then false else by_bytes

-- `%02x`
abbrev pub hex_byte : ℕ → Bytes
hex_byte c = lower_digit (c / 16) ∷ lower_digit (c % 16) ∷ []

-- `%08zx` of an offset below 2 ^ 32
abbrev pub hex_offset : ℕ → Bytes
hex_offset i =
    hex_byte (i / 16777216 % 256)
    ++ (hex_byte (i / 65536 % 256) ++ (hex_byte (i / 256 % 256) ++ hex_byte (i % 256)))

-- the loop on `j` over the places of a row, `n` of them left, with what is left of the row
unfoldable pub hex_columns : ℕ → ℕ → Bytes → Bytes
hex_columns zero j row = []
hex_columns (suc n) j row =
    let gap = if j == 7 then codes " " else [] in
    elim row [
      | [] ↦ codes "   " ++ (gap ++ hex_columns n (j + 1) [])
      | c ∷ cs ↦ hex_byte c ++ (codes " " ++ (gap ++ hex_columns n (j + 1) cs))
    ]

abbrev pub shown_char : ℕ → ℕ
shown_char c = if leb 32 c && ltb c 127 then c else b'.'

unfoldable pub hex_row : ℕ → Bytes → Bytes
unfolding hex_columns
hex_row i row =
    hex_offset i
    ++ (codes ": " ++ (hex_columns 16 0 row ++ (codes " |" ++ (map shown_char row ++ codes "|\n"))))

-- the loop on `i` over what is left of the sample; a row takes sixteen bytes
unfoldable pub hex_rows : ℕ → ℕ → Bytes → Bytes
unfolding hex_row
hex_rows zero i bytes = []
hex_rows (suc n) i bytes =
    let more = hex_rows n (i + 16) (drop 16 bytes) in
    if is_empty bytes then [] else hex_row i (take 16 bytes) ++ more

unfoldable pub format_hex_dump : Bytes → ℕ → Bytes
unfolding hex_rows
format_hex_dump bytes max_bytes =
    let limit = min (length bytes) max_bytes in
    let omitted =
      codes "[ ... "
      ++ (to_string (length bytes - limit) ++ codes " additional binary bytes omitted ... ]\n") in
    hex_rows limit 0 (take limit bytes) ++ (if ltb limit (length bytes) then omitted else [])

-- a row of the interface
pub data Element : Type 0 where
  text : Bytes → Element
  separator : Element

abbrev pub max_lines : ℕ
max_lines = 1000

-- `FormatBodyLines`. The stream is still good after the loop where the line after the last one
-- shown was read up to a line end.
unfoldable pub format_body_lines : Bytes → Bytes → List Element
unfolding is_binary_data format_hex_dump lines without_last sanitize_text
format_body_lines body content_type =
    let named = if is_empty content_type then codes "unknown" else content_type in
    let binary =
      text (
        codes "[ Binary Payload: "
        ++ (to_string (length body) ++ (codes " bytes | Content-Type: " ++ (named ++ codes " ]"))))
      ∷ text []
      ∷ map text (lines (format_hex_dump body 1024)) in
    let rows = map (λ l. text (sanitize_text (without_cr l) 512)) (take max_lines (lines body)) in
    let note = text (codes "[ ... Remaining lines truncated for TUI display ... ]") ∷ [] in
    let count = length (lines body) in
    let truncated =
      ltb (max_lines + 1) count || (count == (max_lines + 1) && ends_with body (codes "\n")) in
    if is_empty body
    then text (codes "(Empty body)") ∷ []
    else if is_binary_data body content_type
    then binary
    else rows ++ (if truncated then note else [])

-- `FormatHttpRequestLines`
unfoldable pub format_http_request_lines : HttpRequest → Bool → Bytes → List Element
unfolding sanitize_text format_body_lines header
format_http_request_lines req is_https host =
    let first =
      text
        (req.method ++ (codes " " ++ (sanitize_text req.url 256 ++ (codes " " ++ req.version)))) in
    let target =
      text (codes "Host: " ++ (host ++ (if is_https then codes " (HTTPS)" else codes " (HTTP)"))) in
    let body =
      separator
      ∷ text (codes "--- Request Body (" ++ (to_string (length req.body) ++ codes " bytes) ---"))
      ∷ format_body_lines req.body (header req.headers (codes "Content-Type")) in
    (first ∷ separator ∷ target ∷ header_lines req.headers)
    ++ (if is_empty req.body then [] else body)
  where
    header_lines : Headers → List Element
    header_lines [] = []
    header_lines ((k, v) ∷ rest) =
        let more = header_lines rest in
        if bytes_eq k (codes "Host")
        then more
        else text (sanitize_text k 64 ++ (codes ": " ++ sanitize_text v 256)) ∷ more

-- `FormatHttpResponseLines`
unfoldable pub format_http_response_lines : HttpResponse → List Element
unfolding sanitize_text format_body_lines header
format_http_response_lines res =
    let first = text (
      res.version
      ++ (codes " "
          ++ (to_string res.status_code ++ (codes " " ++ sanitize_text res.status_text 64)))) in
    let body =
      separator
      ∷ text (codes "--- Response Body (" ++ (to_string (length res.body) ++ codes " bytes) ---"))
      ∷ format_body_lines res.body (header res.headers (codes "Content-Type")) in
    (first
      ∷ separator
      ∷ map (λ (k, v). text (sanitize_text k 64 ++ (codes ": " ++ sanitize_text v 256)))
          res.headers)
    ++ (if is_empty res.body then [] else body)

-- the value of the `Host` line: the host that is given, or the header's, without scheme, one slash
-- at the end, and what follows ` (HTTP`
unfoldable pub host_value : Bytes → Headers → Bytes
unfolding header starts_with find ends_with without_last
host_value host headers =
    let named = if is_empty host then header headers (codes "Host") else host in
    let bare =
      if starts_with named (codes "https://")
      then drop 8 named
      else if starts_with named (codes "http://")
      then drop 7 named
      else named in
    let unslashed = if ends_with bare (codes "/") then without_last (λ c. true) bare else bare in
    elim (find unslashed (codes " (HTTP")) [ none ↦ unslashed | some pos ↦ take pos unslashed ]

-- four letters that are `host` in any case
abbrev pub is_host_name : Bytes → Bool
is_host_name (a ∷ b ∷ c ∷ d ∷ []) =
    (a == b'H' || a == b'h')
    && (b == b'o' || b == b'O')
    && (c == b's' || c == b'S')
    && (d == b't' || d == b'T')
is_host_name _ = false

unfoldable pub other_headers : Headers → Bytes
other_headers [] = []
other_headers ((k, v) ∷ rest) =
    let more = other_headers rest in
    if is_host_name k then more else k ++ (codes ": " ++ (v ++ (crlf ++ more)))

-- `FormatHttpRequestRaw`, which does not read `isHttps`
unfoldable pub format_http_request_raw : HttpRequest → Bytes → Bytes
unfolding sanitized host_value other_headers
format_http_request_raw req host =
    let value = host_value host req.headers in
    let host_line = if is_empty value then [] else codes "Host: " ++ (value ++ crlf) in
    let built =
      req.method
      ++ (codes " "
          ++ (req.url
              ++ (codes " "
                  ++ (req.version
                      ++ (crlf
                          ++ (host_line
                              ++ (other_headers req.headers ++ (crlf ++ req.body)))))))) in
    if is_empty req.raw_override then built else sanitized req.raw_override

-- `FormatHttpResponseRaw`
unfoldable pub format_http_response_raw : HttpResponse → Bytes
unfolding serialize_headers
format_http_response_raw res =
    res.version
    ++ (codes " "
        ++ (to_string res.status_code
            ++ (codes " "
                ++ (res.status_text
                    ++ (crlf ++ (serialize_headers res.headers ++ (crlf ++ res.body)))))))
