-- ===== src/Tui/Repeater/Tests.antt =====
-- A target typed as a URL, a typed request, and a request sent twice.
use burp_tui.Prelude.{◌≡◌, refl, Bytes, codes, true, false, List, [], ◌∷◌, ◌++◌}
use burp_tui.Http.Message.{crlf}
use burp_tui.Http.Raw.{normalized}
use burp_tui.Tui.Repeater.{Sent, sanitize_target, clean_request, lacks, with_host, received}
use burp_tui.Tui.Repeater.Target.{sanitize_target-url}
use burp_tui.Tui.Repeater.Cleaned.{IsFirstLine, added, clean_request_lem}
use burp_tui.Tui.Repeater.Sending.{
  Action, sending, editing, ending, new_world, act, run, IsValid, one_in_flight, sends_again,
}

sanitize_target-url_example :
    sanitize_target (codes "https://a.b:8443/x?y") (codes "80") false
    ≡ (codes "a.b", codes "8443", true)
sanitize_target-url_example =
    sanitize_target-url true (codes "a.b") (codes "8443") (codes "x?y") (codes "80") false
      (
        (refl, refl, refl, refl, refl),
        ((refl, refl, refl, refl, refl), ((refl, refl, refl, refl, refl), tt)),
      )
      (
        (refl, refl, refl, refl, refl),
        (
          (refl, refl, refl, refl, refl),
          ((refl, refl, refl, refl, refl), ((refl, refl, refl, refl, refl), tt)),
        ),
      )
      refl

abbrev raw : Bytes
raw = codes "GET /\n"

clean_request_lem_example :
    (l : Bytes) × (rest : Bytes) × (normalized raw ≡ l ++ (crlf ++ rest))
    × IsFirstLine l rest
    × (clean_request (codes "a") raw
        ≡ l
          ++ (crlf
              ++ (added
                    (lacks
                      (with_host (codes "a") (normalized raw))
                      (codes "Connection:")
                      (codes "connection:"))
                    (codes "Connection: close" ++ crlf)
                  ++ (added
                        (lacks (normalized raw) (codes "Host:") (codes "host:"))
                        (codes "Host: a" ++ crlf)
                      ++ rest))))
clean_request_lem_example = clean_request_lem (codes "a") raw

abbrev history : List Action
history =
    editing raw ∷ sending ∷ sending ∷ ending (received (codes "HTTP/1.1 200 OK")) 3 ∷ sending ∷ []

one_in_flight_example : IsValid (run history new_world)
one_in_flight_example = one_in_flight history

sends_again_example :
    (t : Sent) × ((act sending (act (ending (received []) 5) (run history new_world))).threads
      ≡ t ∷ [])
sends_again_example = sends_again history (received []) 5
