-- ===== src/Proxy/Session/Replies.antt =====
-- The responses that the proxy makes itself (`Session::sendErrorResponse`, `serveCaCert`,
-- `serveBurpHelpPage`).
use burp_tui.Prelude.{ℕ, Bytes, codes, true, some, ◌++◌, is_empty, length, to_string, if◌then◌else◌}
use burp_tui.Http.Message.{HttpResponse, empty_response, crlf}
use burp_tui.Proxy.Session.State.{Session, Env, report, write_client}

-- "<status line>\r\n<content type>\r\n...": the head of a response that closes the connection.
unfoldable pub response_head : Bytes → Bytes → ℕ → Bytes
response_head status_line content_headers body_size =
    codes "HTTP/1.1 "
    ++ (status_line
        ++ (crlf
            ++ (content_headers
                ++ (crlf
                    ++ (codes "Content-Length: "
                        ++ (to_string body_size
                            ++ (crlf ++ (codes "Connection: close" ++ (crlf ++ crlf)))))))))

unfoldable pub status_words : ℕ → Bytes → Bytes
status_words code text = to_string code ++ (codes " " ++ text)

unfoldable pub error_body : ℕ → Bytes → Bytes
unfolding status_words
error_body code text =
    codes "<html><body><h1>"
    ++ (status_words code text
        ++ (codes "</h1>" ++ codes "<p>BurpTUI Proxy Error</p></body></html>"))

-- the response text and the head of it
unfoldable pub error_text : ℕ → Bytes → Bytes
unfolding response_head error_body
error_text code text =
    response_head (status_words code text) (codes "Content-Type: text/html")
      (length (error_body code text))
    ++ error_body code text

unfoldable pub cert_text : Bytes → Bytes
unfolding response_head
cert_text content =
    response_head (codes "200 OK")
      (codes "Content-Type: application/x-x509-ca-cert"
        ++ (crlf ++ codes "Content-Disposition: attachment; filename=\"burptui-ca.crt\""))
      (length content)
    ++ content

unfoldable pub help_html : Bytes → Bytes
help_html cert_path =
    codes "<!DOCTYPE html><html><head><meta charset=\"utf-8\">"
    ++ (codes "<title>BurpTUI CA Certificate</title>"
        ++ (codes "<style>"
            ++ (codes
                  "body{font-family:-apple-system,BlinkMacSystemFont,\"Segoe UI\",Roboto,sans-serif;background:#14141e;color:#eee;text-align:center;padding:60px 20px;}"
                ++ (codes
                      ".card{max-width:540px;margin:0 auto;background:#1e1e2d;border:1px solid #333348;border-radius:12px;padding:40px 30px;box-shadow:0 8px 30px rgba(0,0,0,0.5);}"
                    ++ (codes "h1{color:#00ff88;margin-top:0;font-size:28px;}"
                        ++ (codes "p{line-height:1.6;color:#bbb;font-size:15px;}"
                            ++ (codes
                                  ".btn{display:inline-block;margin-top:20px;padding:12px 28px;background:#00b0ff;color:#000;font-weight:bold;font-size:16px;text-decoration:none;border-radius:6px;}"
                                ++ (codes ".btn:hover{background:#00ff88;}"
                                    ++ (codes
                                          "code{background:#0d0d14;padding:4px 8px;border-radius:4px;color:#00ff88;font-size:13px;word-break:break-all;}"
                                        ++ (codes "</style></head><body>"
                                            ++ (codes "<div class=\"card\">"
                                                ++ (codes "<h1>BurpTUI Proxy</h1>"
                                                    ++ (codes
                                                          "<p>To intercept and inspect encrypted HTTPS traffic without browser security warnings, download and trust the BurpTUI Root CA certificate.</p>"
                                                        ++ (codes
                                                            "<a class=\"btn\" href=\"/cert\">Download CA Certificate</a>"
                                                            ++ (codes
                                                            "<p style=\"margin-top:28px;font-size:13px;color:#777;\">Certificate file path on system:<br><br><code>")))))))))))))))
    ++ (cert_path ++ (codes "</code></p>" ++ (codes "</div></body></html>")))

unfoldable pub help_text : Bytes → Bytes
unfolding response_head help_html
help_text cert_path =
    response_head (codes "200 OK") (codes "Content-Type: text/html; charset=utf-8")
      (length (help_html cert_path))
    ++ help_html cert_path

abbrev pub error_response : ℕ → Bytes → HttpResponse
error_response code text = record empty_response {
  version = codes "HTTP/1.1";
  status_code = code;
  status_text = text;
  body = error_body code text;
}

abbrev pub ok_response : HttpResponse
ok_response = record empty_response {
  version = codes "HTTP/1.1";
  status_code = 200;
  status_text = codes "OK";
}

-- The certificate in memory, else the file's content.
unfoldable pub ca_content : Env → Bytes
ca_content env = if is_empty env.ca_pem then env.ca_file else env.ca_pem

module _ {L : Type 0} (env : Env) where
  -- the transaction's response, the callback, and the text to the client, after which the
  -- connection is closed
  unfoldable pub reply_and_close : HttpResponse → Bytes → Session L → Session L
  unfolding report write_client
  reply_and_close response text s =
      let s1 = record s {
        current_transaction = record s.current_transaction { response = some response };
      } in
      let s2 = report env s1 in write_client text (record s2 { close_after_write = true })

  unfoldable pub send_error_response : ℕ → Bytes → Session L → Session L
  unfolding reply_and_close
  send_error_response code text s =
      reply_and_close (error_response code text) (error_text code text) s

  unfoldable pub serve_ca_cert : Session L → Session L
  unfolding reply_and_close send_error_response ca_content
  serve_ca_cert s =
      if is_empty (ca_content env)
      then send_error_response 500 (codes "CA Certificate Not Found") s
      else reply_and_close ok_response (cert_text (ca_content env)) s

  unfoldable pub serve_burp_help_page : Session L → Session L
  unfolding reply_and_close
  serve_burp_help_page s = reply_and_close ok_response (help_text env.ca_cert_path) s
