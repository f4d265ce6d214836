-- ===== src/Proxy/Session/Route.antt =====
-- Where a request goes: the host and port in its URL or `Host` header, and the two addresses that
-- the proxy answers itself (`Session::handleClientRead`).
use Prim.Native.Nat.{◌+◌}
use burp_tui.Prelude.{
  Bytes, codes, Bool, none, some, [], ◌&&◌, ◌||◌, map, bytes_eq, find, contains, ends_with,
  is_empty, take, drop, to_lower, if◌then◌else◌,
}
use burp_tui.Http.Message.{HttpRequest, header}

-- `host:port`, split at the first colon
unfoldable pub split_host_port : Bytes → Bytes → Bytes × Bytes
split_host_port host_port default_port = elim (find host_port (codes ":")) [
  | none ↦ (host_port, default_port)
  | some colon ↦ (take colon host_port, drop (colon + 1) host_port)
]

-- the part between `://` and the next slash; empty if there is no `://`
unfoldable pub host_of_url : Bytes → Bytes
host_of_url url = elim (find url (codes "://")) [
  | none ↦ []
  | some pos ↦
      let rest = drop (pos + 3) url in
      elim (find rest (codes "/")) [ none ↦ rest | some host_end ↦ take host_end rest ]
]

unfoldable pub target : HttpRequest → Bytes
unfolding host_of_url
target req =
    let from_header = header req.headers (codes "Host") in
    if is_empty from_header then host_of_url req.url else from_header

-- `url == "/cert" || url.ends_with("/cert")`
unfoldable pub ends_in_cert : Bytes → Bool
ends_in_cert url = bytes_eq url (codes "/cert") || ends_with url (codes "/cert")

-- Is the request one for the proxy itself?
unfoldable pub is_own_host : Bytes → Bytes → Bool
unfolding ends_in_cert
is_own_host host url =
    let host_lower = map to_lower host in
    bytes_eq host_lower (codes "burp")
    || bytes_eq host_lower (codes "burptui")
    || ends_in_cert url
    || ((bytes_eq host_lower (codes "127.0.0.1") || bytes_eq host_lower (codes "localhost"))
        && (bytes_eq url (codes "/cert") || contains url (codes "/cert")))

-- the certificate, rather than the help page
unfoldable pub wants_cert : Bytes → Bool
unfolding ends_in_cert
wants_cert url = ends_in_cert url || contains url (codes "/cert")

-- `port.empty() ? d : port`
abbrev pub or_default : Bytes → Bytes → Bytes
or_default d port = if is_empty port then d else port
