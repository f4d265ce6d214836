-- ===== src/Proxy/CertCache/Tests.antt =====
-- A cache of two hosts, and the theorems at concrete inputs.
use burp_tui.Prelude.{
  Bytes, ◌≡◌, refl, codes, true, not, Option, some, List, [], ◌∷◌, ◌&&◌, ◌||◌, bytes_eq, arith,
}
use burp_tui.Proxy.CertCache.{
  CertKeyPair, CertCache, new_cache, contains, get_entry, pop_back, back, Locked, getting, touching,
  run, locked_get, touch, find_item, erase_name, insert, make_room, create_ssl_context,
}
use burp_tui.Proxy.CertCache.Valid.{IsValid, run-IsValid}
use burp_tui.Proxy.CertCache.Lookup.{get-get, get_entry-evicts}

abbrev pair : CertKeyPair
pair = record { cert_pem = codes "C"; key_pem = codes "K" }

abbrev load : CertKeyPair → Option Bytes
load p = some p.cert_pem

abbrev history : List Locked
history = getting pair (codes "a") ∷ getting pair (codes "b") ∷ touching (codes "a") ∷ []

abbrev two_hosts : CertCache Bytes
two_hosts = run load history (new_cache 2)

two_hosts_order : two_hosts.lru_list ≡ codes "a" ∷ codes "b" ∷ []
unfolding run touch find_item erase_name locked_get insert make_room create_ssl_context bytes_eq
two_hosts_order = refl

run-IsValid_example : IsValid (run load history (new_cache 2))
run-IsValid_example = run-IsValid load 2 history

get-get_example :
    (get_entry load pair (codes "c") (get_entry load pair (codes "c") two_hosts).0
      ≡ get_entry load pair (codes "c") two_hosts)
    × (contains (codes "c") two_hosts ≡ true
        → (get_entry load pair (codes "c") two_hosts).0 ≡ two_hosts)
unfolding run touch find_item erase_name locked_get insert make_room create_ssl_context bytes_eq
get-get_example = get-get load (codes "c") two_hosts pair pair refl refl (omega arith)

get_entry-evicts_example :
    ((get_entry load pair (codes "c") two_hosts).0.lru_list ≡ codes "c" ∷ codes "a" ∷ [])
    × ((k : Bytes)
        → contains k (get_entry load pair (codes "c") two_hosts).0
          ≡ (bytes_eq (codes "c") k || (not (bytes_eq (codes "b") k) && contains k two_hosts)))
unfolding run touch find_item erase_name locked_get insert make_room create_ssl_context bytes_eq
    contains back pop_back
get_entry-evicts_example =
    get_entry-evicts load (codes "c") two_hosts pair (codes "b") (run-IsValid load 2 history) refl
      refl (omega arith) refl refl refl
