-- ===== src/Proxy/Certs/Generator.antt =====
-- Leaf certificates (src/proxy/CertGenerator.cpp).
use burp_tui.Prelude.{
  ℕ, pos, negsuc, ◌+◌, ◌%◌, ◌*◌, Bytes, codes, Bool, not, Option, none, some, List, [], ◌∷◌, ◌++◌,
  ◌&&◌, ◌||◌, ltb, length, is_empty, is_some, if◌then◌else◌,
}
use burp_tui.Proxy.CertCache.{CertKeyPair}
use burp_tui.Proxy.Certs.{
  Obj, local_cert_obj, local_key_obj, cert_obj, key_obj, cert_bio, key_bio, Nid, basic_constraints,
  key_usage, ext_key_usage, subject_alt_name, subject_key_identifier, authority_key_identifier,
  Call, Filled, rsa_gen, x509_new, set_version, rand_bytes, set_serial, adj_not_before,
  adj_not_after, set_pubkey, add_name, set_issuer, sign, bio_new, bio_new_file, bio_free, read_cert,
  read_key, write_cert, write_key, mem_ptr, x509_free, pkey_free, made, after, ext_calls,
}
use burp_tui.Proxy.Certs.SslInit.{SslInit}

-- `Impl`
pub record Generator : Type 0 where
  pub key_path : Bytes
  pub cert_path : Bytes
  pub local_cert : Option Obj
  pub local_key : Option Obj

-- the two constructors
abbrev pub new_generator : Bytes → Bytes → Generator
new_generator key_path cert_path = record {
  key_path = key_path;
  cert_path = cert_path;
  local_cert = none;
  local_key = none;
}

-- What OpenSSL answers during a call of `generate`.
pub record MintAnswers : Type 0 where
  pub cert_file_ok : Bool
  pub cert_parsed : Bool
  pub key_file_ok : Bool
  pub key_parsed : Bool
  pub rsa_ok : Bool
  pub x509_ok : Bool
  pub random : Option ℕ
  pub host_hash : ℕ
  pub ext_ok : Nid → Bool
  pub filled : Filled
  pub sign_ok : Bool
  pub cert_bio_ok : Bool
  pub cert_written : Bool
  pub cert_mem : Option Bytes
  pub key_bio_ok : Bool
  pub key_written : Bool
  pub key_mem : Option Bytes

-- `~Impl`
unfoldable pub free_generator : Generator → List Call
free_generator g =
    (elim g.local_cert [ none ↦ [] | some c ↦ x509_free c ∷ [] ])
    ++ (elim g.local_key [ none ↦ [] | some k ↦ pkey_free k ∷ [] ])

unfoldable pub load_local_cert : MintAnswers → Generator → List Call × Generator
load_local_cert os g =
    let opened = bio_new_file g.cert_path (codes "r") (made os.cert_file_ok cert_bio) ∷ [] in
    let found = made os.cert_parsed local_cert_obj in
    elim g.local_cert [
      | some c ↦ ([], g)
      | none ↦
          if os.cert_file_ok
          then (
            opened ++ read_cert cert_bio found ∷ bio_free cert_bio ∷ [],
            record g { local_cert = found },
          )
          else (opened, g)
    ]

unfoldable pub load_local_key : MintAnswers → Generator → List Call × Generator
load_local_key os g =
    let opened = bio_new_file g.key_path (codes "r") (made os.key_file_ok key_bio) ∷ [] in
    let found = made os.key_parsed local_key_obj in
    elim g.local_key [
      | some k ↦ ([], g)
      | none ↦
          if os.key_file_ok
          then (
            opened ++ read_key key_bio found ∷ bio_free key_bio ∷ [],
            record g { local_key = found },
          )
          else (opened, g)
    ]

unfoldable pub load_local :
    MintAnswers → Generator → List Call × ((Option Obj × Option Obj) × Generator)
load_local os g =
    let c = load_local_cert os g in
    let k = load_local_key os c.1 in (c.0 ++ k.0, (((k.1).local_cert, (k.1).local_key), k.1))

-- steps 1 and 2 of `generate`: the certificate and the key of the authority
unfoldable pub find_ca :
    MintAnswers → SslInit → Generator → List Call × ((Option Obj × Option Obj) × Generator)
find_ca os ssl g =
    let cert = if ssl.initialized then ssl.ca_cert else none in
    let key = if ssl.initialized then ssl.ca_key else none in
    if (not (is_some cert) || not (is_some key))
      && (not (is_empty g.cert_path) && not (is_empty g.key_path))
    then load_local os g
    else ([], ((cert, key), g))

abbrev pub serial : MintAnswers → ℕ
serial os = elim os.random [ none ↦ 1000 + os.host_hash % 1000000 | some n ↦ n ]

-- steps 4 and 5: the fields, and the extensions
unfoldable pub leaf_fields : MintAnswers → Bytes → Obj → List Call
leaf_fields os host ca =
    let done = os.filled in
    set_version cert_obj 2 done.version_ok
    ∷ rand_bytes os.random
    ∷ set_serial cert_obj (serial os) done.serial_ok
    ∷ adj_not_before cert_obj (negsuc 86399) done.not_before_ok
    ∷ adj_not_after cert_obj (pos (365 * 86400)) done.not_after_ok
    ∷ set_pubkey cert_obj key_obj done.pubkey_ok
    ∷ add_name cert_obj (codes "CN") host (done.name_ok (codes "CN"))
    ∷ add_name cert_obj (codes "O") (codes "BurpTUI Dynamic CA") (done.name_ok (codes "O"))
    ∷ set_issuer cert_obj ca done.issuer_ok
    ∷ []

abbrev pub leaf_ext_list : Bytes → List (Nid × Bytes)
leaf_ext_list host =
    (basic_constraints, codes "critical,CA:FALSE")
    ∷ (key_usage, codes "digitalSignature,keyEncipherment")
    ∷ (ext_key_usage, codes "serverAuth,clientAuth")
    ∷ (subject_alt_name, codes "DNS:" ++ host)
    ∷ (subject_key_identifier, codes "hash")
    ∷ (authority_key_identifier, codes "keyid:always,issuer")
    ∷ []

unfoldable pub leaf_exts : MintAnswers → Obj → List (Nid × Bytes) → List Call
leaf_exts os ca [] = []
leaf_exts os ca ((nid, value) ∷ es) =
    ext_calls ca cert_obj nid value (os.ext_ok nid) (os.filled.added nid) ++ leaf_exts os ca es

-- what is assigned out of a memory BIO
abbrev pub bytes_of : Option Bytes → Bytes
bytes_of none = []
bytes_of (some b) = if ltb 0 (length b) then b else []

unfoldable pub cert_to_pem : MintAnswers → List Call × Bytes
cert_to_pem os =
    let make = bio_new (made os.cert_bio_ok cert_bio) ∷ [] in
    let write = write_cert cert_bio cert_obj os.cert_written ∷ [] in
    let take_out = mem_ptr cert_bio os.cert_mem ∷ [] in
    let drop = bio_free cert_bio ∷ [] in
    if os.cert_bio_ok
    then if os.cert_written
      then (make ++ (write ++ (take_out ++ drop)), bytes_of os.cert_mem)
      else (make ++ (write ++ drop), [])
    else (make, [])

unfoldable pub key_to_pem : MintAnswers → List Call × Bytes
key_to_pem os =
    let make = bio_new (made os.key_bio_ok key_bio) ∷ [] in
    let write = write_key key_bio key_obj os.key_written ∷ [] in
    let take_out = mem_ptr key_bio os.key_mem ∷ [] in
    let drop = bio_free key_bio ∷ [] in
    if os.key_bio_ok
    then if os.key_written
      then (make ++ (write ++ (take_out ++ drop)), bytes_of os.key_mem)
      else (make ++ (write ++ drop), [])
    else (make, [])

abbrev pub no_pair : CertKeyPair
no_pair = record { cert_pem = []; key_pem = [] }

abbrev free_leaf : List Call
free_leaf = x509_free cert_obj ∷ pkey_free key_obj ∷ []

-- step 7
unfoldable pub serialize : MintAnswers → List Call × CertKeyPair
serialize os =
    let cert = cert_to_pem os in
    let key = key_to_pem os in
    let pair : CertKeyPair = record { cert_pem = cert.1; key_pem = key.1 } in
    (cert.0 ++ (key.0 ++ free_leaf), if is_empty cert.1 || is_empty key.1 then no_pair else pair)

-- steps 3 to 7, with the certificate and the key of the authority
unfoldable pub mint : MintAnswers → Bytes → Obj → Obj → List Call × CertKeyPair
mint os host ca ca_key = after (rsa_gen (made os.rsa_ok key_obj) ∷ []) (
    if os.rsa_ok
    then after (x509_new (made os.x509_ok cert_obj) ∷ []) (
        if os.x509_ok
        then after
            (leaf_fields os host ca
              ++ (leaf_exts os ca (leaf_ext_list host) ++ sign cert_obj ca_key os.sign_ok ∷ []))
            (if os.sign_ok then serialize os else (free_leaf, no_pair))
        else (pkey_free key_obj ∷ [], no_pair))
    else ([], no_pair))

-- `if (!caCert || !caKey)`, and what follows
unfoldable pub mint_found : MintAnswers → Bytes → Option Obj → Option Obj → List Call × CertKeyPair
mint_found os host (some ca) (some ca_key) = mint os host ca ca_key
mint_found os host (some ca) none = ([], no_pair)
mint_found os host none key = ([], no_pair)

-- `generate`
unfoldable pub generate :
    MintAnswers → SslInit → Bytes → Generator → List Call × (CertKeyPair × Generator)
generate os ssl host g =
    let found = find_ca os ssl g in
    let minted = mint_found os host ((found.1).0).0 ((found.1).0).1 in
    if is_empty host then ([], (no_pair, g)) else (found.0 ++ minted.0, (minted.1, (found.1).1))
