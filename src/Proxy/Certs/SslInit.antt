-- ===== src/Proxy/Certs/SslInit.antt =====
-- The root certificate authority (src/proxy/SslInit.cpp).
--
-- The file system's answers are arguments too: `none` is an exception of `std::filesystem`. Its
-- exceptions are caught by `ensureCaDirectory` alone, so `initialize` may throw out of the tests for
-- the two files.
use burp_tui.Prelude.{
  pos, Bytes, codes, Bool, true, false, not, Option, none, some, List, [], ◌∷◌, ◌++◌, ◌==◌, ◌||◌,
  ◌*◌, is_empty, if◌then◌else◌,
}
use burp_tui.Proxy.Certs.{
  Obj, ca_cert_obj, ca_key_obj, cert_bio, key_bio, Nid, basic_constraints, key_usage,
  subject_key_identifier, Call, Filled, init_ssl, rsa_gen, x509_new, set_version, set_serial,
  adj_not_before, adj_not_after, set_pubkey, add_name, set_issuer, sign, bio_new_file, bio_free,
  read_cert, read_key, write_cert, write_key, check_private_key, digest, x509_free, pkey_free, made,
  after, ext_calls,
}

-- `fs::path(dir) / name`, for a relative name
unfoldable pub ends_in_slash : Bytes → Bool
ends_in_slash [] = false
ends_in_slash (x ∷ []) = x == 47
ends_in_slash (x ∷ y ∷ ys) = ends_in_slash (y ∷ ys)

unfoldable pub path_join : Bytes → Bytes → Bytes
path_join dir name = if is_empty dir || ends_in_slash dir then dir ++ name else dir ++ 47 ∷ name

pub record SslInit : Type 0 where
  pub ca_dir : Bytes
  pub ca_cert_path : Bytes
  pub ca_key_path : Bytes
  pub ca_cert : Option Obj
  pub ca_key : Option Obj
  pub initialized : Bool

abbrev pub new_ssl_init : SslInit
new_ssl_init = record {
  ca_dir = [];
  ca_cert_path = [];
  ca_key_path = [];
  ca_cert = none;
  ca_key = none;
  initialized = false;
}

-- What OpenSSL and the file system answer during a call of `initialize`.
pub record InitAnswers : Type 0 where
  pub init_ok : Bool
  pub dir_exists : Option Bool
  pub dir_created : Option Bool
  pub cert_exists : Option Bool
  pub key_exists : Option Bool
  pub rsa_ok : Bool
  pub x509_ok : Bool
  pub ext_ok : Nid → Bool
  pub filled : Filled
  pub sign_ok : Bool
  pub key_file_ok : Bool
  pub cert_file_ok : Bool
  pub key_parsed : Bool
  pub cert_parsed : Bool
  pub keys_match : Bool
  pub key_written : Bool
  pub cert_written : Bool
  pub digest_bytes : Option Bytes

pub data Result : Type 0 where
  returned : Bool → Result
  threw : Result

-- `~SslInit`
unfoldable pub free_ssl_init : SslInit → List Call
free_ssl_init s =
    (elim s.ca_cert [ none ↦ [] | some c ↦ x509_free c ∷ [] ])
    ++ (elim s.ca_key [ none ↦ [] | some k ↦ pkey_free k ∷ [] ])

unfoldable pub ensure_ca_directory : InitAnswers → Bool
ensure_ca_directory os = elim os.dir_exists [
  | none ↦ false
  | some there ↦
      if not there then (elim os.dir_created [ none ↦ false | some created ↦ created ]) else true
]

-- the certificate that `generateRootCA` fills in, up to its signature
unfoldable pub root_fields : InitAnswers → List Call
root_fields os =
    let done = os.filled in
    set_version ca_cert_obj 2 done.version_ok
    ∷ set_serial ca_cert_obj 1 done.serial_ok
    ∷ adj_not_before ca_cert_obj (pos 0) done.not_before_ok
    ∷ adj_not_after ca_cert_obj (pos (10 * 365 * 24 * 60 * 60)) done.not_after_ok
    ∷ set_pubkey ca_cert_obj ca_key_obj done.pubkey_ok
    ∷ add_name ca_cert_obj (codes "C") (codes "XX") (done.name_ok (codes "C"))
    ∷ add_name ca_cert_obj (codes "ST") (codes "BurpTUI") (done.name_ok (codes "ST"))
    ∷ add_name ca_cert_obj (codes "L") (codes "Proxy") (done.name_ok (codes "L"))
    ∷ add_name ca_cert_obj (codes "O") (codes "BurpTUI") (done.name_ok (codes "O"))
    ∷ add_name ca_cert_obj (codes "CN") (codes "BurpTUI Root CA") (done.name_ok (codes "CN"))
    ∷ set_issuer ca_cert_obj ca_cert_obj done.issuer_ok
    ∷ []

unfoldable pub root_exts : InitAnswers → List Call
root_exts os =
    ext_calls ca_cert_obj ca_cert_obj basic_constraints (codes "critical,CA:TRUE")
      (os.ext_ok basic_constraints) (os.filled.added basic_constraints)
    ++ ext_calls ca_cert_obj ca_cert_obj key_usage (codes "critical,keyCertSign,cRLSign")
        (os.ext_ok key_usage) (os.filled.added key_usage)
    ++ ext_calls ca_cert_obj ca_cert_obj subject_key_identifier (codes "hash")
        (os.ext_ok subject_key_identifier) (os.filled.added subject_key_identifier)

abbrev give_up : SslInit → List Call × (Bool × SslInit)
give_up s = (x509_free ca_cert_obj ∷ pkey_free ca_key_obj ∷ [], (false, s))

-- the two files, from `BIO_new_file(keyPath, "w")` on
unfoldable pub save_root_ca : InitAnswers → Bytes → Bytes → SslInit → List Call × (Bool × SslInit)
save_root_ca os cert_path key_path s =
    let open_key = bio_new_file key_path (codes "w") (made os.key_file_ok key_bio) ∷ [] in
    let open_cert = bio_new_file cert_path (codes "w") (made os.cert_file_ok cert_bio) ∷ [] in
    let write_key_file = write_key key_bio ca_key_obj os.key_written ∷ bio_free key_bio ∷ [] in
    let write_cert_file =
      write_cert cert_bio ca_cert_obj os.cert_written ∷ bio_free cert_bio ∷ [] in
    let kept = record s { ca_cert = some ca_cert_obj; ca_key = some ca_key_obj } in
    after open_key (
      if os.key_file_ok
      then after (write_key_file ++ open_cert) (
          if os.cert_file_ok
          then (write_cert_file ++ digest ca_cert_obj os.digest_bytes ∷ [], (true, kept))
          else give_up s)
      else give_up s)

-- `generateRootCA`
unfoldable pub generate_root_ca :
    InitAnswers → Bytes → Bytes → SslInit → List Call × (Bool × SslInit)
generate_root_ca os cert_path key_path s = after (rsa_gen (made os.rsa_ok ca_key_obj) ∷ []) (
    if os.rsa_ok
    then after (x509_new (made os.x509_ok ca_cert_obj) ∷ []) (
        if os.x509_ok
        then after (root_fields os ++ (root_exts os ++ sign ca_cert_obj ca_key_obj os.sign_ok ∷ []))
            (if os.sign_ok then save_root_ca os cert_path key_path s else give_up s)
        else (pkey_free ca_key_obj ∷ [], (false, s)))
    else ([], (false, s)))

-- `loadRootCA`, once the certificate is read: the key
unfoldable pub load_ca_key : InitAnswers → Bytes → SslInit → List Call × (Bool × SslInit)
load_ca_key os key_path s =
    let no_cert = record s { ca_cert = none } in
    let neither = record s { ca_cert = none; ca_key = none } in
    let with_key = record s { ca_key = some ca_key_obj } in
    let free_both = x509_free ca_cert_obj ∷ pkey_free ca_key_obj ∷ [] in
    after (bio_new_file key_path (codes "r") (made os.key_file_ok key_bio) ∷ []) (
      if os.key_file_ok
      then after (read_key key_bio (made os.key_parsed ca_key_obj) ∷ bio_free key_bio ∷ []) (
          if os.key_parsed
          then after (check_private_key ca_cert_obj ca_key_obj os.keys_match ∷ [])
              (if os.keys_match then ([], (true, with_key)) else (free_both, (false, neither)))
          else (x509_free ca_cert_obj ∷ [], (false, neither)))
      else (x509_free ca_cert_obj ∷ [], (false, no_cert)))

-- `loadRootCA`
unfoldable pub load_root_ca : InitAnswers → Bytes → Bytes → SslInit → List Call × (Bool × SslInit)
load_root_ca os cert_path key_path s =
    after (bio_new_file cert_path (codes "r") (made os.cert_file_ok cert_bio) ∷ []) (
      if os.cert_file_ok
      then after (read_cert cert_bio (made os.cert_parsed ca_cert_obj) ∷ bio_free cert_bio ∷ []) (
          if os.cert_parsed
          then load_ca_key os key_path (record s { ca_cert = some ca_cert_obj })
          else ([], (false, record s { ca_cert = none })))
      else ([], (false, s)))

-- `fs::exists(caCertPath_) && fs::exists(caKeyPath_)`
abbrev pub files_exist : InitAnswers → Option Bool
files_exist os = elim os.cert_exists [
  | none ↦ none
  | some there ↦ if there then os.key_exists else some false
]

abbrev pub finish : List Call × (Bool × SslInit) → List Call × (Result × SslInit)
finish (cs, (true, s)) = (cs, (returned true, record s { initialized = true }))
finish (cs, (false, s)) = (cs, (returned false, s))

-- to load or to generate; `none` is the exception of `fs::exists`
unfoldable pub open_files : InitAnswers → Option Bool → SslInit → List Call × (Result × SslInit)
open_files os none s = ([], (threw, s))
open_files os (some true) s = finish (load_root_ca os s.ca_cert_path s.ca_key_path s)
open_files os (some false) s = finish (generate_root_ca os s.ca_cert_path s.ca_key_path s)

unfoldable pub open_ca : InitAnswers → SslInit → List Call × (Result × SslInit)
open_ca os s =
    if ensure_ca_directory os then open_files os (files_exist os) s else ([], (returned false, s))

-- `initialize`
unfoldable pub initialize : InitAnswers → Bytes → SslInit → List Call × (Result × SslInit)
initialize os dir s =
    let named = record s {
      ca_dir = dir;
      ca_cert_path = path_join dir (codes "ca.crt");
      ca_key_path = path_join dir (codes "ca.key");
    } in
    if s.initialized
    then ([], (returned true, s))
    else after (init_ssl os.init_ok ∷ [])
        (if os.init_ok then open_ca os named else ([], (returned false, named)))
