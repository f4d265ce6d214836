-- ===== src/Proxy/Certs/Tests.antt =====
-- The certificate code, run, and its theorems applied.
use burp_tui.Prelude.{codes, true, false, none, some, List, [], ◌∷◌, ◌++◌, ◌≡◌, refl}
use burp_tui.Proxy.Certs.{Filled, ca_cert_obj, ca_key_obj}
use burp_tui.Proxy.Certs.SslInit.{
  SslInit, InitAnswers, returned, threw, new_ssl_init, initialize, path_join, ends_in_slash,
  open_ca, open_files, ensure_ca_directory, load_root_ca, load_ca_key, generate_root_ca,
  save_root_ca,
}
use burp_tui.Proxy.Certs.Generator.{
  MintAnswers, new_generator, generate, find_ca, mint_found, mint, serialize, cert_to_pem,
  key_to_pem,
}
use burp_tui.Proxy.Certs.Live.{check_from, none_live}
use burp_tui.Proxy.Certs.Lifetime.{
  Action, initializing, generating, run, free_all, lifetime_balanced,
}

-- Every call succeeds.
abbrev all_set : Filled
all_set = record {
  version_ok = true;
  serial_ok = true;
  not_before_ok = true;
  not_after_ok = true;
  pubkey_ok = true;
  name_ok = λ field. true;
  issuer_ok = true;
  added = λ nid. true;
}

abbrev all_fine : InitAnswers
all_fine = record {
  init_ok = true;
  dir_exists = some false;
  dir_created = some true;
  cert_exists = some false;
  key_exists = some false;
  rsa_ok = true;
  x509_ok = true;
  ext_ok = λ nid. true;
  filled = all_set;
  sign_ok = true;
  key_file_ok = true;
  cert_file_ok = true;
  key_parsed = true;
  cert_parsed = true;
  keys_match = true;
  key_written = true;
  cert_written = true;
  digest_bytes = none;
}

-- The certificate's file cannot be opened for writing.
abbrev no_cert_file : InitAnswers
no_cert_file = record all_fine { cert_file_ok = false }

-- Both files exist, and do not match.
abbrev mismatch : InitAnswers
mismatch = record all_fine {
  dir_exists = some true;
  cert_exists = some true;
  key_exists = some true;
  keys_match = false;
}

abbrev minting : MintAnswers
minting = record {
  cert_file_ok = true;
  cert_parsed = true;
  key_file_ok = true;
  key_parsed = true;
  rsa_ok = true;
  x509_ok = true;
  random = some 7;
  host_hash = 0;
  ext_ok = λ nid. true;
  filled = all_set;
  sign_ok = true;
  cert_bio_ok = true;
  cert_written = true;
  cert_mem = some (codes "CERT");
  key_bio_ok = true;
  key_written = true;
  key_mem = some (codes "KEY");
}

path_of_ca : path_join (codes "./ca") (codes "ca.crt") ≡ codes "./ca/ca.crt"
unfolding path_join ends_in_slash
path_of_ca = refl

results_of_initialize :
    (((initialize all_fine (codes "ca") new_ssl_init).1).0 ≡ returned true)
    × (((initialize no_cert_file (codes "ca") new_ssl_init).1).0 ≡ returned false)
    × (((initialize mismatch (codes "ca") new_ssl_init).1).0 ≡ returned false)
    × (((initialize (record all_fine { cert_exists = none }) (codes "ca") new_ssl_init).1).0
        ≡ threw)
unfolding initialize open_ca open_files ensure_ca_directory load_root_ca load_ca_key
    generate_root_ca save_root_ca
results_of_initialize = (refl, refl, refl, refl)

abbrev opened : SslInit
opened = record new_ssl_init {
  ca_cert = some ca_cert_obj;
  ca_key = some ca_key_obj;
  initialized = true;
}

minted_pair :
    ((generate minting opened (codes "a.example") (new_generator [] [])).1).0
    ≡ record { cert_pem = codes "CERT"; key_pem = codes "KEY" }
unfolding generate find_ca mint_found mint serialize cert_to_pem key_to_pem
minted_pair = refl

abbrev some_history : List Action
some_history =
    initializing mismatch (codes "ca")
    ∷ generating minting (codes "a.example")
    ∷ initializing all_fine (codes "ca")
    ∷ generating (record minting { sign_ok = false }) (codes "b.example")
    ∷ generating minting (codes "b.example")
    ∷ []

lifetime_balanced_example :
    let r =
      run some_history
        (record { ssl = new_ssl_init; gen = new_generator (codes "k") (codes "c") }) in
    check_from (r.0 ++ free_all r.1) (some none_live) ≡ some none_live
lifetime_balanced_example = lifetime_balanced (codes "k") (codes "c") some_history
