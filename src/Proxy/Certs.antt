-- ===== src/Proxy/Certs.antt =====
-- What the certificate code (src/proxy/SslInit.cpp, src/proxy/CertGenerator.cpp) asks of OpenSSL.
--
-- A call of OpenSSL is a `Call` with the objects it is given and, last, what OpenSSL answers: an
-- object (or `none`, a null pointer), a flag or bytes. The answers are arguments of the operations.
-- An operation returns the calls it makes, in order, with its result.
use burp_tui.Prelude.{
  ℕ, ℤ, Bytes, Bool, true, false, Option, none, some, List, [], ◌∷◌, ◌++◌, map, if◌then◌else◌,
}
pub mod SslInit
pub mod Generator
pub mod Live
pub mod Lifetime
pub mod Fields
pub mod Minted
mod Tests

-- The objects that the code holds pointers to, one at a time of each name.
pub data Obj : Type 0 where
  ca_cert_obj : Obj
  ca_key_obj : Obj
  local_cert_obj : Obj
  local_key_obj : Obj
  cert_obj : Obj
  key_obj : Obj
  ext_obj : Obj
  cert_bio : Obj
  key_bio : Obj

pub data Nid : Type 0 where
  basic_constraints : Nid
  key_usage : Nid
  ext_key_usage : Nid
  subject_alt_name : Nid
  subject_key_identifier : Nid
  authority_key_identifier : Nid

pub data Call : Type 0 where
  init_ssl : Bool → Call
  rsa_gen : Option Obj → Call
  x509_new : Option Obj → Call
  set_version : Obj → ℕ → Bool → Call
  rand_bytes : Option ℕ → Call
  set_serial : Obj → ℕ → Bool → Call
  adj_not_before : Obj → ℤ → Bool → Call
  adj_not_after : Obj → ℤ → Bool → Call
  set_pubkey : Obj → Obj → Bool → Call
  add_name : Obj → Bytes → Bytes → Bool → Call
  set_issuer : Obj → Obj → Bool → Call
  ext_conf : Obj → Obj → Nid → Bytes → Option Obj → Call
  add_ext : Obj → Obj → Bool → Call
  ext_free : Obj → Call
  sign : Obj → Obj → Bool → Call
  bio_new : Option Obj → Call
  bio_new_file : Bytes → Bytes → Option Obj → Call
  bio_free : Obj → Call
  read_cert : Obj → Option Obj → Call
  read_key : Obj → Option Obj → Call
  write_cert : Obj → Obj → Bool → Call
  write_key : Obj → Obj → Bool → Call
  mem_ptr : Obj → Option Bytes → Call
  check_private_key : Obj → Obj → Bool → Call
  digest : Obj → Option Bytes → Call
  x509_free : Obj → Call
  pkey_free : Obj → Call

-- The answers that the code does not look at: whether a field of a certificate, an entry of its
-- name and an extension were set in it. A call that fails leaves the certificate as it was.
pub record Filled : Type 0 where
  pub version_ok : Bool
  pub serial_ok : Bool
  pub not_before_ok : Bool
  pub not_after_ok : Bool
  pub pubkey_ok : Bool
  pub name_ok : Bytes → Bool
  pub issuer_ok : Bool
  pub added : Nid → Bool

-- an answer that is a new object, or a null pointer
abbrev pub made : Bool → Obj → Option Obj
made ok o = if ok then some o else none

-- The calls `cs`, and then what follows them.
abbrev pub after {ℓ} : {A : Type ℓ} → List Call → List Call × A → List Call × A
after cs r = (cs ++ r.0, r.1)

-- the lambdas `addExt` and `add_ext`, where the context of the extension has the issuer `ca`
unfoldable pub ext_calls : Obj → Obj → Nid → Bytes → Bool → Bool → List Call
ext_calls ca cert nid value ok added =
    if ok
    then ext_conf ca cert nid value (some ext_obj)
      ∷ add_ext cert ext_obj added
      ∷ ext_free ext_obj
      ∷ []
    else ext_conf ca cert nid value none ∷ []
