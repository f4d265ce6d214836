-- ===== src/Proxy/Certs/Fields.antt =====
-- What the leaf certificate holds, read off the calls that fill it in.
use burp_tui.Prelude.{
  ℕ, ℤ, Bytes, true, if◌then◌else◌, Option, none, some, List, [], ◌∷◌, ◌++◌, ◌≡◌, refl,
}
use burp_tui.Proxy.Certs.{
  Obj, cert_obj, Nid, Call, x509_new, set_version, set_serial, adj_not_before, adj_not_after,
  set_pubkey, add_name, set_issuer, ext_conf, add_ext, sign, write_cert, write_key,
}

-- A field that is `none` is as `X509_new` leaves it.
pub record Fields : Type 0 where
  pub version : Option ℕ
  pub serial_number : Option ℕ
  pub not_before : Option ℤ
  pub not_after : Option ℤ
  pub public_key : Option Obj
  pub subject : List (Bytes × Bytes)
  pub issuer_of : Option Obj
  pub extensions : List (Nid × Bytes)
  pub signed_with : Option Obj

abbrev pub no_fields : Fields
no_fields = record {
  version = none;
  serial_number = none;
  not_before = none;
  not_after = none;
  public_key = none;
  subject = [];
  issuer_of = none;
  extensions = [];
  signed_with = none;
}

-- The certificate `cert_obj` so far, the extension made last, and what was written into the BIOs:
-- the certificate as it was then, and a private key.
pub record Press : Type 0 where
  pub draft : Fields
  pub extension : Option (Nid × Bytes)
  pub written_cert : Option Fields
  pub written_key : Option Obj

abbrev pub blank_press : Press
blank_press = record {
  draft = no_fields;
  extension = none;
  written_cert = none;
  written_key = none;
}

-- A change of the certificate, also one that fails, voids its signature.
abbrev edit : Fields → Press → Press
edit f t = record t { draft = record f { signed_with = none } }

abbrev attach : Option (Nid × Bytes) → Press → Press
attach none t = t
attach (some e) t = edit (record t.draft { extensions = t.draft.extensions ++ e ∷ [] }) t

unfoldable pub press : Call → Press → Press
press (x509_new (some cert_obj)) t = record t { draft = no_fields }
press (set_version cert_obj n ok) t =
    edit (record t.draft { version = if ok then some n else t.draft.version }) t
press (set_serial cert_obj n ok) t =
    edit (record t.draft { serial_number = if ok then some n else t.draft.serial_number }) t
press (adj_not_before cert_obj n ok) t =
    edit (record t.draft { not_before = if ok then some n else t.draft.not_before }) t
press (adj_not_after cert_obj n ok) t =
    edit (record t.draft { not_after = if ok then some n else t.draft.not_after }) t
press (set_pubkey cert_obj k ok) t =
    edit (record t.draft { public_key = if ok then some k else t.draft.public_key }) t
press (add_name cert_obj field value ok) t =
    edit (record t.draft { subject = t.draft.subject ++ (if ok then (field, value) ∷ [] else []) })
      t
press (set_issuer cert_obj ca ok) t =
    edit (record t.draft { issuer_of = if ok then some ca else t.draft.issuer_of }) t
press (ext_conf ca cert_obj nid value (some e)) t = record t { extension = some (nid, value) }
press (add_ext cert_obj e true) t = attach t.extension t
press (sign cert_obj k true) t = record t { draft = record t.draft { signed_with = some k } }
press (write_cert b cert_obj true) t = record t { written_cert = some t.draft }
press (write_key b k true) t = record t { written_key = some k }
press c t = t

unfoldable pub press_all : List Call → Press → Press
press_all [] t = t
press_all (c ∷ cs) t = press_all cs (press c t)

pub press_all-append :
    (cs ds : List Call) (t : Press) → press_all (cs ++ ds) t ≡ press_all ds (press_all cs t)
unfolding press_all
press_all-append [] ds t = refl
press_all-append (c ∷ cs) ds t = press_all-append cs ds (press c t)
