-- ===== src/Proxy/Certs/Lifetime/Leaf.antt =====
-- The calls of `generate`, in order and balanced.
use burp_tui.Prelude.{Bytes, Bool, true, false, List, [], ◌∷◌, refl, if◌then◌else◌}
use burp_tui.Proxy.Certs.{
  Obj, Nid, ca_cert_obj, ca_key_obj, local_cert_obj, local_key_obj, cert_obj, key_obj, ext_calls,
  sign, x509_free, pkey_free,
}
use burp_tui.Proxy.Certs.Generator.{
  MintAnswers, leaf_fields, leaf_exts, cert_to_pem, key_to_pem, no_pair, serialize, mint,
}
use burp_tui.Proxy.Certs.Live.{
  Live, none_live, check_from, Runs, chain, next, check_call, is_live, set_live, needs, allocates,
  frees, all_live,
}

-- The certificate and the key that sign: those of `SslInit`, or the generator's own.
abbrev pub ca_of : Bool → Obj
ca_of true = ca_cert_obj
ca_of false = local_cert_obj

abbrev pub key_of : Bool → Obj
key_of true = ca_key_obj
key_of false = local_key_obj

-- Those that sign are allocated; of the other two, what `a` and `b` say.
abbrev pub signing : Bool → Bool → Bool → Live
signing own a b = record none_live {
  ca_cert = if own then true else a;
  ca_key = if own then true else b;
  local_cert = if own then a else true;
  local_key = if own then b else true;
}

module _ (a b : Bool) where
  abbrev pub leaf : Bool → Live
  leaf own = record (signing own a b) { cert = true; key = true }

  ext_lem :
      (own : Bool) (nid : Nid) (value : Bytes) (ok added : Bool)
      → Runs (ext_calls (ca_of own) cert_obj nid value ok added) (leaf own) (leaf own)
  unfolding ext_calls check_from check_call is_live set_live needs allocates frees all_live
  ext_lem true nid value true added = record { end = refl }
  ext_lem true nid value false added = record { end = refl }
  ext_lem false nid value true added = record { end = refl }
  ext_lem false nid value false added = record { end = refl }

  exts_lem :
      (own : Bool) (os : MintAnswers) (es : List (Nid × Bytes))
      → Runs (leaf_exts os (ca_of own) es) (leaf own) (leaf own)
  unfolding leaf_exts check_from
  exts_lem own os [] = record { end = refl }
  exts_lem own os ((nid, value) ∷ es) =
      chain (ext_lem own nid value (os.ext_ok nid) (os.filled.added nid)) (exts_lem own os es)

  fields_lem :
      (own : Bool) (os : MintAnswers) (host : Bytes)
      → Runs (leaf_fields os host (ca_of own)) (leaf own) (leaf own)
  unfolding leaf_fields check_from check_call is_live set_live needs allocates frees all_live
  fields_lem true os host = record { end = refl }
  fields_lem false os host = record { end = refl }

  sign_lem : (own ok : Bool) → Runs (sign cert_obj (key_of own) ok ∷ []) (leaf own) (leaf own)
  unfolding check_from check_call is_live set_live needs allocates frees all_live
  sign_lem true ok = record { end = refl }
  sign_lem false ok = record { end = refl }

  cert_pem_lem :
      (own x y : Bool) (os : MintAnswers)
      → Runs (cert_to_pem (record os { cert_bio_ok = x; cert_written = y })).0 (leaf own) (leaf own)
  unfolding cert_to_pem check_from check_call is_live set_live needs allocates frees all_live
  cert_pem_lem own false y os = record { end = refl }
  cert_pem_lem own true false os = record { end = refl }
  cert_pem_lem own true true os = record { end = refl }

  key_pem_lem :
      (own x y : Bool) (os : MintAnswers)
      → Runs (key_to_pem (record os { key_bio_ok = x; key_written = y })).0 (leaf own) (leaf own)
  unfolding key_to_pem check_from check_call is_live set_live needs allocates frees all_live
  key_pem_lem own false y os = record { end = refl }
  key_pem_lem own true false os = record { end = refl }
  key_pem_lem own true true os = record { end = refl }

  free_lem :
      (own : Bool) → Runs (x509_free cert_obj ∷ pkey_free key_obj ∷ []) (leaf own) (signing own a b)
  unfolding check_from check_call is_live set_live needs allocates frees all_live
  free_lem own = record { end = refl }

  serialize_lem :
      (own : Bool) (os : MintAnswers) → Runs (serialize os).0 (leaf own) (signing own a b)
  unfolding serialize
  serialize_lem own os =
      chain (cert_pem_lem own os.cert_bio_ok os.cert_written os)
        (chain (key_pem_lem own os.key_bio_ok os.key_written os) (free_lem own))

  pub mint_lem :
      (own x y z : Bool) (os : MintAnswers) (host : Bytes)
      → Runs
          (mint
            (record os { rsa_ok = x; x509_ok = y; sign_ok = z })
            host
            (ca_of own)
            (key_of own)).0
          (signing own a b)
          (signing own a b)
  unfolding mint check_from check_call is_live set_live needs allocates frees all_live
  mint_lem own false y z os host = record { end = refl }
  mint_lem own true false z os host = record { end = refl }
  mint_lem own true true z os host =
      let o = record os { rsa_ok = true; x509_ok = true; sign_ok = z } in
      next refl (
        next refl (
          chain (chain (fields_lem own o host) (chain (exts_lem own o _) (sign_lem own z)))
            (rest own z os host)))
    where
      rest :
          (own z : Bool) (os : MintAnswers) (host : Bytes)
          → Runs
              (if z
                then serialize (record os { rsa_ok = true; x509_ok = true; sign_ok = z })
                else (x509_free cert_obj ∷ pkey_free key_obj ∷ [], no_pair)).0
              (leaf own)
              (signing own a b)
      rest own true os host =
          serialize_lem own (record os { rsa_ok = true; x509_ok = true; sign_ok = true })
      rest own false os host = free_lem own
