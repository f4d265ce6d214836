-- ===== src/Proxy/Certs/Lifetime/Root.antt =====
-- The calls of `initialize` (src/proxy/SslInit.cpp), in order and balanced.
use burp_tui.Prelude.{
  Bytes, codes, Bool, true, false, Option, none, some, List, [], ◌∷◌, ◌++◌, ◌≡◌, refl, sym,
  if◌then◌else◌,
}
use mathlib.Core.Path.{subst}
use burp_tui.Proxy.Certs.{
  Nid, basic_constraints, key_usage, subject_key_identifier, Call, ca_cert_obj, ca_key_obj,
  ext_calls, sign,
}
use burp_tui.Proxy.Certs.SslInit.{
  SslInit, InitAnswers, Result, initialize, load_ca_key, load_root_ca, generate_root_ca,
  save_root_ca, root_fields, root_exts, open_ca, returned, threw, finish, files_exist, open_files,
  ensure_ca_directory, path_join,
}
use burp_tui.Proxy.Certs.Live.{
  Live, none_live, check_from, Runs, chain, next, check_call, is_live, set_live, needs, allocates,
  frees, all_live,
}

-- The root authority as it is before and after it is opened: it has both objects or none.
abbrev pub closed_ca : Bytes → Bytes → Bytes → SslInit
closed_ca dir cert key = record {
  ca_dir = dir;
  ca_cert_path = cert;
  ca_key_path = key;
  ca_cert = none;
  ca_key = none;
  initialized = false;
}

abbrev pub opened_ca : Bytes → Bytes → Bytes → SslInit
opened_ca dir cert key = record {
  ca_dir = dir;
  ca_cert_path = cert;
  ca_key_path = key;
  ca_cert = some ca_cert_obj;
  ca_key = some ca_key_obj;
  initialized = true;
}

abbrev pub ca_is : Bool → Bytes → Bytes → Bytes → SslInit
ca_is true d p k = opened_ca d p k
ca_is false d p k = closed_ca d p k

pub if_lem : {A : Type 0} (P : A → Type 0) (b : Bool) {x y : A} → P x → P y → P (if b then x else y)
if_lem P true h k = h
if_lem P false h k = k

abbrev pub held : Bool → Live
held b = record none_live { ca_cert = b; ca_key = b }

abbrev pub with_local : Bool → Bool → Live → Live
with_local c k l = record l { local_cert = c; local_key = k }

abbrev pub pair_of : Bool → Bytes → Bytes → Bytes → SslInit
pair_of true d p k = record (opened_ca d p k) { initialized = false }
pair_of false d p k = closed_ca d p k

-- The calls end well, and the authority holds both objects just when the result says so.
abbrev LoadsSafely : Live → Bytes → Bytes → Bytes → List Call × (Bool × SslInit) → Type 0
LoadsSafely l d p k r =
    (ok : Bool) × (r.1 ≡ (ok, pair_of ok d p k))
    × (Runs r.0 l (record l { ca_cert = ok; ca_key = ok }))

-- whether the call returned `true`
abbrev pub answer_of : Result → Bool
answer_of (returned b) = b
answer_of threw = false

module _ (lc lk : Bool) where
  abbrev pub base : Bool → Live
  base b = with_local lc lk (held b)

  abbrev growing : Live
  growing = base true

  -- What a call of `initialize` leaves.
  abbrev pub StaysSafe : Bool → List Call × (Result × SslInit) → Type 0
  StaysSafe was r =
      (d : Bytes) × (p : Bytes) × (k : Bytes) × (ok : Bool) × ((r.1).1 ≡ ca_is ok d p k)
      × (answer_of (r.1).0 ≡ ok)
      × Runs r.0 (base was) (base ok)

  module _ (d p k : Bytes) where
    load_key_lem :
        (a b c : Bool) (os : InitAnswers)
        → LoadsSafely
            (record (base false) { ca_cert = true })
            d
            p
            k
            (load_ca_key
              (record os { key_file_ok = a; key_parsed = b; keys_match = c })
              k
              (record (closed_ca d p k) { ca_cert = some ca_cert_obj }))
    unfolding load_ca_key check_from check_call is_live set_live needs allocates frees all_live
    load_key_lem false b c os = (false, refl, record { end = refl })
    load_key_lem true false c os = (false, refl, record { end = refl })
    load_key_lem true true false os = (false, refl, record { end = refl })
    load_key_lem true true true os = (true, refl, record { end = refl })

    load_lem :
        (a b : Bool) (os : InitAnswers)
        → LoadsSafely
            (base false)
            d
            p
            k
            (load_root_ca (record os { cert_file_ok = a; cert_parsed = b }) p k (closed_ca d p k))
    unfolding load_root_ca load_ca_key check_from check_call is_live set_live needs allocates frees
        all_live
    load_lem false b os = (false, refl, record { end = refl })
    load_lem true false os = (false, refl, record { end = refl })
    load_lem true true os =
        let r = load_key_lem os.key_file_ok os.key_parsed os.keys_match os in
        (r.0, r.1, next refl (next refl (next refl r.2)))

    ext_lem :
        (nid : Nid) (value : Bytes) (ok added : Bool)
        → Runs (ext_calls ca_cert_obj ca_cert_obj nid value ok added) growing growing
    unfolding ext_calls check_from check_call is_live set_live needs allocates frees all_live
    ext_lem nid value true added = record { end = refl }
    ext_lem nid value false added = record { end = refl }

    save_lem :
        (a b : Bool) (os : InitAnswers)
        → LoadsSafely growing d p k
            (save_root_ca (record os { key_file_ok = a; cert_file_ok = b }) p k (closed_ca d p k))
    unfolding save_root_ca check_from check_call is_live set_live needs allocates frees all_live
    save_lem false b os = (false, refl, record { end = refl })
    save_lem true false os = (false, refl, record { end = refl })
    save_lem true true os = (true, refl, record { end = refl })

    fields_lem : (os : InitAnswers) → Runs (root_fields os) growing growing
    unfolding root_fields check_from check_call is_live set_live needs allocates frees all_live
    fields_lem os = record { end = refl }

    exts_lem : (os : InitAnswers) → Runs (root_exts os) growing growing
    unfolding root_exts
    exts_lem os =
        chain
          (chain
            (ext_lem basic_constraints (codes "critical,CA:TRUE") (os.ext_ok basic_constraints)
              (os.filled.added basic_constraints))
            (ext_lem key_usage (codes "critical,keyCertSign,cRLSign") (os.ext_ok key_usage)
              (os.filled.added key_usage)))
          (ext_lem subject_key_identifier (codes "hash") (os.ext_ok subject_key_identifier)
            (os.filled.added subject_key_identifier))

    filled_lem :
        (os : InitAnswers) (ok : Bool)
        → Runs
            (root_fields os ++ (root_exts os ++ sign ca_cert_obj ca_key_obj ok ∷ []))
            growing
            growing
    unfolding check_from check_call is_live set_live needs allocates frees all_live
    filled_lem os ok = chain (fields_lem os) (chain (exts_lem os) record { end = refl })

    root_lem :
        (a b c : Bool) (os : InitAnswers)
        → LoadsSafely (base false) d p k (
            generate_root_ca
              (record os { rsa_ok = a; x509_ok = b; sign_ok = c })
              p
              k
              (closed_ca d p k))
    unfolding generate_root_ca check_from check_call is_live set_live needs allocates frees all_live
    root_lem false b c os = (false, refl, record { end = refl })
    root_lem true false c os = (false, refl, record { end = refl })
    root_lem true true false os = (
      false,
      refl,
      next refl (
          next refl (
            chain (filled_lem (record os { rsa_ok = true; x509_ok = true; sign_ok = false }) false)
              (record { end = refl }))),
    )
    root_lem true true true os =
        let o = record os { rsa_ok = true; x509_ok = true; sign_ok = true } in
        let r = save_lem os.key_file_ok os.cert_file_ok o in
        (r.0, r.1, next refl (next refl (chain (filled_lem o true) r.2)))

    finish_ok :
        (cs : List Call) (ok : Bool)
        → Runs cs (base false) (base ok)
        → StaysSafe false (finish (cs, (ok, pair_of ok d p k)))
    finish_ok cs true h = (d, p, k, true, refl, refl, h)
    finish_ok cs false h = (d, p, k, false, refl, refl, h)

    finish_lem :
        (r : List Call × (Bool × SslInit))
        → LoadsSafely (base false) d p k r
        → StaysSafe false (finish r)
    finish_lem r (ok, e, h) =
        subst (λ v. StaysSafe false (finish (r.0, v))) (sym e) (finish_ok r.0 ok h)

    files_lem :
        (os : InitAnswers) (found : Option Bool)
        → StaysSafe false (open_files os found (closed_ca d p k))
    unfolding open_files check_from
    files_lem os none = (d, p, k, false, refl, refl, record { end = refl })
    files_lem os (some true) = finish_lem _ (load_lem os.cert_file_ok os.cert_parsed os)
    files_lem os (some false) = finish_lem _ (root_lem os.rsa_ok os.x509_ok os.sign_ok os)

    open_lem : (os : InitAnswers) → StaysSafe false (open_ca os (closed_ca d p k))
    unfolding open_ca check_from
    open_lem os =
        if_lem (StaysSafe false) (ensure_ca_directory os) (files_lem os (files_exist os))
          (d, p, k, false, refl, refl, record { end = refl })

  pub initialize_lem :
      (init_ok : Bool) (os : InitAnswers) (dir : Bytes) (was : Bool) (d p k : Bytes)
      → StaysSafe was (initialize (record os { init_ok = init_ok }) dir (ca_is was d p k))
  unfolding initialize check_from
  initialize_lem ok os dir true d p k = (d, p, k, true, refl, refl, record { end = refl })
  initialize_lem false os dir false d p k = (dir, _, _, false, refl, refl, record { end = refl })
  initialize_lem true os dir false d p k =
      let (d', p', k', ok, e, v, h) =
        open_lem dir (path_join dir (codes "ca.crt")) (path_join dir (codes "ca.key"))
          (record os { init_ok = true }) in
      (d', p', k', ok, e, v, next refl h)
