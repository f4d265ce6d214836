-- ===== src/Proxy/Certs/Minted.antt =====
-- What `generate` mints.
use burp_tui.Prelude.{
  ℕ, ℤ, pos, negsuc, ◌*◌, Bytes, codes, Bool, true, false, not, Option, none, some, List, [], ◌∷◌,
  ◌++◌, ◌≡◌, ◌⊎◌, inl, inr, ◌||◌, ◌&&◌, is_some, refl, sym, ap, ◌∙◌, is_empty, if◌then◌else◌,
  Bool-cases, append_assoc, append-nil,
}
use mathlib.Core.Path.{subst}
use burp_tui.Proxy.Certs.{
  Obj, cert_obj, key_obj, Nid, Call, ext_calls, sign, after, rsa_gen, x509_new,
}
use burp_tui.Proxy.Certs.SslInit.{SslInit}
use burp_tui.Proxy.CertCache.{CertKeyPair, is_blank}
use burp_tui.Proxy.Certs.Generator.{
  Generator, MintAnswers, find_ca, serial, leaf_ext_list, leaf_fields, leaf_exts, bytes_of,
  cert_to_pem, key_to_pem, serialize, mint, mint_found, no_pair, generate,
}
use burp_tui.Proxy.Certs.Fields.{
  Fields, no_fields, Press, blank_press, press, press_all, press_all-append,
}
use burp_tui.Proxy.Certs.Minted.Search.{NothingWritten, NothingWritten-append, find_ca_lem}
use burp_tui.Proxy.Certs.Minted.Drafted.{
  selected, is_added, leaf_of, drafted, exts_press, fields_press,
}
mod Search
mod Drafted

if_or : {A : Type 0} {x : A} (b : Bool) (y : A) → (if b || true then x else y) ≡ x
if_or true y = refl
if_or false y = refl

abbrev pub pair_of : MintAnswers → CertKeyPair
pair_of os = record { cert_pem = bytes_of os.cert_mem; key_pem = bytes_of os.key_mem }

-- No call of OpenSSL whose answer is looked at fails, but for an extension.
abbrev pub goes_well : MintAnswers → Bool
goes_well os =
    os.rsa_ok
    && (os.x509_ok
        && (os.sign_ok
            && (os.cert_bio_ok
                && (os.cert_written
                    && (os.key_bio_ok && (os.key_written && not (is_blank (pair_of os))))))))

module _ (host : Bytes) (ca ca_key : Obj) where
  -- What a call of `mint` may end with.
  abbrev pub IsMinted : MintAnswers → List Call × CertKeyPair → Type 0
  IsMinted os r =
      let end = press_all r.0 blank_press in
      ((goes_well os ≡ false) × (r.1 ≡ no_pair))
      ⊎ ((goes_well os ≡ true)
          × (r.1 ≡ pair_of os)
          × (end.written_cert ≡ some (leaf_of os host ca ca_key))
          × (end.written_key ≡ some key_obj))

  abbrev made_of : MintAnswers → MintAnswers
  made_of os = record os { rsa_ok = true; x509_ok = true; sign_ok = true }

  abbrev signed : MintAnswers → Option (Nid × Bytes) → Press
  signed os last = record (drafted host ca ca_key os last []) { draft = leaf_of os host ca ca_key }

  done_lem :
      (os : MintAnswers) (cs : List Call) (last : Option (Nid × Bytes))
      → let o = record os {
        cert_bio_ok = true;
        cert_written = true;
        key_bio_ok = true;
        key_written = true;
      } in
        press_all cs blank_press ≡ signed os last
        → press_all (cs ++ (serialize o).0) blank_press ≡ record (signed os last) {
          written_cert = some (leaf_of os host ca ca_key);
          written_key = some key_obj;
        }
  unfolding serialize cert_to_pem key_to_pem press press_all
  done_lem os cs last h =
      let o = record os {
        cert_bio_ok = true;
        cert_written = true;
        key_bio_ok = true;
        key_written = true;
      } in
      press_all-append cs (serialize o).0 blank_press ∙ ap (press_all (serialize o).0) h

  made_lem : NothingWritten (rsa_gen (some key_obj) ∷ x509_new (some cert_obj) ∷ [])
  unfolding press press_all
  made_lem = refl

  sealed :
      (os : MintAnswers) (last : Option (Nid × Bytes))
      → press_all
          (sign cert_obj ca_key true ∷ [])
          (drafted host ca ca_key os last (selected (is_added os) (leaf_ext_list host)))
        ≡ signed os last
  unfolding press press_all
  sealed os last = refl

  written_lem :
      (os : MintAnswers) (cs : List Call) (last : Option (Nid × Bytes)) (b : Bool)
      → let o = record (made_of os) {
        cert_bio_ok = true;
        cert_written = true;
        key_bio_ok = true;
        key_written = true;
      } in
        press_all cs blank_press ≡ signed os last
        → is_blank (pair_of os) ≡ b
        → IsMinted o (cs ++ (serialize o).0, if b then no_pair else pair_of os)
  written_lem os cs last true h e = inl (ap not e, refl)
  written_lem os cs last false h e =
      let d = done_lem (made_of os) cs last h in
      inr (ap not e, refl, ap (λ t. t.written_cert) d, ap (λ t. t.written_key) d)

  serialize_lem :
      (x y z w : Bool) (os : MintAnswers) (cs : List Call) (last : Option (Nid × Bytes))
      → let o = record (made_of os) {
        cert_bio_ok = x;
        cert_written = y;
        key_bio_ok = z;
        key_written = w;
      } in
        press_all cs blank_press ≡ signed os last → IsMinted o (after cs (serialize o))
  unfolding serialize cert_to_pem key_to_pem
  serialize_lem false y z w os cs last h = inl (refl, refl)
  serialize_lem true false z w os cs last h = inl (refl, refl)
  serialize_lem true true false w os cs last h =
      inl (refl, if_or (is_empty (bytes_of os.cert_mem)) _)
  serialize_lem true true true false os cs last h =
      inl (refl, if_or (is_empty (bytes_of os.cert_mem)) _)
  serialize_lem true true true true os cs last h = written_lem os cs last _ h refl

  filled_lem :
      (os : MintAnswers) (cs : List Call)
      → press_all cs blank_press ≡ blank_press
      → let filled =
          leaf_fields os host ca
          ++ (leaf_exts os ca (leaf_ext_list host) ++ sign cert_obj ca_key true ∷ []) in
        (last : Option (Nid × Bytes)) × (press_all (cs ++ filled) blank_press ≡ signed os last)
  filled_lem os cs h =
      let (last, e) = exts_press host ca ca_key os (leaf_ext_list host) [] none in
      let exts = leaf_exts os ca (leaf_ext_list host) in
      let seal = sign cert_obj ca_key true ∷ [] in
      (
        last,
        press_all-append cs (leaf_fields os host ca ++ (exts ++ seal)) blank_press
            ∙ (ap (press_all (leaf_fields os host ca ++ (exts ++ seal))) h
                ∙ (press_all-append (leaf_fields os host ca) (exts ++ seal) blank_press
                    ∙ (ap (press_all (exts ++ seal)) (fields_press host ca ca_key os)
                        ∙ (press_all-append exts seal (drafted host ca ca_key os none [])
                            ∙ (ap (press_all seal) e ∙ sealed os last))))),
      )

  mint_lem :
      (x y z : Bool) (os : MintAnswers) (cs : List Call)
      → NothingWritten cs
      → let o = record os { rsa_ok = x; x509_ok = y; sign_ok = z } in
        IsMinted o (after cs (mint o host ca ca_key))
  unfolding mint
  mint_lem false y z os cs h = inl (refl, refl)
  mint_lem true false z os cs h = inl (refl, refl)
  mint_lem true true false os cs h = inl (refl, refl)
  mint_lem true true true os cs h =
      let o = made_of os in
      let pre = rsa_gen (some key_obj) ∷ x509_new (some cert_obj) ∷ [] in
      let filled =
        leaf_fields o host ca
        ++ (leaf_exts o ca (leaf_ext_list host) ++ sign cert_obj ca_key true ∷ []) in
      let rest = (serialize o).0 in
      let (last, e) = filled_lem o (cs ++ pre) (NothingWritten-append cs pre h made_lem) in
      subst (λ calls. IsMinted o (calls, (serialize o).1))
        (append_assoc (cs ++ pre) filled rest ∙ append_assoc cs pre (filled ++ rest))
        (serialize_lem o.cert_bio_ok o.cert_written o.key_bio_ok o.key_written o
          ((cs ++ pre) ++ filled) last e)

module _ (os : MintAnswers) (host : Bytes) where
  -- The authority's certificate or key is missing; or both are there, and a leaf is minted or not.
  abbrev pub MintsWith : Option Obj → Option Obj → List Call × CertKeyPair → Type 0
  MintsWith c k r =
      ((is_some c && is_some k ≡ false) × (r.1 ≡ no_pair))
      ⊎ ((ca : Obj) × (ca_key : Obj) × (c ≡ some ca)
          × (k ≡ some ca_key)
          × IsMinted host ca ca_key os r)

  mint_found_lem :
      (cs : List Call) (c k : Option Obj)
      → NothingWritten cs
      → MintsWith c k (after cs (mint_found os host c k))
  unfolding mint_found
  mint_found_lem cs none k h = inl (refl, refl)
  mint_found_lem cs (some ca) none h = inl (refl, refl)
  mint_found_lem cs (some ca) (some ca_key) h =
      inr (ca, ca_key, refl, refl, mint_lem host ca ca_key os.rsa_ok os.x509_ok os.sign_ok os cs h)

pub generate_lem :
    (os : MintAnswers) (ssl : SslInit) (host : Bytes) (g : Generator)
    → let found = ((find_ca os ssl g).1).0 in
      let r = generate os ssl host g in
      ((is_empty host ≡ true) × ((r.1).0 ≡ no_pair))
      ⊎ ((is_empty host ≡ false) × MintsWith os host found.0 found.1 (r.0, (r.1).0))
unfolding generate
generate_lem os ssl host g =
    let f = find_ca os ssl g in
    elim (Bool-cases (is_empty host)) [
      | inl h ↦ inl (h, rw h refl)
      | inr h ↦
          inr (
            h,
            rw h (mint_found_lem os host f.0 ((f.1).0).0 ((f.1).0).1 (find_ca_lem os ssl g).kept),
          )
    ]
