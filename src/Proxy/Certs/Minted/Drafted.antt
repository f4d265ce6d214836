-- ===== src/Proxy/Certs/Minted/Drafted.antt =====
-- The leaf certificate as it is meant, and what the calls that fill it in make of it.
use burp_tui.Prelude.{
  pos, negsuc, ◌*◌, Bytes, codes, Bool, true, false, Option, none, some, List, [], ◌∷◌, ◌++◌, ◌&&◌,
  ◌≡◌, refl, sym, ap, ◌∙◌, if◌then◌else◌, append_assoc, append-nil,
}
use burp_tui.Proxy.Certs.{Obj, cert_obj, key_obj, Nid, ext_calls}
use burp_tui.Proxy.Certs.Generator.{MintAnswers, serial, leaf_ext_list, leaf_fields, leaf_exts}
use burp_tui.Proxy.Certs.Fields.{Fields, Press, blank_press, press, press_all, press_all-append}

-- The extensions that OpenSSL could make and add.
unfoldable pub selected : (Nid → Bool) → List (Nid × Bytes) → List (Nid × Bytes)
selected ok [] = []
selected ok ((nid, value) ∷ es) = if ok nid then (nid, value) ∷ selected ok es else selected ok es

abbrev pub is_added : MintAnswers → Nid → Bool
is_added os nid = os.ext_ok nid && os.filled.added nid

abbrev unless_failed {ℓ} : {A : Type ℓ} → Bool → A → Option A
unless_failed ok x = if ok then some x else none

abbrev entry : MintAnswers → Bytes → Bytes → List (Bytes × Bytes)
entry os field value = if os.filled.name_ok field then (field, value) ∷ [] else []

-- The leaf certificate as it is meant, for `host` and signed by the authority, but without what
-- OpenSSL could not set.
abbrev pub leaf_of : MintAnswers → Bytes → Obj → Obj → Fields
leaf_of os host ca ca_key = record {
  version = unless_failed os.filled.version_ok 2;
  serial_number = unless_failed os.filled.serial_ok (serial os);
  not_before = unless_failed os.filled.not_before_ok (negsuc 86399);
  not_after = unless_failed os.filled.not_after_ok (pos (365 * 86400));
  public_key = unless_failed os.filled.pubkey_ok key_obj;
  subject = entry os (codes "CN") host ++ entry os (codes "O") (codes "BurpTUI Dynamic CA");
  issuer_of = unless_failed os.filled.issuer_ok ca;
  extensions = selected (is_added os) (leaf_ext_list host);
  signed_with = some ca_key;
}

added_lem :
    {A : Type 0} (b : Bool) (x : A) (xs rest : List A)
    → (if b then xs ++ x ∷ [] else xs) ++ rest ≡ xs ++ (if b then x ∷ rest else rest)
added_lem true x xs rest = append_assoc xs (x ∷ []) rest
added_lem false x xs rest = refl

module _ (host : Bytes) (ca ca_key : Obj) where
  abbrev pub drafted : MintAnswers → Option (Nid × Bytes) → List (Nid × Bytes) → Press
  drafted os last es = record blank_press {
    draft = record (leaf_of os host ca ca_key) { extensions = es; signed_with = none };
    extension = last;
  }

  ext_press :
      (os : MintAnswers) (nid : Nid) (value : Bytes) (ok added : Bool) (es : List (Nid × Bytes))
      (last : Option (Nid × Bytes))
      → (l' : Option (Nid × Bytes)) × (press_all
            (ext_calls ca cert_obj nid value ok added)
            (drafted os last es)
          ≡ drafted os l' (if ok && added then es ++ (nid, value) ∷ [] else es))
  unfolding press press_all ext_calls
  ext_press os nid value true true es last = (some (nid, value), refl)
  ext_press os nid value true false es last = (some (nid, value), refl)
  ext_press os nid value false added es last = (last, refl)

  pub exts_press :
      (os : MintAnswers) (rest es : List (Nid × Bytes)) (last : Option (Nid × Bytes))
      → (l' : Option (Nid × Bytes)) × (press_all (leaf_exts os ca rest) (drafted os last es)
          ≡ drafted os l' (es ++ selected (is_added os) rest))
  unfolding press_all leaf_exts selected
  exts_press os [] es last = (last, ap (drafted os last) (sym (append-nil es)))
  exts_press os ((nid, value) ∷ rest) es last =
      let both = is_added os nid in
      let (l1, e) = ext_press os nid value (os.ext_ok nid) (os.filled.added nid) es last in
      let (l2, f) = exts_press os rest (if both then es ++ (nid, value) ∷ [] else es) l1 in
      let step = press_all (leaf_exts os ca rest) in
      let calls = ext_calls ca cert_obj nid value (os.ext_ok nid) (os.filled.added nid) in
      (
        l2,
        press_all-append calls (leaf_exts os ca rest) (drafted os last es)
            ∙ (ap step e
                ∙ (f
                    ∙ ap (drafted os l2)
                        (added_lem both (nid, value) es (selected (is_added os) rest)))),
      )

  pub fields_press :
      (os : MintAnswers) → press_all (leaf_fields os host ca) blank_press ≡ drafted os none []
  unfolding press_all press leaf_fields
  fields_press os = refl
