-- ===== src/Proxy/Certs/Lifetime.antt =====
-- Over a history of calls, every object of OpenSSL is freed once, and used only before that.
use burp_tui.Prelude.{
  ℕ, Bytes, codes, Bool, true, false, not, Option, none, some, List, [], ◌∷◌, ◌++◌, ◌&&◌, ◌||◌, ◌≡◌,
  ◌∙◌, is_some, refl, sym, ap, is_empty, if◌then◌else◌, Bool-cases, inl, inr,
}
use mathlib.Core.Path.{subst}
use burp_tui.Proxy.Certs.{
  Obj, Call, ca_cert_obj, ca_key_obj, local_cert_obj, local_key_obj, made, after,
}
use burp_tui.Proxy.Certs.SslInit.{
  SslInit, InitAnswers, Result, new_ssl_init, initialize, free_ssl_init,
}
use burp_tui.Proxy.Certs.Generator.{
  Generator, MintAnswers, find_ca, load_local_cert, load_local_key, load_local, mint_found, no_pair,
  generate, free_generator, new_generator,
}
use burp_tui.Proxy.CertCache.{CertKeyPair}
use burp_tui.Proxy.Certs.Live.{
  Live, none_live, check_from, Runs, chain, next, check_call, is_live, set_live, needs, allocates,
  frees, all_live,
}
use burp_tui.Proxy.Certs.Lifetime.Root.{ca_is, answer_of, base, if_lem, initialize_lem}
use burp_tui.Proxy.Certs.Lifetime.Leaf.{ca_of, key_of, signing, mint_lem}
pub mod Root
pub mod Leaf

abbrev gen_is : Bytes → Bytes → Bool → Bool → Generator
gen_is key_path cert_path c k = record {
  key_path = key_path;
  cert_path = cert_path;
  local_cert = made c local_cert_obj;
  local_key = made k local_key_obj;
}

abbrev world : Bool → Bool → Bool → Live
world o c k = base c k o

module _ (kp cp : Bytes) (o : Bool) where
  local_cert_lem :
      (x y : Bool) (os : MintAnswers) (c k : Bool)
      → (c' : Bool) × ((load_local_cert
            (record os { cert_file_ok = x; cert_parsed = y })
            (gen_is kp cp c k)).1
          ≡ gen_is kp cp c' k)
        × Runs
            (load_local_cert (record os { cert_file_ok = x; cert_parsed = y }) (gen_is kp cp c k)).0
            (world o c k)
            (world o c' k)
  unfolding load_local_cert check_from check_call is_live set_live needs allocates frees all_live
  local_cert_lem x y os true k = (true, refl, record { end = refl })
  local_cert_lem false y os false k = (false, refl, record { end = refl })
  local_cert_lem true true os false k = (true, refl, record { end = refl })
  local_cert_lem true false os false k = (false, refl, record { end = refl })

  local_key_lem :
      (x y : Bool) (os : MintAnswers) (c k : Bool)
      → (k' : Bool) × ((load_local_key
            (record os { key_file_ok = x; key_parsed = y })
            (gen_is kp cp c k)).1
          ≡ gen_is kp cp c k')
        × Runs
            (load_local_key (record os { key_file_ok = x; key_parsed = y }) (gen_is kp cp c k)).0
            (world o c k)
            (world o c k')
  unfolding load_local_key check_from check_call is_live set_live needs allocates frees all_live
  local_key_lem x y os c true = (true, refl, record { end = refl })
  local_key_lem false y os c false = (false, refl, record { end = refl })
  local_key_lem true true os c false = (true, refl, record { end = refl })
  local_key_lem true false os c false = (false, refl, record { end = refl })

-- What steps 1 and 2 of `generate` find: the authority's pair, nothing, or the generator's own.
data IsFound (o c k : Bool) : Option Obj × Option Obj → Type 0 where
  theirs : o ≡ true → IsFound o c k (some ca_cert_obj, some ca_key_obj)
  nothing : IsFound o c k (none, none)
  own : IsFound o c k (made c local_cert_obj, made k local_key_obj)

abbrev FindsSafely :
    Bytes
    → Bytes
    → Bool
    → Bool
    → Bool
    → List Call × ((Option Obj × Option Obj) × Generator)
    → Type 0
FindsSafely kp cp o c k r =
    (c' : Bool) × (k' : Bool) × ((r.1).1 ≡ gen_is kp cp c' k')
    × IsFound o c' k' (r.1).0
    × Runs r.0 (world o c k) (world o c' k')

module _ (kp cp : Bytes) (o : Bool) where
  own_lem :
      (os : MintAnswers) (c k : Bool) → FindsSafely kp cp o c k (load_local os (gen_is kp cp c k))
  unfolding load_local
  own_lem os c k =
      let (c', e, h) = local_cert_lem kp cp o os.cert_file_ok os.cert_parsed os c k in
      let (k', f, i) = local_key_lem kp cp o os.key_file_ok os.key_parsed os c' k in
      let second = λ (g : Generator). load_local_key os g in
      subst
        (λ g. FindsSafely kp cp o c k (
          (load_local_cert os (gen_is kp cp c k)).0 ++ (second g).0,
          ((((second g).1).local_cert, ((second g).1).local_key), (second g).1),
        ))
        (sym e)
        (c', k', f, subst (λ g. IsFound o c' k' (g.local_cert, g.local_key)) (sym f) own, chain h i)

find_ca_lem :
    (kp cp : Bytes) (o : Bool) (os : MintAnswers) (d p q : Bytes) (c k : Bool)
    → FindsSafely kp cp o c k (find_ca os (ca_is o d p q) (gen_is kp cp c k))
unfolding find_ca check_from
find_ca_lem kp cp true os d p q c k = (c, k, refl, theirs refl, record { end = refl })
find_ca_lem kp cp false os d p q c k =
    if_lem (FindsSafely kp cp false c k) (not (is_empty cp) && not (is_empty kp))
      (own_lem kp cp false os c k) (c, k, refl, nothing, record { end = refl })

mint_own_lem :
    (o c k : Bool) (os : MintAnswers) (host : Bytes)
    → Runs
        (mint_found os host (made c local_cert_obj) (made k local_key_obj)).0
        (world o c k)
        (world o c k)
unfolding mint_found check_from
mint_own_lem o true true os host = mint_lem o o false os.rsa_ok os.x509_ok os.sign_ok os host
mint_own_lem o true false os host = record { end = refl }
mint_own_lem o false k os host = record { end = refl }

mint_found_lem :
    (o c k : Bool) (os : MintAnswers) (host : Bytes) (r : Option Obj × Option Obj)
    → IsFound o c k r
    → Runs (mint_found os host r.0 r.1).0 (world o c k) (world o c k)
unfolding mint_found check_from
mint_found_lem o c k os host r (theirs e) =
    subst
      (λ b.
        Runs (mint_found os host (some ca_cert_obj) (some ca_key_obj)).0 (world b c k)
          (world b c k))
      (sym e) (mint_lem c k true os.rsa_ok os.x509_ok os.sign_ok os host)
mint_found_lem o c k os host r nothing = record { end = refl }
mint_found_lem o c k os host r own = mint_own_lem o c k os host

abbrev GeneratesSafely :
    Bytes → Bytes → Bool → Bool → Bool → List Call × (CertKeyPair × Generator) → Type 0
GeneratesSafely kp cp o c k r =
    (c' : Bool) × (k' : Bool) × ((r.1).1 ≡ gen_is kp cp c' k')
    × Runs r.0 (world o c k) (world o c' k')

generate_lem :
    (kp cp : Bytes) (o : Bool) (os : MintAnswers) (d p q host : Bytes) (c k : Bool)
    → GeneratesSafely kp cp o c k (generate os (ca_is o d p q) host (gen_is kp cp c k))
unfolding generate check_from
generate_lem kp cp o os d p q host c k =
    let (c', k', e, f, h) = find_ca_lem kp cp o os d p q c k in
    if_lem (GeneratesSafely kp cp o c k) (is_empty host) (c, k, refl, record { end = refl })
      (c', k', e, chain h (mint_found_lem o c' k' os host _ f))

-- A history of the program: the authority is opened, and leaves are made, in any order.
pub record Certs : Type 0 where
  pub ssl : SslInit
  pub gen : Generator

pub data Action : Type 0 where
  initializing : InitAnswers → Bytes → Action
  generating : MintAnswers → Bytes → Action

unfoldable pub act : Action → Certs → List Call × Certs
act (initializing os dir) w = let r = initialize os dir w.ssl in (r.0, record w { ssl = (r.1).1 })
act (generating os host) w =
    let r = generate os w.ssl host w.gen in (r.0, record w { gen = (r.1).1 })

unfoldable pub run : List Action → Certs → List Call × Certs
run [] w = ([], w)
run (a ∷ acts) w = let r = act a w in after r.0 (run acts r.1)

-- the destructors, the generator's first
unfoldable pub free_all : Certs → List Call
free_all w = free_generator w.gen ++ free_ssl_init w.ssl

module _ (kp cp : Bytes) where
  abbrev world_is : Bool → Bytes → Bytes → Bytes → Bool → Bool → Certs
  world_is o d p q c k = record { ssl = ca_is o d p q; gen = gen_is kp cp c k }

  abbrev ActsSafely : Bool → Bool → Bool → List Call × Certs → Type 0
  ActsSafely o c k r =
      (o' : Bool) × (d : Bytes) × (p : Bytes) × (q : Bytes) × (c' : Bool) × (k' : Bool) × (r.1
        ≡ world_is o' d p q c' k')
      × Runs r.0 (world o c k) (world o' c' k')

  act_lem :
      (a : Action) (o : Bool) (d p q : Bytes) (c k : Bool)
      → ActsSafely o c k (act a (world_is o d p q c k))
  unfolding act
  act_lem (initializing os dir) o d p q c k =
      let (d', p', q', o', e, v, h) = initialize_lem c k os.init_ok os dir o d p q in
      (o', d', p', q', c, k, ap (λ s. record { ssl = s; gen = gen_is kp cp c k }) e, h)
  act_lem (generating os host) o d p q c k =
      let (c', k', e, h) = generate_lem kp cp o os d p q host c k in
      (o, d, p, q, c', k', ap (λ g. record { ssl = ca_is o d p q; gen = g }) e, h)

  free_lem :
      (o c k : Bool) (d p q : Bytes)
      → Runs (free_all (world_is o d p q c k)) (world o c k) none_live
  unfolding free_all free_generator free_ssl_init check_from check_call is_live set_live needs
      allocates frees all_live
  free_lem true true true d p q = record { end = refl }
  free_lem true true false d p q = record { end = refl }
  free_lem true false true d p q = record { end = refl }
  free_lem true false false d p q = record { end = refl }
  free_lem false true true d p q = record { end = refl }
  free_lem false true false d p q = record { end = refl }
  free_lem false false true d p q = record { end = refl }
  free_lem false false false d p q = record { end = refl }

  run_lem :
      (acts : List Action) (w : Certs) (o c k : Bool) (d p q : Bytes)
      → w ≡ world_is o d p q c k
      → ActsSafely o c k (run acts w)
  unfolding run check_from
  run_lem [] w o c k d p q e = (o, d, p, q, c, k, e, record { end = refl })
  run_lem (a ∷ acts) w o c k d p q e =
      let (o', d', p', q', c', k', f, h) =
        subst (λ v. ActsSafely o c k (act a v)) (sym e) (act_lem a o d p q c k) in
      let (o1, d1, p1, q1, c1, k1, g, i) = run_lem acts (act a w).1 o' c' k' d' p' q' f in
      (o1, d1, p1, q1, c1, k1, g, chain h i)

ready : (o : Bool) (d p k : Bytes) → (ca_is o d p k).initialized ≡ o
ready true d p k = refl
ready false d p k = refl

has_cert : (o : Bool) (d p k : Bytes) → is_some (ca_is o d p k).ca_cert ≡ o
has_cert true d p k = refl
has_cert false d p k = refl

has_key : (o : Bool) (d p k : Bytes) → is_some (ca_is o d p k).ca_key ≡ o
has_key true d p k = refl
has_key false d p k = refl

-- `initialize` on a new singleton: `true` is returned just when both objects of the authority are
-- there.
pub initialize_new :
    (os : InitAnswers) (dir : Bytes)
    → let r = initialize os dir new_ssl_init in
      (ok : Bool) × (answer_of (r.1).0 ≡ ok)
      × ((r.1).1.initialized ≡ ok)
      × (is_some (r.1).1.ca_cert ≡ ok)
      × (is_some (r.1).1.ca_key ≡ ok)
initialize_new os dir =
    let (d, p, k, ok, e, v, h) = initialize_lem false false os.init_ok os dir false [] [] [] in
    (
      ok,
      v,
      ap (λ s. s.initialized) e ∙ ready ok d p k,
      ap (λ s. is_some s.ca_cert) e ∙ has_cert ok d p k,
      ap (λ s. is_some s.ca_key) e ∙ has_key ok d p k,
    )

-- Whatever OpenSSL and the file system answer: over any calls of `initialize` and `generate`, and the
-- destructors at the end, each call of OpenSSL is given only objects that are allocated, each object
-- is freed once, none is forgotten, and none is left at the end.
pub lifetime_balanced :
    (key_path cert_path : Bytes) (acts : List Action)
    → let r = run acts (record { ssl = new_ssl_init; gen = new_generator key_path cert_path }) in
      check_from (r.0 ++ free_all r.1) (some none_live) ≡ some none_live
lifetime_balanced kp cp acts =
    let (o, d, p, q, c, k, e, h) = run_lem kp cp acts _ false false false [] [] [] refl in
    (chain h (
      subst (λ w. Runs (free_all w) (world o c k) none_live) (sym e)
        (free_lem kp cp o c k d p q))).end
