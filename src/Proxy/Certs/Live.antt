-- ===== src/Proxy/Certs/Live.antt =====
-- The objects of OpenSSL that are allocated: which calls allocate, need and free which of them.
use burp_tui.Prelude.{
  Bool, true, false, Option, none, some, List, [], ◌∷◌, ◌++◌, ◌&&◌, ◌≡◌, refl, if◌then◌else◌, sym,
  ap, ◌∙◌,
}
use burp_tui.Proxy.Certs.{
  Obj, ca_cert_obj, ca_key_obj, local_cert_obj, local_key_obj, cert_obj, key_obj, ext_obj, cert_bio,
  key_bio, Call, init_ssl, rsa_gen, x509_new, set_version, rand_bytes, set_serial, adj_not_before,
  adj_not_after, set_pubkey, add_name, set_issuer, ext_conf, add_ext, ext_free, sign, bio_new,
  bio_new_file, bio_free, read_cert, read_key, write_cert, write_key, mem_ptr, check_private_key,
  digest, x509_free, pkey_free,
}

pub record Live : Type 0 where
  pub ca_cert : Bool
  pub ca_key : Bool
  pub local_cert : Bool
  pub local_key : Bool
  pub cert : Bool
  pub key : Bool
  pub ext : Bool
  pub cert_bio_open : Bool
  pub key_bio_open : Bool

abbrev pub none_live : Live
none_live = record {
  ca_cert = false;
  ca_key = false;
  local_cert = false;
  local_key = false;
  cert = false;
  key = false;
  ext = false;
  cert_bio_open = false;
  key_bio_open = false;
}

unfoldable pub is_live : Obj → Live → Bool
is_live ca_cert_obj l = l.ca_cert
is_live ca_key_obj l = l.ca_key
is_live local_cert_obj l = l.local_cert
is_live local_key_obj l = l.local_key
is_live cert_obj l = l.cert
is_live key_obj l = l.key
is_live ext_obj l = l.ext
is_live cert_bio l = l.cert_bio_open
is_live key_bio l = l.key_bio_open

unfoldable pub set_live : Obj → Bool → Live → Live
set_live ca_cert_obj b l = record l { ca_cert = b }
set_live ca_key_obj b l = record l { ca_key = b }
set_live local_cert_obj b l = record l { local_cert = b }
set_live local_key_obj b l = record l { local_key = b }
set_live cert_obj b l = record l { cert = b }
set_live key_obj b l = record l { key = b }
set_live ext_obj b l = record l { ext = b }
set_live cert_bio b l = record l { cert_bio_open = b }
set_live key_bio b l = record l { key_bio_open = b }

-- the objects that a call is given and does not free
unfoldable pub needs : Call → List Obj
needs (init_ssl ok) = []
needs (rsa_gen o) = []
needs (x509_new o) = []
needs (set_version c n ok) = c ∷ []
needs (rand_bytes n) = []
needs (set_serial c n ok) = c ∷ []
needs (adj_not_before c n ok) = c ∷ []
needs (adj_not_after c n ok) = c ∷ []
needs (set_pubkey c k ok) = c ∷ k ∷ []
needs (add_name c field value ok) = c ∷ []
needs (set_issuer c ca ok) = c ∷ ca ∷ []
needs (ext_conf ca c nid value o) = ca ∷ c ∷ []
needs (add_ext c e ok) = c ∷ e ∷ []
needs (ext_free e) = []
needs (sign c k ok) = c ∷ k ∷ []
needs (bio_new o) = []
needs (bio_new_file path mode o) = []
needs (bio_free b) = []
needs (read_cert b o) = b ∷ []
needs (read_key b o) = b ∷ []
needs (write_cert b c ok) = b ∷ c ∷ []
needs (write_key b k ok) = b ∷ k ∷ []
needs (mem_ptr b bytes) = b ∷ []
needs (check_private_key c k ok) = c ∷ k ∷ []
needs (digest c bytes) = c ∷ []
needs (x509_free c) = []
needs (pkey_free k) = []

-- the object that a call returns, allocated
unfoldable pub allocates : Call → Option Obj
allocates (rsa_gen o) = o
allocates (x509_new o) = o
allocates (ext_conf ca c nid value o) = o
allocates (bio_new o) = o
allocates (bio_new_file path mode o) = o
allocates (read_cert b o) = o
allocates (read_key b o) = o
allocates _ = none

unfoldable pub frees : Call → Option Obj
frees (ext_free e) = some e
frees (bio_free b) = some b
frees (x509_free c) = some c
frees (pkey_free k) = some k
frees _ = none

unfoldable pub all_live : List Obj → Live → Bool
unfolding is_live
all_live [] l = true
all_live (o ∷ os) l = is_live o l && all_live os l

abbrev allocate : Option Obj → Live → Option Live
allocate none l = some l
allocate (some o) l = if is_live o l then none else some (set_live o true l)

abbrev release : Option Obj → Live → Option Live
release none l = some l
release (some o) l = if is_live o l then some (set_live o false l) else none

-- `none`: the call is given an object that is not allocated, frees such a one, or overwrites the
-- pointer to one that still is.
unfoldable pub check_call : Call → Live → Option Live
unfolding is_live set_live needs allocates frees all_live
check_call c l =
    if all_live (needs c) l
    then elim (release (frees c) l) [ none ↦ none | some kept ↦ allocate (allocates c) kept ]
    else none

unfoldable pub check_from : List Call → Option Live → Option Live
unfolding check_call
check_from [] o = o
check_from (c ∷ cs) none = none
check_from (c ∷ cs) (some l) = check_from cs (check_call c l)

check_from-none : (cs : List Call) → check_from cs none ≡ none
unfolding check_from
check_from-none [] = refl
check_from-none (c ∷ cs) = refl

pub check_from-append :
    (cs ds : List Call) (o : Option Live)
    → check_from (cs ++ ds) o ≡ check_from ds (check_from cs o)
unfolding check_from
check_from-append [] ds o = refl
check_from-append (c ∷ cs) ds none = sym (check_from-none ds)
check_from-append (c ∷ cs) ds (some l) = check_from-append cs ds (check_call c l)

-- The calls `cs` are in order where the objects `l` are allocated, and leave `m` allocated.
pub record Runs (cs : List Call) (l m : Live) : Type 0 where
  pub end : check_from cs (some l) ≡ some m

pub chain : {cs ds : List Call} {l m n : Live} → Runs cs l m → Runs ds m n → Runs (cs ++ ds) l n
chain {cs} {ds} {l} h k = record { end = cc (h.end, k.end, check_from-append cs ds (some l)) }

pub next :
    {c : Call} {cs : List Call} {l m n : Live}
    → check_call c l ≡ some m
    → Runs cs m n
    → Runs (c ∷ cs) l n
unfolding check_from
next {c} {cs} {l} {m} {n} h k = record { end = ap (check_from cs) h ∙ k.end }
