-- ===== src/Proxy/Certs/Minted/Search.antt =====
-- The search for the authority writes nothing of a leaf certificate.
use burp_tui.Prelude.{
  Bool, true, false, not, Option, none, some, List, [], ◌++◌, ◌≡◌, ◌||◌, ◌&&◌, is_some, refl, ap,
  ◌∙◌, is_empty, if◌then◌else◌,
}
use burp_tui.Proxy.Certs.{Obj, Call}
use burp_tui.Proxy.Certs.SslInit.{SslInit}
use burp_tui.Proxy.Certs.Generator.{
  Generator, MintAnswers, find_ca, load_local, load_local_cert, load_local_key,
}
use burp_tui.Proxy.Certs.Fields.{blank_press, press, press_all, press_all-append}

abbrev pub NothingWritten : List Call → Type 0
NothingWritten cs = press_all cs blank_press ≡ blank_press

pub NothingWritten-append :
    (cs ds : List Call) → NothingWritten cs → NothingWritten ds → NothingWritten (cs ++ ds)
NothingWritten-append cs ds h k = press_all-append cs ds blank_press ∙ ap (press_all ds) h ∙ k

local_cert_lem :
    (x y : Bool) (c : Option Obj) (os : MintAnswers) (g : Generator)
    → NothingWritten
        (load_local_cert
          (record os { cert_file_ok = x; cert_parsed = y })
          (record g { local_cert = c })).0
unfolding load_local_cert press press_all
local_cert_lem x y (some c) os g = refl
local_cert_lem false y none os g = refl
local_cert_lem true y none os g = refl

local_key_lem :
    (x y : Bool) (k : Option Obj) (os : MintAnswers) (g : Generator)
    → NothingWritten
        (load_local_key
          (record os { key_file_ok = x; key_parsed = y })
          (record g { local_key = k })).0
unfolding load_local_key press press_all
local_key_lem x y (some k) os g = refl
local_key_lem false y none os g = refl
local_key_lem true y none os g = refl

if_lem : {A : Type 0} (P : A → Type 0) (b : Bool) {x y : A} → P x → P y → P (if b then x else y)
if_lem P true h k = h
if_lem P false h k = k

-- A search for the authority that writes nothing.
pub record IsQuiet (r : List Call × ((Option Obj × Option Obj) × Generator)) : Type 0 where
  pub kept : NothingWritten r.0

load_local_lem : (os : MintAnswers) (g : Generator) → IsQuiet (load_local os g)
unfolding load_local
load_local_lem os g =
    let c = load_local_cert os g in
    let k = load_local_key os c.1 in
    record {
      kept =
          NothingWritten-append c.0 k.0
            (local_cert_lem os.cert_file_ok os.cert_parsed g.local_cert os g)
            (local_key_lem os.key_file_ok os.key_parsed (c.1).local_key os c.1);
    }

pub find_ca_lem : (os : MintAnswers) (ssl : SslInit) (g : Generator) → IsQuiet (find_ca os ssl g)
unfolding find_ca press_all
find_ca_lem os ssl g =
    if_lem IsQuiet
      ((not (is_some (if ssl.initialized then ssl.ca_cert else none))
          || not (is_some (if ssl.initialized then ssl.ca_key else none)))
        && (not (is_empty g.cert_path) && not (is_empty g.key_path)))
      {y = (
        [],
        (
          (
            if ssl.initialized then ssl.ca_cert else none,
            if ssl.initialized then ssl.ca_key else none,
          ),
          g,
        ),
      )}
      (load_local_lem os g) (record { kept = refl })
