-- ===== src/App/Args.antt =====
-- The configuration (src/app/Config.hpp) and the command line (src/main.cpp).
use burp_tui.Prelude.{
  ℕ, ℤ, pos, to_u16, Bytes, codes, bytes_eq, stoi, Bool, true, false, Option, none, some, List, [],
  ◌∷◌, ◌||◌, ◌≡◌, if◌then◌else◌,
}
pub mod Options

pub record Config : Type 0 where
  pub listen_host : Bytes
  pub listen_port : ℕ
  pub db_path : Bytes
  pub ca_dir : Bytes
  pub verbose : Bool
  pub enable_mouse : Bool

abbrev pub default_config : Config
default_config = record {
  listen_host = codes "127.0.0.1";
  listen_port = 8080;
  db_path = codes "burptui.db";
  ca_dir = codes "./ca";
  verbose = false;
  enable_mouse = true;
}

-- What `main` does with its arguments: it goes on, prints its help and returns 0, or throws.
pub data Parsed : Type 0 where
  configured : Config → Parsed
  helped : Parsed
  threw : Parsed

pub data Kind : Type 0 where
  mouse : Kind
  help : Kind
  port : Kind
  host : Kind
  unknown : Kind

unfoldable pub kind_of : Bytes → Kind
kind_of arg =
    if bytes_eq arg (codes "--mouse") || bytes_eq arg (codes "-m")
    then mouse
    else if bytes_eq arg (codes "-h") || bytes_eq arg (codes "--help")
    then help
    else if bytes_eq arg (codes "--port") || bytes_eq arg (codes "-p")
    then port
    else if bytes_eq arg (codes "--host")
    then host
    else unknown

abbrev pub with_mouse : Config → Config
with_mouse cfg = record cfg { enable_mouse = true }

-- `static_cast<std::uint16_t>`
abbrev pub with_port : ℤ → Config → Config
with_port n cfg = record cfg { listen_port = to_u16 n }

-- the last argument: no value can follow it
unfoldable pub parse_last : Kind → Config → Parsed
parse_last mouse cfg = configured (with_mouse cfg)
parse_last help cfg = helped
parse_last port cfg = configured cfg
parse_last host cfg = configured cfg
parse_last unknown cfg = configured cfg

unfoldable pub parse_args : List Bytes → Config → Parsed
unfolding kind_of parse_last
parse_args [] cfg = configured cfg
parse_args (arg ∷ []) cfg = parse_last (kind_of arg) cfg
parse_args (arg ∷ value ∷ rest) cfg = elim (kind_of arg) [
  | mouse ↦ parse_args (value ∷ rest) (with_mouse cfg)
  | help ↦ helped
  | port ↦ elim (stoi value) [ none ↦ threw | some n ↦ parse_args rest (with_port n cfg) ]
  | host ↦ parse_args rest (record cfg { listen_host = value })
  | unknown ↦ parse_args (value ∷ rest) cfg
]
