-- ===== src/App/Args/Options.antt =====
-- The command line as a list of options, and what it configures.
use burp_tui.Prelude.{
  ℤ, Bytes, codes, bytes_eq, stoi, Bool, true, false, Option, none, some, List, [], ◌∷◌, ◌++◌, ◌≡◌,
  refl, ◌∙◌,
}
use burp_tui.App.Args.{
  Config, with_mouse, with_port, Parsed, configured, helped, threw, mouse, help, port, host,
  unknown, kind_of, parse_last, parse_args,
}

pub data Opt : Type 0 where
  mouse_opt : Bool → Opt
  help_opt : Bool → Opt
  port_opt : Bool → Bytes → Opt
  host_opt : Bytes → Opt
  word : (w : Bytes) → kind_of w ≡ unknown → Opt

-- An option as the user writes it: `true` is the long spelling.
abbrev pub spelled : Bool → Bytes → Bytes → Bytes
spelled true long short = long
spelled false long short = short

abbrev pub words_of : Opt → List Bytes
words_of (mouse_opt l) = spelled l (codes "--mouse") (codes "-m") ∷ []
words_of (help_opt l) = spelled l (codes "--help") (codes "-h") ∷ []
words_of (port_opt l p) = spelled l (codes "--port") (codes "-p") ∷ p ∷ []
words_of (host_opt h) = codes "--host" ∷ h ∷ []
words_of (word w e) = w ∷ []

unfoldable pub print_opts : List Opt → List Bytes
print_opts [] = []
print_opts (o ∷ os) = words_of o ++ print_opts os

-- What the options mean, from left to right.
unfoldable pub meaning : List Opt → Config → Parsed
meaning [] cfg = configured cfg
meaning (mouse_opt l ∷ os) cfg = meaning os (with_mouse cfg)
meaning (help_opt l ∷ os) cfg = helped
meaning (port_opt l p ∷ os) cfg = elim (stoi p) [
  | none ↦ threw
  | some n ↦ meaning os (with_port n cfg)
]
meaning (host_opt h ∷ os) cfg = meaning os (record cfg { listen_host = h })
meaning (word w e ∷ os) cfg = meaning os cfg

-- One word that takes no value, before any further words.
word_lem :
    (w : Bytes) (rest : List Bytes) (cfg : Config)
    → (kind_of w ≡ mouse → parse_args (w ∷ rest) cfg ≡ parse_args rest (with_mouse cfg))
      × (kind_of w ≡ help → parse_args (w ∷ rest) cfg ≡ helped)
      × (kind_of w ≡ unknown → parse_args (w ∷ rest) cfg ≡ parse_args rest cfg)
unfolding parse_args parse_last
word_lem w [] cfg = (λ e. rw e refl, λ e. rw e refl, λ e. rw e refl)
word_lem w (v ∷ rest) cfg =
    (λ e. rw (parse_args, e) refl, λ e. rw (parse_args, e) refl, λ e. rw (parse_args, e) refl)

value_lem :
    (w v : Bytes) (rest : List Bytes) (cfg : Config)
    → (kind_of w ≡ port
        → parse_args (w ∷ v ∷ rest) cfg ≡ elim (stoi v) as (λ _. Parsed) [
          | none ↦ threw
          | some n ↦ parse_args rest (with_port n cfg)
        ])
      × (kind_of w ≡ host
          → parse_args (w ∷ v ∷ rest) cfg ≡ parse_args rest (record cfg { listen_host = v }))
unfolding parse_args
value_lem w v rest cfg = (λ e. rw (parse_args, e) refl, λ e. rw (parse_args, e) refl)

mouse_kind : (l : Bool) → kind_of (spelled l (codes "--mouse") (codes "-m")) ≡ mouse
unfolding kind_of bytes_eq
mouse_kind true = refl
mouse_kind false = refl

help_kind : (l : Bool) → kind_of (spelled l (codes "--help") (codes "-h")) ≡ help
unfolding kind_of bytes_eq
help_kind true = refl
help_kind false = refl

port_kind : (l : Bool) → kind_of (spelled l (codes "--port") (codes "-p")) ≡ port
unfolding kind_of bytes_eq
port_kind true = refl
port_kind false = refl

host_kind : kind_of (codes "--host") ≡ host
unfolding kind_of bytes_eq
host_kind = refl

port_lem :
    (o : Option ℤ) (rest : List Bytes) (os : List Opt) (cfg : Config)
    → ((c : Config) → parse_args rest c ≡ meaning os c)
    → (elim o as (λ _. Parsed) [ none ↦ threw | some n ↦ parse_args rest (with_port n cfg) ])
      ≡ elim o as (λ _. Parsed) [ none ↦ threw | some n ↦ meaning os (with_port n cfg) ]
port_lem none rest os cfg h = refl
port_lem (some n) rest os cfg h = h (with_port n cfg)

-- Reading the arguments that a list of options is written as does what the options mean from left to
-- right, whatever the configuration at first: each option in its long and its short spelling, values
-- that look like options, and words that are no option, which are skipped. `--help` ends the program
-- at once, and a port that `std::stoi` does not read throws; any other is cut to 16 bits.
pub parse_args-print_opts :
    (os : List Opt) (cfg : Config) → parse_args (print_opts os) cfg ≡ meaning os cfg
unfolding print_opts meaning parse_args
parse_args-print_opts [] cfg = refl
parse_args-print_opts (mouse_opt l ∷ os) cfg =
    (word_lem _ (print_opts os) cfg).0 (mouse_kind l) ∙ parse_args-print_opts os (with_mouse cfg)
parse_args-print_opts (help_opt l ∷ os) cfg = (word_lem _ (print_opts os) cfg).1 (help_kind l)
parse_args-print_opts (port_opt l p ∷ os) cfg =
    (value_lem _ p (print_opts os) cfg).0 (port_kind l)
    ∙ port_lem (stoi p) (print_opts os) os cfg (parse_args-print_opts os)
parse_args-print_opts (host_opt h ∷ os) cfg =
    (value_lem _ h (print_opts os) cfg).1 host_kind
    ∙ parse_args-print_opts os (record cfg { listen_host = h })
parse_args-print_opts (word w e ∷ os) cfg =
    (word_lem w (print_opts os) cfg).2 e ∙ parse_args-print_opts os cfg
