-- ===== src/Util/Clipboard.antt =====
-- The clipboard (src/util/Clipboard.cpp): what is written to the terminal and into the pipe to the
-- clipboard program. What the system answers is an argument; a `write` takes what it answers, `none`
-- being an error, and a later call asks for the bytes left.
use burp_tui.Prelude.{
  ℕ, zero, suc, ◌≤◌, ◌<◌, Bytes, codes, Bool, true, false, not, Option, none, some, [], ◌∷◌, ◌++◌,
  is_empty, length, take, drop, if◌then◌else◌, ◌≡◌, refl, ap, ◌∙◌, arith, take-append-drop,
  length-drop, All,
}
use burp_tui.Util.Base64.{base64_encode, base64_decode}
use burp_tui.Util.Base64.RoundTrip.{base64_decode-base64_encode}

pub record SystemAnswers : Type 0 where
  pub pipe_ok : Bool
  pub fork_ok : Bool
  pub written : ℕ → Option ℕ

-- the loop of the parent, from its call with this number on
unfoldable pub write_all : ℕ → (ℕ → Option ℕ) → ℕ → Bytes → Bytes
write_all zero written i rest = []
write_all (suc fuel) written i rest = if is_empty rest then [] else elim (written i) [
  | none ↦ []
  | some zero ↦ []
  | some (suc n) ↦ take (suc n) rest ++ write_all fuel written (suc i) (drop (suc n) rest)
]

-- the bytes that the pipe is given, each write taking one at least
unfoldable pub dispatch_system_clipboard : SystemAnswers → Bytes → Bytes
unfolding write_all
dispatch_system_clipboard os text =
    if not os.pipe_ok
    then []
    else if not os.fork_ok
    then []
    else write_all (length text) os.written 0 text

-- what the terminal and the pipe are given, and the result
pub record Copied : Type 0 where
  pub terminal : Bytes
  pub piped : Bytes
  pub result : Bool

unfoldable pub copy : SystemAnswers → Bytes → Copied
unfolding dispatch_system_clipboard
copy os text =
    let sent : Copied = record {
      terminal = 27 ∷ codes "]52;c;" ++ (base64_encode text ++ 7 ∷ []);
      piped = dispatch_system_clipboard os text;
      result = true;
    } in
    if is_empty text then record { terminal = []; piped = []; result = false } else sent

-- A pipe that takes something of every write is given the whole text, in as many rounds as it has
-- bytes.
pub write_all_lem :
    (fuel : ℕ) (written : ℕ → Option ℕ) (i : ℕ) (rest : Bytes) (more : ℕ → ℕ)
    → length rest ≤ fuel
    → ((j : ℕ) → written j ≡ some (suc (more j)))
    → write_all fuel written i rest ≡ rest
unfolding write_all
write_all_lem zero written i [] more h w = refl
write_all_lem zero written i (c ∷ rest) more h w = absurd (omega arith)
write_all_lem (suc fuel) written i [] more h w = refl
write_all_lem (suc fuel) written i (c ∷ rest) more h w = rw (w i) (
    ap (take (suc (more i)) (c ∷ rest) ++◌) (
      write_all_lem fuel written (suc i) (drop (suc (more i)) (c ∷ rest)) more
        (omega (arith, length-drop (more i) rest)) w)
    ∙ take-append-drop (suc (more i)) (c ∷ rest))

-- What the terminal is given of a text that is not empty holds it in Base64, between the escape
-- sequence of the clipboard and the bell.
pub copy_lem :
    (os : SystemAnswers) (c : ℕ) (cs : Bytes)
    → All (λ b. b < 256) (c ∷ cs)
    → (coded : Bytes) × ((copy os (c ∷ cs)).terminal ≡ 27 ∷ codes "]52;c;" ++ (coded ++ 7 ∷ []))
      × (base64_decode coded ≡ c ∷ cs)
unfolding copy
copy_lem os c cs h = (base64_encode (c ∷ cs), refl, (base64_decode-base64_encode (c ∷ cs) h).0)
