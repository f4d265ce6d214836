-- ===== src/Prelude/Stoi.antt =====
-- `std::stoi` in base ten: white space, a sign, digits up to the first other byte. `none` is an
-- exception: no digit, or a value out of the range of a 32-bit `int`.
use Prim.Native.Nat.{ℕ, ◌+◌, ◌-◌, ◌*◌, ◌^◌}
use mathlib.Core.Bool.{Bool, ◌&&◌, ◌||◌}
use mathlib.Core.List.{[], ◌∷◌}
use mathlib.Core.Option.{Option, none, some}
use burp_tui.Prelude.Tests.{ltb, leb, ◌==◌, if◌then◌else◌}
use burp_tui.Prelude.Text.{Bytes}
use burp_tui.Prelude.Int.{ℤ, pos, negsuc}

abbrev pub is_digit : ℕ → Bool
is_digit c = leb b'0' c && leb c b'9'

abbrev pub is_space : ℕ → Bool
is_space c = c == 32 || (leb 9 c && leb c 13)

unfoldable pub skip_spaces : Bytes → Bytes
skip_spaces [] = []
skip_spaces (c ∷ cs) = if is_space c then skip_spaces cs else c ∷ cs

unfoldable pub read_more : ℕ → Bytes → ℕ
read_more acc [] = acc
read_more acc (c ∷ cs) =
    let rest = read_more (acc * 10 + (c - b'0')) cs in if is_digit c then rest else acc

unfoldable pub read_digits : Bytes → Option ℕ
unfolding read_more
read_digits [] = none
read_digits (c ∷ cs) = if is_digit c then some (read_more (c - b'0') cs) else none

abbrev pub positive : Option ℕ → Option ℤ
positive none = none
positive (some n) = if ltb n (2 ^ 31) then some (pos n) else none

abbrev pub negative : Option ℕ → Option ℤ
negative none = none
negative (some n) =
    if n == 0 then some (pos 0) else if leb n (2 ^ 31) then some (negsuc (n - 1)) else none

unfoldable pub stoi_digits : Bytes → Option ℤ
unfolding read_digits
stoi_digits [] = none
stoi_digits (c ∷ cs) =
    if c == b'-'
    then negative (read_digits cs)
    else if c == b'+'
    then positive (read_digits cs)
    else positive (read_digits (c ∷ cs))

unfoldable pub stoi : Bytes → Option ℤ
unfolding skip_spaces stoi_digits
stoi s = stoi_digits (skip_spaces s)
