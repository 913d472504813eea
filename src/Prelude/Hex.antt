-- ===== src/Prelude/Hex.antt =====
-- Python's `int(text, 16)`, for texts of code points below 256.
use mini_linux.Prelude.Tests.{leb, ◌==◌, if◌then◌else◌}
use mini_linux.Prelude.Text.{Text, is_space, is_digit, drop_while, rstrip}
use mini_linux.Prelude.Int.{ℤ, pos, negsuc}
use Prim.Native.Nat.{ℕ, zero, suc, ◌+◌, ◌-◌, ◌*◌}
use mathlib.Core.Bool.{Bool, true, false, ◌&&◌, ◌||◌}
use mathlib.Core.Option
use mathlib.Core.Option.{Option, none, some}
use mathlib.Core.List.{[], ◌∷◌}

is_hex : ℕ → Bool
is_hex c = is_digit c || ((leb b'a' c && leb c b'f') || (leb b'A' c && leb c b'F'))

-- the value of a character that `is_hex`
hex_digit : ℕ → ℕ
hex_digit c = if is_digit c then c - b'0' else if leb b'a' c then c - b'a' + 10 else c - b'A' + 10

-- the digits, with single underscores between them
hex_value : ℕ → Bool → Text → Option ℕ
hex_value acc after_digit [] = if after_digit then some acc else none
hex_value acc after_digit (c ∷ cs) =
    let rest = hex_value (if is_hex c then acc * 16 + hex_digit c else acc) (is_hex c) cs in
    if is_hex c || (c == b'_' && after_digit) then rest else none

-- with or without `0x`, which an underscore may follow
prefixed : Text → Option ℕ
prefixed (z ∷ x ∷ c ∷ cs) =
    if z == b'0' && (x == b'x' || x == b'X')
    then hex_value 0 true (c ∷ cs)
    else hex_value 0 false (z ∷ x ∷ c ∷ cs)
prefixed s = hex_value 0 false s

negate : ℕ → ℤ
negate zero = pos 0
negate (suc n) = negsuc n

signed : Text → Option ℤ
signed [] = none
signed (c ∷ cs) =
    if c == b'-'
    then Option.map negate (prefixed cs)
    else if c == b'+'
    then Option.map pos (prefixed cs)
    else Option.map pos (prefixed (c ∷ cs))

-- `int(text, 16)`; `none` is ValueError
unfoldable pub hex_of : Text → Option ℤ
unfolding is_hex hex_digit hex_value prefixed negate signed
hex_of s = signed (drop_while is_space (rstrip is_space s))
