-- ===== src/Prelude/Int.antt =====
-- Python's `int`: signed integers over the native numbers, and `int(text)`.
use mini_linux.Prelude.Tests.{ltb, ◌==◌, if◌then◌else◌, Eq}
use mini_linux.Prelude.Text.{Text, is_space, is_digit, drop_while, rstrip}
use Prim.Native.Nat.{ℕ, zero, suc, ◌+◌, ◌-◌, ◌*◌}
use mathlib.Core.Path.{◌≡◌}
use mathlib.Core.Logic.{◌↔◌}
use mathlib.Core.Bool.{Bool, true, false, ◌&&◌, ◌||◌}
use mathlib.Core.Option
use mathlib.Core.Option.{Option, none, some}
use mathlib.Core.List.{[], ◌∷◌}
use native.Mathlib.Omega.{arith}

-- `negsuc n` is -(n + 1).
pub data ℤ : Type 0 where
  pos : ℕ → ℤ
  negsuc : ℕ → ℤ

abbrev pub int_eq : ℤ → ℤ → Bool
int_eq (pos a) (pos b) = a == b
int_eq (pos a) (negsuc b) = false
int_eq (negsuc a) (pos b) = false
int_eq (negsuc a) (negsuc b) = a == b

pub int_eq_iff : (a b : ℤ) → (int_eq a b ≡ true) ↔ (a ≡ b)
int_eq_iff (pos a) (pos b) = ground arith
int_eq_iff (pos a) (negsuc b) = ground arith
int_eq_iff (negsuc a) (pos b) = ground arith
int_eq_iff (negsuc a) (negsuc b) = ground arith

instance abbrev pub int_Eq : Eq ℤ
int_Eq = record { beq = int_eq; beq_iff = int_eq_iff }

-- `a < b`
abbrev pub ltb_ℤ : ℤ → ℤ → Bool
ltb_ℤ (pos a) (pos b) = ltb a b
ltb_ℤ (pos a) (negsuc b) = false
ltb_ℤ (negsuc a) (pos b) = true
ltb_ℤ (negsuc a) (negsuc b) = ltb b a

abbrev pub max_ℤ : ℤ → ℤ → ℤ
max_ℤ a b = if ltb_ℤ a b then b else a

-- the digits of `int(text)`, with single underscores between them
digits_value : ℕ → Bool → Text → Option ℕ
digits_value acc after_digit [] = if after_digit then some acc else none
digits_value acc after_digit (c ∷ cs) =
    let rest = digits_value (if is_digit c then acc * 10 + (c - b'0') else acc) (is_digit c) cs in
    if is_digit c || (c == b'_' && after_digit) then rest else none

negate : ℕ → ℤ
negate zero = pos 0
negate (suc n) = negsuc n

signed : Text → Option ℤ
signed [] = none
signed (c ∷ cs) =
    if c == b'-'
    then Option.map negate (digits_value 0 false cs)
    else if c == b'+'
    then Option.map pos (digits_value 0 false cs)
    else Option.map pos (digits_value 0 false (c ∷ cs))

-- `int(text)`; `none` is ValueError. Exact for texts of code points below 256; the interpreter's
-- limit on the number of digits, which is a setting, is left out.
unfoldable pub int_of : Text → Option ℤ
unfolding digits_value negate signed
int_of s = signed (drop_while is_space (rstrip is_space s))
