-- ===== src/Prelude/Decimal.antt =====
-- Decimal numbers: `\d+` of a pattern with `int` of what it matches, and `str` of a number.
use mini_linux.Prelude.Tests.{ltb, if◌then◌else◌, Bool-cases, ltb→lt}
use mini_linux.Prelude.Text.{Text, is_digit}
use Prim.Native.Nat.{ℕ, zero, suc, ◌+◌, ◌-◌, ◌*◌, ◌/◌, ◌%◌, ◌<◌}
use mathlib.Core.Path.{◌≡◌, refl, ap, ◌∙◌}
use mathlib.Core.Logic.{inl, inr}
use mathlib.Core.Bool.{Bool, true, false}
use mathlib.Core.Option.{Option, none, some}
use mathlib.Core.List.{[], ◌∷◌}
use native.Mathlib.Omega.{arith}

-- The value of the longest run of digits at the front, which must not be empty, and what follows it.
unfoldable pub number : Bool → ℕ → Text → Option (ℕ × Text)
number seen acc [] = if seen then some (acc, []) else none
number seen acc (c ∷ cs) =
    let rest = number true (acc * 10 + (c - b'0')) cs in
    if is_digit c then rest else (if seen then some (acc, c ∷ cs) else none)

show_onto : ℕ → ℕ → Text → Text
show_onto zero n tail = tail
show_onto (suc fuel) n tail =
    let more = show_onto fuel (n / 10) ((b'0' + n % 10) ∷ tail) in
    if ltb n 10 then (b'0' + n) ∷ tail else more

-- `str(n)`, in front of `tail`
unfoldable pub show : ℕ → Text → Text
unfolding show_onto
show n tail = show_onto (suc n) n tail

number-digit :
    (seen : Bool) (acc d : ℕ) (tail : Text)
    → d < 10
    → number seen acc ((b'0' + d) ∷ tail) ≡ number true (acc * 10 + d) tail
unfolding number
number-digit seen acc d tail h =
    let same : acc * 10 + (b'0' + d - b'0') ≡ acc * 10 + d = omega arith in
    rw (← same) (ground arith)

show_onto-number :
    (fuel n : ℕ) (seen : Bool) (tail : Text)
    → n < fuel
    → number seen 0 (show_onto fuel n tail) ≡ number true n tail
unfolding show_onto
show_onto-number zero n seen tail h = elim h [ ]
show_onto-number (suc fuel) n seen tail h = elim (Bool-cases (ltb n 10)) [
  | inl small ↦
      rw small (
        number-digit seen 0 n tail (ltb→lt n 10 small) ∙ ap (λ k. number true k tail) (omega arith))
  | inr large ↦ rw large (
      show_onto-number fuel (n / 10) seen ((b'0' + n % 10) ∷ tail) (ground arith)
      ∙ number-digit true (n / 10) (n % 10) tail (omega arith)
      ∙ ap (λ k. number true k tail) (omega arith))
]

-- no digit at the front
abbrev pub starts_plain : Text → Bool
starts_plain [] = true
starts_plain (c ∷ cs) = if is_digit c then false else true

-- A printed number is read back, with what follows it.
pub number-show :
    (n : ℕ) (tail : Text) → starts_plain tail ≡ true → number false 0 (show n tail) ≡ some (n, tail)
unfolding show
number-show n tail h = show_onto-number (suc n) n false tail (omega arith) ∙ stop tail h
  where
    stop : (t : Text) → starts_plain t ≡ true → number true n t ≡ some (n, t)
    stop [] k = unfold number in refl
    stop (c ∷ cs) k = unfold number in ground arith
