-- ===== src/Export/Replacing.antt =====
-- `str.replace` as `replace_from` does it: what the result is.
use mathlib.Core.Path.{subst}
use mini_linux.Prelude.{
  ℕ, zero, suc, ◌≤◌, ◌≡◌, refl, sym, false, [], ◌∷◌, ◌++◌, length, drop, arith, Bool-cases, inl,
  inr,
}
use mini_linux.Prelude.Text.{Text, starts_with}
use mini_linux.Checks.Search.{starts_with-splits}
use mini_linux.Export.{replace_from}

-- `u` is `t` with each `old`, where one begins that no other overlaps from the left, replaced by `new`.
pub data Replaces (old new : Text) : Text → Text → Type 0 where
  at_end : Replaces old new [] []
  keeps :
      {t u : Text} (c : ℕ)
      → starts_with old (c ∷ t) ≡ false
      → Replaces old new t u
      → Replaces old new (c ∷ t) (c ∷ u)
  replaces : {t u : Text} → Replaces old new t u → Replaces old new (old ++ t) (new ++ u)

replace_from-drop :
    (old new : Text) (skip : ℕ) (t : Text)
    → replace_from old new skip t ≡ replace_from old new 0 (drop skip t)
unfolding replace_from
replace_from-drop old new zero t = refl
replace_from-drop old new (suc n) [] = refl
replace_from-drop old new (suc n) (c ∷ cs) = replace_from-drop old new n cs

length-drop_le : (n : ℕ) (t : Text) → length (drop n t) ≤ length t
length-drop_le zero t = omega arith
length-drop_le (suc n) [] = omega arith
length-drop_le (suc n) (c ∷ cs) = omega (arith, length-drop_le n cs)

within :
    (fuel : ℕ) (o : ℕ) (old new t : Text)
    → length t ≤ fuel
    → Replaces (o ∷ old) new t (replace_from (o ∷ old) new 0 t)
unfolding replace_from
within fuel o old new [] h = at_end
within zero o old new (c ∷ cs) h = absurd (omega (arith, h))
within (suc fuel) o old new (c ∷ cs) h = elim (Bool-cases (starts_with (o ∷ old) (c ∷ cs))) [
  | inr differs ↦
      rw (differs, replace_from) (keeps c differs (within fuel o old new cs (omega (arith, h))))
  | inl hit ↦
      let rest = drop (length old) cs in
      let tail = within fuel o old new rest (omega (arith, h, length-drop_le (length old) cs)) in
      let split : c ∷ cs ≡ (o ∷ old) ++ rest = starts_with-splits (o ∷ old) (c ∷ cs) hit in
      rw (hit, replace_from, replace_from-drop (o ∷ old) new (length old) cs)
        (subst (λ x. Replaces (o ∷ old) new x (new ++ replace_from (o ∷ old) new 0 rest))
          (sym split) (replaces tail))
]

pub replace_from-Replaces :
    (o : ℕ) (old new t : Text) → Replaces (o ∷ old) new t (replace_from (o ∷ old) new 0 t)
replace_from-Replaces o old new t = within (length t) o old new t (omega arith)
