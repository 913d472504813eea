-- ===== src/Hygiene/Links.antt =====
-- The links of a line are found.
use mini_linux.Prelude.{
  ℕ, zero, suc, ◌≤◌, ◌≡◌, refl, ap, ◌∙◌, Bool, true, not, [], ◌∷◌, ◌++◌, some, arith, length, all,
  ◌==◌, Bool-cases, inl, inr, Option-cases,
}
use mini_linux.Prelude.Text.{Text}
use mini_linux.Hygiene.{until, some_target, open_target, link_behind, links_on, links}

-- no `c` in the text
abbrev pub has_no : ℕ → Text → Bool
has_no c = all (λ d. not (d == c))

until-append : (c : ℕ) (a b : Text) → has_no c a ≡ true → until c (a ++ c ∷ b) ≡ some (a, b)
unfolding until
until-append c [] b h = ground arith
until-append c (d ∷ ds) b h = ground (arith, until-append c ds b)

some_inj : {a b : Text × Text} → some a ≡ some b → a ≡ b
some_inj h = cc h

until-shorter : (c : ℕ) (t a b : Text) → until c t ≡ some (a, b) → length b ≤ length t
unfolding until
until-shorter c [] a b h = cc h
until-shorter c (d ∷ ds) a b h = elim (Bool-cases (d == c)) [
  | inl same ↦
      let e : ds ≡ b = ap (λ (x : Text × Text). x.1) (some_inj (rw same at h)) in
      omega (arith, ap length e)
  | inr other ↦ elim (Option-cases (until c ds)) [
    | inl nothing ↦ cc (rw (other, nothing) at h)
    | inr ((x, y), found) ↦
        let e : y ≡ b = ap (λ (x : Text × Text). x.1) (some_inj (rw (other, found) at h)) in
        omega (arith, ap length e, until-shorter c ds x y found)
  ]
]

open_target-shorter :
    (label after target rest : Text)
    → open_target (some (label, after)) ≡ some (target, rest)
    → length rest ≤ length after
open_target-shorter label [] target rest h = cc h
open_target-shorter label (d ∷ ds) target rest h = elim (Bool-cases (d == b'(')) [
  | inr other ↦ cc (rw other at h)
  | inl same ↦ elim (Option-cases (until b')' ds)) [
    | inl nothing ↦ cc (rw (same, nothing) at h)
    | inr (([], after), found) ↦ cc (rw (same, found) at h)
    | inr ((x ∷ xs, after), found) ↦
        let e : after ≡ rest = ap (λ (x : Text × Text). x.1) (some_inj (rw (same, found) at h)) in
        omega (arith, ap length e, until-shorter b')' ds (x ∷ xs) after found)
  ]
]

link_behind-shorter :
    (t target rest : Text) → link_behind t ≡ some (target, rest) → length rest ≤ length t
unfolding link_behind
link_behind-shorter t target rest h = elim (Option-cases (until b']' t)) [
  | inl nothing ↦ cc (rw nothing at h)
  | inr ((label, after), found) ↦
      let inner = open_target-shorter label after target rest (rw found at h) in
      omega (arith, inner, until-shorter b']' t label after found)
]

links_on-enough :
    (n m : ℕ) (line : Text) → length line ≤ n → length line ≤ m → links_on n line ≡ links_on m line
unfolding links_on
links_on-enough zero zero [] a b = refl
links_on-enough zero (suc m) [] a b = refl
links_on-enough (suc n) zero [] a b = refl
links_on-enough (suc n) (suc m) [] a b = refl
links_on-enough zero m (c ∷ cs) a b = absurd (omega arith)
links_on-enough (suc n) zero (c ∷ cs) a b = absurd (omega arith)
links_on-enough (suc n) (suc m) (c ∷ cs) a b =
    let later = links_on-enough n m cs (omega arith) (omega arith) in
    elim (Option-cases (link_behind cs)) [
      | inl nothing ↦ rw (nothing, later) refl
      | inr ((target, rest), found) ↦
          let short = link_behind-shorter cs target rest found in
          rw (found, later, links_on-enough n m rest (omega arith) (omega arith)) refl
    ]

link_behind-link :
    (label : Text) (c : ℕ) (cs rest : Text)
    → has_no b']' label ≡ true
    → has_no b')' (c ∷ cs) ≡ true
    → link_behind (label ++ (b']' ∷ b'(' ∷ ((c ∷ cs) ++ b')' ∷ rest))) ≡ some (c ∷ cs, rest)
unfolding link_behind
link_behind-link label c cs rest l t =
    ap open_target (until-append b']' label (b'(' ∷ ((c ∷ cs) ++ b')' ∷ rest)) l)
    ∙ ap some_target (until-append b')' (c ∷ cs) rest t)

-- A link is found: behind a text without `[`, its label has no `]`, its target has no `)` and is not
-- empty; the links behind it are found as on a line of their own.
pub links-link :
    (before label : Text) (c : ℕ) (cs rest : Text)
    → has_no b'[' before ≡ true
    → has_no b']' label ≡ true
    → has_no b')' (c ∷ cs) ≡ true
    → links (before ++ b'[' ∷ (label ++ (b']' ∷ b'(' ∷ ((c ∷ cs) ++ b')' ∷ rest))))
      ≡ (c ∷ cs) ∷ links rest
unfolding links_on
links-link [] label c cs rest p l t =
    let tail = label ++ (b']' ∷ b'(' ∷ ((c ∷ cs) ++ b')' ∷ rest)) in
    let behind = link_behind-link label c cs rest l t in
    let short = link_behind-shorter tail (c ∷ cs) rest behind in
    rw behind (
      ap (λ ts. (c ∷ cs) ∷ ts)
        (links_on-enough (length tail) (length rest) rest short (omega arith)))
links-link (b ∷ bs) label c cs rest p l t = elim (Bool-cases (b == b'[')) [
  | inl same ↦ cc (rw same at p)
  | inr other ↦ rw other (links-link bs label c cs rest (rw other at p) l t)
]
