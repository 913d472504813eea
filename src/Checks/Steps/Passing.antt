-- ===== src/Checks/Steps/Passing.antt =====
-- Steps that pass: what came before the last one.
use mini_linux.Prelude.{◌≡◌, refl, sym, ap, ◌∙◌, Bool, true, false, not, List, [], ◌∷◌}
use mini_linux.Prelude.Exec.{Result, ok, err}
use mini_linux.Prelude.Text.{Text, contains}
use mini_linux.Checks.{Verdict, passed, failed, holds}
use mini_linux.Checks.Search.{passed_inj}
use mini_linux.Checks.Steps.{Step, follow, ask, judge, shows_all}

module _ {S A B : Type 0} where
  pub follow_passed :
      (f : A → Step S B) (m : Verdict A × S) (b : B) (t : S)
      → follow f m ≡ (passed b, t)
      → (a : A) × (s : S) × (m ≡ (passed a, s)) × (f a s ≡ (passed b, t))
  follow_passed f (passed a, s) b t h = (a, s, refl, h)
  follow_passed f (failed e, s) b t h = cc (ap (λ (m : Verdict B × S). m.0) h)

module _ {S A : Type 0} where
  pub fst_eq : {m : A × S} {b : A} {t : S} → m ≡ (b, t) → m.0 ≡ b
  fst_eq h = ap (λ (m : A × S). m.0) h

  pub snd_eq : {m : A × S} {b : A} {t : S} → m ≡ (b, t) → m.1 ≡ t
  snd_eq h = ap (λ (m : A × S). m.1) h

pub closed_well :
    {S : Type 0} (m : Result (Unit {0}) × S) (s t : S) (u : Unit {0})
    → ask (λ _. m) s ≡ (passed u, t)
    → m ≡ (ok tt, t)
closed_well (ok v, r) s t u h = ap (λ x. (ok tt, x)) (snd_eq h)
closed_well (err e, r) s t u h = cc (fst_eq h)

pub negated : {b : Bool} → not b ≡ true → b ≡ false
negated {b = true} h = sym h
negated {b = false} h = refl

-- a call that was asked, and that returned
pub asked :
    {S A : Type 0} (m : Result A × S) (s : S) (a : A) (t : S)
    → ask (λ _. m) s ≡ (passed a, t)
    → m ≡ (ok a, t)
asked (ok b, r) s a t h =
    ap (λ z. (ok z, r)) (passed_inj (fst_eq h)) ∙ ap (λ z. (ok a, z)) (snd_eq h)
asked (err e, r) s a t h = cc (fst_eq h)

-- a judge leaves the guest as it is
pub shows_all-same :
    {S : Type 0} (ts : List (Text × Text)) (output : Text) (s : S) (u : Unit {0}) (t : S)
    → shows_all ts output s ≡ (passed u, t)
    → s ≡ t
unfolding shows_all
shows_all-same [] output s u t h = snd_eq h
shows_all-same ((w, message) ∷ ts) output s u t h =
    let (v, s1, e1, h1) =
      follow_passed (λ _. shows_all ts output) (judge (holds (contains w output) message) s) u t
        h in
    snd_eq e1 ∙ shows_all-same ts output s1 u t h1
