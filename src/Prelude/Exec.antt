-- ===== src/Prelude/Exec.antt =====
-- Python exceptions as values, and methods that mutate an object and may raise: what was written
-- before a raise stays written, so the state comes back with the exception too.
use mini_linux.Prelude.Tests.{if◌then◌else◌}
use mini_linux.Prelude.Text.{Text}
use mini_linux.Prelude.Int.{ℤ, pos, negsuc, int_of}
use mini_linux.Prelude.Lists.{length, get_elem?}
use Prim.Native.Nat.{ℕ, ◌-◌, suc}
use mathlib.Core.Path.{◌≡◌, refl, ap}
use mathlib.Core.Logic.{◌⊎◌, inl, inr}
use mathlib.Core.Bool.{Bool, true, false}
use mathlib.Core.Option.{Option, none, some}
use mathlib.Core.List.{List}
use mini_linux.Prelude.Tests.{leb}

-- The exception classes that some handler of the tools tells apart, with the message where one is
-- read. `bad_value` is a ValueError that the tools raise themselves.
pub data Exc : Type 0 where
  value_error index_error attribute_error : Exc
  bad_value : Text → Exc
  runtime_error os_error timeout_error : Text → Exc
  timeout_expired : Exc

pub data Result {ℓ} (A : Type ℓ) : Type ℓ where
  ok : A → Result A
  err : Exc → Result A

pub Result-cases {ℓ} :
    {A : Type ℓ} (r : Result A) → ((a : A) × (r ≡ ok a)) ⊎ ((e : Exc) × (r ≡ err e))
Result-cases (ok a) = inl (a, refl)
Result-cases (err e) = inr (e, refl)

abbrev pub Exec {ℓ} : Type ℓ → Type ℓ → Type ℓ
Exec S A = S → Result A × S

module _ {ℓ} {S A B : Type ℓ} where
  abbrev pub resume : (A → Exec S B) → Result A × S → Result B × S
  resume f (ok a, s) = f a s
  resume f (err e, s) = (err e, s)

  infixl 5 ◌>>=◌ ◌>>◌
  abbrev pub ◌>>=◌ : Exec S A → (A → Exec S B) → Exec S B
  ◌>>=◌ m f s = resume f (m s)

  abbrev pub ◌>>◌ : Exec S A → Exec S B → Exec S B
  ◌>>◌ m n s = resume (λ _. n) (m s)

  -- Inversion of a sequence that ended well.
  pub resume-eq-ok :
      (f : A → Exec S B) (m : Result A × S) {b : B} {s : S}
      → resume f m ≡ (ok b, s)
      → (a : A) × (t : S) × (m ≡ (ok a, t)) × (f a t ≡ (ok b, s))
  resume-eq-ok f (ok a, t) h = (a, t, refl, h)
  resume-eq-ok f (err e, t) h = cc (ap (λ (m : Result B × S). m.0) h)

  -- A property of states, behind an action that only reads.
  pub resume_after_read :
      (P : S → Type ℓ) (f : A → Exec S B) (m : Result A × S) (s : S)
      → m.1 ≡ s
      → P s
      → ((a : A) → P (f a s).1)
      → P (resume f m).1
  resume_after_read P f (ok a, t) s e p h = rw e (h a)
  resume_after_read P f (err x, t) s e p h = rw e p

  -- What an action leaves whenever it ends well, behind any other action.
  pub resume_last :
      (P : S → Type ℓ) (f : Exec S B) (b : B)
      → ((s : S) → (f s).0 ≡ ok b → P (f s).1)
      → (m : Result A × S) → (resume (λ _. f) m).0 ≡ ok b
      → P (resume (λ _. f) m).1
  resume_last P f b h (ok a, s) e = h s e
  resume_last P f b h (err x, s) e = cc e

module _ {ℓ} {S A B C : Type ℓ} where
  pub resume-resume :
      (f : A → Exec S B) (k : B → Exec S C) (m : Result A × S)
      → resume (λ a s. resume k (f a s)) m ≡ resume k (resume f m)
  resume-resume f k (ok a, s) = refl
  resume-resume f k (err e, s) = refl

module _ {ℓ} {S A : Type ℓ} where
  abbrev pub pure : A → Exec S A
  pure a s = (ok a, s)

  abbrev pub raise : Exc → Exec S A
  raise e s = (err e, s)

  abbrev pub lift : Result A → Exec S A
  lift r s = (r, s)

  abbrev pub gets : (S → A) → Exec S A
  gets f s = (ok (f s), s)

-- `if b: m`
abbrev pub when {ℓ} : {S : Type ℓ} → Bool → Exec S (Unit {ℓ}) → Exec S (Unit {ℓ})
when true m s = m s
when false m s = (ok tt, s)

-- `if not b: raise e`
abbrev pub guard : {S : Type 0} → Bool → Exc → Exec S (Unit {0})
guard true e s = (ok tt, s)
guard false e s = (err e, s)

abbrev pub modify {ℓ} : {S : Type ℓ} → (S → S) → Exec S (Unit {ℓ})
modify f s = (ok tt, f s)

-- `xs[i]` with a numeral or computed index: a negative index counts from the end.
abbrev pub at {ℓ} : {A : Type ℓ} → Option A → Result A
at none = err index_error
at (some a) = ok a

unfoldable pub index {ℓ} : {A : Type ℓ} → List A → ℤ → Result A
index xs (pos i) = at (get_elem? xs i)
index xs (negsuc i) =
    if leb (suc i) (length xs) then at (get_elem? xs (length xs - suc i)) else err index_error

abbrev pub or_value_error {ℓ} : {A : Type ℓ} → Option A → Result A
or_value_error none = err value_error
or_value_error (some a) = ok a

-- `xs[i]` at an index of the source that is not negative
abbrev pub item {ℓ} : {A : Type ℓ} → List A → ℕ → Result A
item xs i = at (get_elem? xs i)

-- `int(s)`
abbrev pub to_int : Text → Result ℤ
to_int s = or_value_error (int_of s)
