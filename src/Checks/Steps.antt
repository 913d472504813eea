-- ===== src/Checks/Steps.antt =====
-- The guest that the scripts check (tools/test-lab-boundaries.py, tools/test-userland.py), and their
-- steps on it.
pub mod Passing
use mini_linux.Prelude.{ℕ, List, [], ◌∷◌, Bool}
use mini_linux.Prelude.Text.{Text, contains}
use mini_linux.Prelude.Exec.{Exec}
use mini_linux.Guest.Session.{Snapshot}
use mini_linux.Checks.{Verdict, passed, failed, from, holds}

-- `Guest`, as the judge use it: methods over a state `S`, which may raise. A wait has the test that
-- it waits for and its timeout.
pub record Lab (S : Type 0) : Type 0 where
  pub start : Exec S (Unit {0})
  pub command : Text → ℕ → Exec S Text
  pub send : Text → Exec S (Unit {0})
  pub wait_for : (Snapshot → Bool) → ℕ → Exec S (Unit {0})
  pub snapshot : Exec S Snapshot
  pub console : S → Text
  pub close : Exec S (Unit {0})
  pub is_running : S → Bool

-- A part of a check: the guest is changed, and the part passes or fails.
abbrev pub Step : Type 0 → Type 0 → Type 0
Step S A = S → Verdict A × S

module _ {S A B : Type 0} where
  abbrev pub follow : (A → Step S B) → Verdict A × S → Verdict B × S
  follow f (passed a, s) = f a s
  follow f (failed e, s) = (failed e, s)

  infixl 5 ◌>>=◌ ◌>>◌
  abbrev pub ◌>>=◌ : Step S A → (A → Step S B) → Step S B
  ◌>>=◌ m f s = follow f (m s)

  abbrev pub ◌>>◌ : Step S A → Step S B → Step S B
  ◌>>◌ m n s = follow (λ _. n) (m s)

module _ {S : Type 0} where
  abbrev pub ask : {A : Type 0} → Exec S A → Step S A
  ask m s = (from (m s).0, (m s).1)

  abbrev pub judge : {A : Type 0} → Verdict A → Step S A
  judge v s = (v, s)

  abbrev pub reads : {A : Type 0} → (S → A) → Step S A
  reads f s = (passed (f s), s)

  -- `for text in texts: check(text in output, message)`
  unfoldable pub shows_all : List (Text × Text) → Text → Step S (Unit {0})
  shows_all [] output = judge (passed tt)
  shows_all ((t, message) ∷ ts) output = do
    judge (holds (contains t output) message)
    shows_all ts output

abbrev pub default_timeout : ℕ
default_timeout = 8
