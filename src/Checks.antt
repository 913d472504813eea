-- ===== src/Checks.antt =====
-- What the scripts that check a real guest share (tools/test-lab-boundaries.py,
-- tools/test-userland.py): a check passes with a value or fails, and the records of the trace are
-- searched by their kind and their fields.
pub mod Search
pub mod Faults
pub mod Steps
pub mod Boundaries
pub mod Userland
use mini_linux.Prelude.{
  ℕ, ◌≡◌, Bool, true, false, not, ◌&&◌, ◌||◌, List, [], ◌∷◌, ◌++◌, Option, none, some,
  if◌then◌else◌, all,
}
use mini_linux.Prelude.Text.{Text, codes, text_eq}
use mini_linux.Prelude.Int.{ℤ, int_eq, int_Eq}
use mini_linux.Prelude.Dict
use mini_linux.Prelude.Dict.{Dict}
use mini_linux.Prelude.Exec.{Exc, Result, ok, err, item, to_int}
use mini_linux.Guest.{Event, Process}
use mini_linux.Server.{is_one_of}

-- An AssertionError with its message, a KeyError, or what the guest raised.
pub data Failure : Type 0 where
  assertion : Text → Failure
  key_error : Failure
  raised : Exc → Failure

pub data Verdict (A : Type 0) : Type 0 where
  passed : A → Verdict A
  failed : Failure → Verdict A

infixl 5 ◌>>=◌ ◌>>◌
abbrev pub ◌>>=◌ : {A B : Type 0} → Verdict A → (A → Verdict B) → Verdict B
passed a >>= f = f a
failed e >>= f = failed e

abbrev pub ◌>>◌ : {A B : Type 0} → Verdict A → Verdict B → Verdict B
passed a >> m = m
failed e >> m = failed e

abbrev pub holds : Bool → Text → Verdict (Unit {0})
holds true message = passed tt
holds false message = failed (assertion message)

abbrev pub from : {A : Type 0} → Result A → Verdict A
from (ok a) = passed a
from (err e) = failed (raised e)

-- `e["fields"][i]` and `int(e["fields"][i])`
abbrev pub text_at : ℕ → Event → Verdict Text
text_at i e = from (item e.fields i)

abbrev int_from : Verdict Text → Verdict ℤ
int_from (passed t) = from (to_int t)
int_from (failed e) = failed e

unfoldable pub int_at : ℕ → Event → Verdict ℤ
int_at i e = int_from (text_at i e)

abbrev pub is_kind : Text → Event → Bool
is_kind kind e = text_eq e.kind kind

abbrev pub add_if : Event → Bool → List Event → List Event
add_if e true es = e ∷ es
add_if e false es = es

-- `[e for e in events if p(e)]`
unfoldable pub select : (Event → Verdict Bool) → List Event → Verdict (List Event)
select p [] = passed []
select p (e ∷ es) = do keep ← p e; found ← select p es; passed (add_if e keep found)

-- `any(p(e) for e in events)`, which stops at the first one
unfoldable pub exists : (Event → Verdict Bool) → List Event → Verdict Bool
exists p [] = passed false
exists p (e ∷ es) = do found ← p e; elim found [ true ↦ passed true | false ↦ exists p es ]

-- `{int(e["fields"][i]): int(e["fields"][j]) for e in events}`
unfoldable pub table_onto : ℕ → ℕ → Dict ℤ ℤ → List Event → Verdict (Dict ℤ ℤ)
table_onto i j d [] = passed d
table_onto i j d (e ∷ es) = do k ← int_at i e; v ← int_at j e; table_onto i j (Dict.put k v d) es

abbrev pub table : ℕ → ℕ → List Event → Verdict (Dict ℤ ℤ)
table i j es = table_onto i j [] es

-- `a and b`, whose right side may raise
abbrev pub and_then : Bool → Verdict Bool → Verdict Bool
and_then true v = v
and_then false v = passed false

-- `d[k]`
abbrev pub lookup : Option ℤ → Verdict ℤ
lookup none = failed key_error
lookup (some v) = passed v

abbrev pub found : Option ℤ → ℤ → Bool
found none v = false
found (some w) v = int_eq w v

-- `e["kind"] == kind and int(e["fields"][0]) == pid`
abbrev pub is_from : Text → ℤ → Event → Verdict Bool
is_from kind pid e = and_then (is_kind kind e) (do of_pid ← int_at 0 e; passed (int_eq of_pid pid))

-- `[e for e in events if e["kind"] == kind]`
abbrev pub of_kind : Text → List Event → Verdict (List Event)
of_kind kind = select (λ e. passed (is_kind kind e))

-- `{p["program"] for p in processes} == {"init", "shell"}`
abbrev pub only_init_and_shell : List Process → Bool
only_init_and_shell ps =
    all (λ p. text_eq p.program (codes "init") || text_eq p.program (codes "shell")) ps
    && (not (all (λ p. not (text_eq p.program (codes "init"))) ps)
        && not (all (λ p. not (text_eq p.program (codes "shell"))) ps))
