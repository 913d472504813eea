-- ===== src/QemuHost.antt =====
-- tools/qemu_host.py: the command line of QEMU, and the check of its version.
pub mod Banner
use mini_linux.Prelude.{
  ℕ, Bool, true, false, not, ◌&&◌, ◌||◌, List, [], ◌∷◌, ◌++◌, Option, none, some, ◌==◌, ltb,
  if◌then◌else◌,
}
use mini_linux.Prelude.Text.{Text, codes, text_eq, starts_with, is_space, split}
use mini_linux.Prelude.Decimal.{number}
use mini_linux.Prelude.Exec.{Exc, runtime_error, Result, ok, err}

-- CPU
abbrev pub cpu : Text
cpu = codes "qemu64,-apic"

abbrev pub missing_qemu : Exc
missing_qemu = runtime_error (codes "Missing qemu-system-x86_64; see docs/LINUX.md")

-- `os.name == "nt"`, the text of `tool_root`, and `shutil.which("qemu-system-x86_64")`
unfoldable pub qemu_command : Bool → Text → Option Text → Result (List Text)
qemu_command true tool_root found = ok (
    (tool_root ++ codes "/qemu-20260811/qemu-system-x86_64.exe")
    ∷ codes "-L"
    ∷ codes "qemu-20260811/share"
    ∷ codes "-cpu"
    ∷ cpu
    ∷ [])
qemu_command false tool_root none = err missing_qemu
qemu_command false tool_root (some executable) = ok (executable ∷ codes "-cpu" ∷ cpu ∷ [])

pub record Version : Type 0 where
  pub major : ℕ
  pub minor : ℕ
  pub patch : ℕ

infixl 5 ◌>>=◌
abbrev ◌>>=◌ {ℓ κ} : {A : Type ℓ} {B : Type κ} → Option A → (A → Option B) → Option B
none >>= f = none
some a >>= f = f a

abbrev pub banner_start : Text
banner_start = codes "QEMU emulator version "

abbrev pub strip_prefix : Text → Text → Option Text
strip_prefix [] s = some s
strip_prefix (c ∷ p) [] = none
strip_prefix (c ∷ p) (d ∷ s) = if c == d then strip_prefix p s else none

-- `(?:\s|[-(]|$)`, at the end of a line or before a character of it
abbrev pub ends_version : Text → Bool
ends_version [] = true
ends_version (c ∷ cs) = is_space c || c == b'-' || c == b'('

abbrev ended : Version → Text → Option Version
ended v rest = if ends_version rest then some v else none

-- The pattern at the start of a line. Each part is the only way to match, so nothing is tried twice;
-- digits are ASCII digits.
unfoldable pub match_line : Text → Option Version
match_line line = do
  s ← strip_prefix banner_start line
  (a, s1) ← number false 0 s
  t1 ← strip_prefix (codes ".") s1
  (b, s2) ← number false 0 t1
  t2 ← strip_prefix (codes ".") s2
  (c, rest) ← number false 0 t2
  ended (record { major = a; minor = b; patch = c }) rest

abbrev or_first : Option Version → Option Version → Option Version
or_first (some v) o = some v
or_first none o = o

-- `re.search(…, re.MULTILINE)`: the first line that matches
unfoldable pub match_lines : List Text → Option Version
match_lines [] = none
match_lines (l ∷ ls) = or_first (match_line l) (match_lines ls)

-- `tuple(…) < (6, 2, 0)`
unfoldable pub is_older : Version → Bool
is_older v = ltb v.major 6 || (v.major == 6 && (ltb v.minor 2 || (v.minor == 2 && ltb v.patch 0)))

abbrev pub unknown_version : Exc
unknown_version = runtime_error (codes "Cannot identify the QEMU version; see docs/LINUX.md")

abbrev pub old_version : Exc
old_version = runtime_error (
    codes "This entry requires QEMU >= 6.2.0 with the explicit PIC CPU profile; "
    ++ codes "see docs/LINUX.md; no guest started")

abbrev pub version_timed_out : Exc
version_timed_out =
    runtime_error (codes "QEMU --version timed out after 5 seconds; no guest started")

-- `subprocess.run([executable, "--version"], …, timeout=5)`
pub data VersionRun : Type 0 where
  output : Text → VersionRun
  late : VersionRun
  broken : Exc → VersionRun

abbrev judge : Option Version → Result (Unit {0})
judge none = err unknown_version
judge (some v) = if is_older v then err old_version else ok tt

unfoldable pub check_banner : Text → Result (Unit {0})
check_banner text = judge (match_lines (split b'\n' text))

abbrev pub judge_run : VersionRun → Result (Unit {0})
judge_run late = err version_timed_out
judge_run (broken e) = err e
judge_run (output text) = check_banner text

abbrev with_command : Result (List Text) → VersionRun → Result (Unit {0})
with_command (err e) r = err e
with_command (ok args) r = judge_run r

unfoldable pub check_qemu : Bool → Text → Option Text → VersionRun → Result (Unit {0})
check_qemu nt root found r = with_command (qemu_command nt root found) r
