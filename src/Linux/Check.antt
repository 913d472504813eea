-- ===== src/Linux/Check.antt =====
-- `check` of tools/linux.py: which builds, images, guests and scripts it runs, and in which order.
pub mod Order
use mini_linux.Prelude.{
  ℕ, ◌≡◌, Bool, true, false, not, ◌&&◌, List, [], ◌∷◌, ◌++◌, Option, none, some, ◌==◌,
  if◌then◌else◌, get_elem?, all,
}
use mini_linux.Prelude.Text.{Text, codes, text_eq, contains}
use mini_linux.Prelude.Decimal.{show}
use mini_linux.Prelude.Exec.{Exc, runtime_error, Result, ok, err, Exec, ◌>>=◌, ◌>>◌, pure, raise}
use mini_linux.Linux.{Stage, m6, lab, milestones, attacks, faults}
use mini_linux.Linux.Serial.{serial_label}
use mini_linux.Linux.Steps.{call, require, each}

-- The project itself with the tool root, or the disposable copy with its runtime.
pub data Place : Type 0 where
  project fixture : Place

-- The calls of `check`. A call of `serial_check` has its stage, memory and marker, and `case` where it
-- is given; `copy_tree` is the loop that copies the four folders, and `patch` the call of git.
pub data CheckCall : Type 0 where
  doctor : CheckCall
  build : Place → Stage → ℕ → ℕ → CheckCall
  image : Place → Stage → CheckCall
  serial : Stage → ℕ → Text → Option Text → CheckCall
  read_log : Text → CheckCall
  script : Text → CheckCall
  boundaries : Place → CheckCall
  copy_tree copy_file patch copy_runtime : CheckCall

-- Which calls raise, what the log of a case holds, and the bytes of user/laboratory.c in the copy
-- before and after the patch.
pub record CheckEnv : Type 0 where
  pub fails : CheckCall → Option Exc
  pub log : Text → Text
  pub original : Text
  pub patched : Text

abbrev pub memories : List ℕ
memories = 64 ∷ 256 ∷ []

-- range(1, 6) and range(2, 8)
abbrev pub attack_cases : List ℕ
attack_cases = 1 ∷ 2 ∷ 3 ∷ 4 ∷ 5 ∷ []

abbrev pub fault_cases : List ℕ
fault_cases = 2 ∷ 3 ∷ 4 ∷ 5 ∷ 6 ∷ 7 ∷ []

pub data CaseKind : Type 0 where
  attack fault : CaseKind

abbrev pub case_label : CaseKind → ℕ → Text
case_label attack n = codes "M6-attack-" ++ show n []
case_label fault n = codes "M6-fault-" ++ show n []

abbrev entry : ℕ → List Text → Text
entry n ts = text_of (get_elem? ts n)
  where
    text_of : Option Text → Text
    text_of none = []
    text_of (some t) = t

-- the marker, the fault and the attack of a case
abbrev pub case_marker : CaseKind → ℕ → Text
case_marker attack n = entry n attacks
case_marker fault n = entry n faults

abbrev pub case_fault : CaseKind → ℕ → ℕ
case_fault attack n = 1
case_fault fault n = n

abbrev pub case_attack : CaseKind → ℕ → ℕ
case_attack attack n = n
case_attack fault n = 0

-- `kind == "attack" and case == 3`
abbrev pub checks_memory : CaseKind → ℕ → Bool
checks_memory attack n = n == 3
checks_memory fault n = false

abbrev spare_line : ℕ → Text
spare_line n = codes "OOM with spare pages=" ++ show n (codes " rejected")

abbrev pub covers_depths : Text → Bool
covers_depths log = all (λ n. contains (spare_line n) log) (0 ∷ 1 ∷ 2 ∷ [])

abbrev pub depth_missed : Exc
depth_missed = runtime_error (codes "An OOM depth was not checked")

abbrev pub patch_missed : Exc
patch_missed = runtime_error (codes "The retained user probe patch did not change the fixture")

module _ (env : CheckEnv) where
  -- the first loop, for one stage
  unfoldable pub check_stage : Stage → Exec (List CheckCall) Unit
  check_stage stage = do
    call env.fails (build project stage 1 0)
    call env.fails (image project stage)
    each memories (λ memory. call env.fails (serial stage memory [] none))

  -- the log of the case that tests the table limit
  unfoldable pub check_depths : Text → Bool → Exec (List CheckCall) Unit
  check_depths label false = pure tt
  check_depths label true = do
    call env.fails (read_log label)
    require (covers_depths (env.log label)) depth_missed

  -- one memory of a case
  unfoldable pub check_memory : CaseKind → ℕ → ℕ → Exec (List CheckCall) Unit
  check_memory kind n memory = do
    call env.fails (serial m6 memory (case_marker kind n) (some (case_label kind n)))
    check_depths (serial_label (case_label kind n) memory) (checks_memory kind n)

  unfoldable pub check_case : CaseKind → ℕ → Exec (List CheckCall) Unit
  check_case kind n = do
    call env.fails (build project m6 (case_fault kind n) (case_attack kind n))
    call env.fails (image project m6)
    each memories (check_memory kind n)

  -- behind the serial checks
  unfoldable pub check_lab : Exec (List CheckCall) Unit
  check_lab = do
    call env.fails (build project m6 1 0)
    call env.fails (image project m6)
    call env.fails (build project lab 1 0)
    call env.fails (image project lab)
    call env.fails (script (codes "test-userland.py"))
    call env.fails (script (codes "test-lab-bridge.py"))
    call env.fails (boundaries project)

  unfoldable pub check_fixture : Exec (List CheckCall) Unit
  check_fixture = do
    call env.fails copy_tree
    call env.fails copy_file
    call env.fails patch
    require (not (text_eq env.patched env.original)) patch_missed
    call env.fails copy_runtime
    call env.fails (build fixture lab 1 0)
    call env.fails (image fixture lab)
    call env.fails (boundaries fixture)

  unfoldable pub check : Exec (List CheckCall) Unit
  check = do
    call env.fails doctor
    each milestones check_stage
    each attack_cases (check_case attack)
    each fault_cases (check_case fault)
    check_lab
    check_fixture
