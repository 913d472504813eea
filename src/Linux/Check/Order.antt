-- ===== src/Linux/Check/Order.antt =====
-- Whatever fails, every guest that `check` starts boots the image of the build that it is meant for.
use mini_linux.Prelude.{
  ℕ, zero, suc, ◌≡◌, refl, sym, ap, ◌∙◌, Bool, true, false, ◌&&◌, List, [], ◌∷◌, ◌++◌, append-nil,
  Option, none, some, ◌==◌, if◌then◌else◌, &&-eq-true,
}
use mini_linux.Prelude.Text.{Text, codes, text_eq}
use mini_linux.Prelude.Decimal.{show}
use mini_linux.Prelude.Exec.{ok}
use mini_linux.Linux.{Stage, m6, lab, level, milestones}
use mini_linux.Linux.Steps.{
  Follows, flat, call-Follows, require-Follows, pure-Follows, then-Follows, each-Follows,
}
use mini_linux.Linux.Check.{
  Place, project, fixture, CheckCall, doctor, build, image, serial, read_log, script, boundaries,
  copy_tree, copy_file, patch, copy_runtime, CheckEnv, memories, attack_cases, fault_cases,
  CaseKind, attack, fault, case_label, case_marker, case_fault, case_attack, checks_memory,
  check_stage, check_depths, check_memory, check_case, check_lab, check_fixture, check,
}
use mini_linux.Linux.Serial.{serial_label}

abbrev stage_calls : Stage → List CheckCall
stage_calls stage =
    build project stage 1 0
    ∷ image project stage
    ∷ flat memories (λ memory. serial stage memory [] none ∷ [])

abbrev depth_calls : Text → Bool → List CheckCall
depth_calls label true = read_log label ∷ []
depth_calls label false = []

abbrev memory_calls : CaseKind → ℕ → ℕ → List CheckCall
memory_calls kind n memory =
    serial m6 memory (case_marker kind n) (some (case_label kind n))
    ∷ depth_calls (serial_label (case_label kind n) memory) (checks_memory kind n)

abbrev case_calls : CaseKind → ℕ → List CheckCall
case_calls kind n =
    build project m6 (case_fault kind n) (case_attack kind n)
    ∷ image project m6
    ∷ flat memories (memory_calls kind n)

abbrev lab_calls : List CheckCall
lab_calls =
    build project m6 1 0
    ∷ image project m6
    ∷ build project lab 1 0
    ∷ image project lab
    ∷ script (codes "test-userland.py")
    ∷ script (codes "test-lab-bridge.py")
    ∷ boundaries project
    ∷ []

abbrev fixture_calls : List CheckCall
fixture_calls =
    copy_tree
    ∷ copy_file
    ∷ patch
    ∷ copy_runtime
    ∷ build fixture lab 1 0
    ∷ image fixture lab
    ∷ boundaries fixture
    ∷ []

-- All that a `check` with no failure calls.
abbrev pub plan : List CheckCall
plan =
    doctor
    ∷ (flat milestones stage_calls
        ++ (flat attack_cases (case_calls attack)
            ++ (flat fault_cases (case_calls fault) ++ (lab_calls ++ fixture_calls))))

-- A build: its stage, fault and attack.
pub record Built : Type 0 where
  pub stage : Stage
  pub fault : ℕ
  pub attack : ℕ

-- What is on the disk: the last build of each place, and the image of each stage, which is the build
-- that was there when it was made.
pub record Disk : Type 0 where
  pub kernel : Place → Option Built
  pub iso : Place → ℕ → Option Built

abbrev pub fresh_disk : Disk
fresh_disk = record { kernel = λ p. none; iso = λ p n. none }

abbrev same_place : Place → Place → Bool
same_place project project = true
same_place fixture fixture = true
same_place _ _ = false

abbrev pub after : CheckCall → Disk → Disk
after (build p stage f a) d = record d {
  kernel = λ q.
      if same_place q p then some (record { stage = stage; fault = f; attack = a }) else d.kernel q;
}
after (image p stage) d = record d {
  iso = λ q n. if same_place q p && n == level stage then d.kernel p else d.iso q n;
}
after _ d = d

abbrev is_build : Stage → ℕ → ℕ → Option Built → Bool
is_build stage f a none = false
is_build stage f a (some b) = level b.stage == level stage && (b.fault == f && b.attack == a)

abbrev is_of : Stage → Option Built → Bool
is_of stage none = false
is_of stage (some b) = level b.stage == level stage

-- The marker and label that belong to a build of M6 with a fault and an attack.
abbrev is_named : Text → Text → ℕ → ℕ → Bool
is_named marker label f zero =
    text_eq marker (case_marker fault f) && text_eq label (case_label fault f)
is_named marker label f (suc a) =
    f == 1
    && (text_eq marker (case_marker attack (suc a)) && text_eq label (case_label attack (suc a)))

abbrev is_case : Text → Text → Option Built → Bool
is_case marker label none = false
is_case marker label (some b) = level b.stage == 6 && is_named marker label b.fault b.attack

-- An image is made of a build of its stage, a serial check boots the build of its stage or case, and
-- the scripts boot the LAB.
abbrev pub is_meant : Disk → CheckCall → Bool
is_meant d (image p stage) = is_of stage (d.kernel p)
is_meant d (serial stage memory marker none) = is_build stage 1 0 (d.iso project (level stage))
is_meant d (serial stage memory marker (some label)) =
    is_case marker label (d.iso project (level stage))
is_meant d (script name) = is_build lab 1 0 (d.iso project 7)
is_meant d (boundaries p) = is_build lab 1 0 (d.iso p 7)
is_meant d _ = true

abbrev pub all_meant : Disk → List CheckCall → Bool
all_meant d [] = true
all_meant d (c ∷ cs) = is_meant d c && all_meant (after c d) cs

all_meant-front :
    (d : Disk) (cs ds : List CheckCall) → all_meant d (cs ++ ds) ≡ true → all_meant d cs ≡ true
all_meant-front d [] ds h = refl
all_meant-front d (c ∷ cs) ds h =
    let (first, later) = &&-eq-true (is_meant d c) (all_meant (after c d) (cs ++ ds)) h in
    rw (first, all_meant-front (after c d) cs ds later)

plan_meant : all_meant fresh_disk plan ≡ true
unfolding show
plan_meant = refl

depths-Follows :
    (env : CheckEnv) (label : Text) (b : Bool)
    → Follows (depth_calls label b) (check_depths env label b)
unfolding check_depths
depths-Follows env label false = pure-Follows
depths-Follows env label true =
    then-Follows (read_log label ∷ []) [] _ _ (call-Follows env.fails _) (require-Follows _ _)

memory-Follows :
    (env : CheckEnv) (kind : CaseKind) (n memory : ℕ)
    → Follows (memory_calls kind n memory) (check_memory env kind n memory)
unfolding check_memory
memory-Follows env kind n memory =
    then-Follows (serial m6 memory (case_marker kind n) (some (case_label kind n)) ∷ []) _ _ _
      (call-Follows env.fails _) (depths-Follows env _ _)

stage-Follows :
    (env : CheckEnv) (stage : Stage) → Follows (stage_calls stage) (check_stage env stage)
unfolding check_stage
stage-Follows env stage =
    then-Follows (build project stage 1 0 ∷ []) _ _ _ (call-Follows env.fails _) (
      then-Follows (image project stage ∷ []) _ _ _ (call-Follows env.fails _)
        (each-Follows memories _ _ (λ memory. call-Follows env.fails _)))

case-Follows :
    (env : CheckEnv) (kind : CaseKind) (n : ℕ) → Follows (case_calls kind n) (check_case env kind n)
unfolding check_case
case-Follows env kind n =
    then-Follows (build project m6 (case_fault kind n) (case_attack kind n) ∷ []) _ _ _
      (call-Follows env.fails _)
      (then-Follows (image project m6 ∷ []) _ _ _ (call-Follows env.fails _)
        (each-Follows memories _ _ (memory-Follows env kind n)))

lab-Follows : (env : CheckEnv) → Follows lab_calls (check_lab env)
unfolding check_lab
lab-Follows env =
    let one = call-Follows env.fails in
    then-Follows (build project m6 1 0 ∷ []) _ _ _ (one _) (
      then-Follows (image project m6 ∷ []) _ _ _ (one _) (
        then-Follows (build project lab 1 0 ∷ []) _ _ _ (one _) (
          then-Follows (image project lab ∷ []) _ _ _ (one _) (
            then-Follows (script (codes "test-userland.py") ∷ []) _ _ _ (one _)
              (then-Follows (script (codes "test-lab-bridge.py") ∷ []) _ _ _ (one _) (one _))))))

fixture-Follows : (env : CheckEnv) → Follows fixture_calls (check_fixture env)
unfolding check_fixture
fixture-Follows env =
    let one = call-Follows env.fails in
    then-Follows (copy_tree ∷ []) _ _ _ (one _) (
      then-Follows (copy_file ∷ []) _ _ _ (one _) (
        then-Follows (patch ∷ []) _ _ _ (one _) (
          then-Follows [] _ _ _ (require-Follows _ _) (
            then-Follows (copy_runtime ∷ []) _ _ _ (one _) (
              then-Follows (build fixture lab 1 0 ∷ []) _ _ _ (one _)
                (then-Follows (image fixture lab ∷ []) _ _ _ (one _) (one _)))))))

check-Follows : (env : CheckEnv) → Follows plan (check env)
unfolding check
check-Follows env = then-Follows (doctor ∷ []) _ _ _ (call-Follows env.fails _) (
    then-Follows (flat milestones stage_calls) _ _ _
      (each-Follows milestones _ _ (stage-Follows env))
      (then-Follows (flat attack_cases (case_calls attack)) _ _ _
        (each-Follows attack_cases _ _ (case-Follows env attack))
        (then-Follows (flat fault_cases (case_calls fault)) _ _ _
          (each-Follows fault_cases _ _ (case-Follows env fault))
          (then-Follows lab_calls fixture_calls _ _ (lab-Follows env) (fixture-Follows env)))))

-- Whatever raises: each image that `check` makes is of the build before it, each serial check boots
-- the build of its stage, or of the attack or fault that its label and marker name, and each script
-- boots the LAB of its place. A `check` that returns has made the whole plan: every milestone, attack
-- and fault with both memories, then the scripts and the fixture.
pub check_meant :
    (env : CheckEnv)
    → (all_meant fresh_disk (check env []).1 ≡ true)
      × ((check env []).0 ≡ ok tt → (check env []).1 ≡ plan)
check_meant env =
    let m = check-Follows env [] in
    (
      rw m.trace (
          all_meant-front fresh_disk m.done m.rest
            (ap (all_meant fresh_disk) (sym m.splits) ∙ plan_meant)),
      λ h.
          m.trace
          ∙ sym (append-nil m.done)
          ∙ ap (λ r. m.done ++ r) (sym (m.whole h))
          ∙ sym m.splits,
    )
