-- ===== src/Linux.antt =====
-- tools/linux.py: the stages and the tables of expected texts; `build`, `serial_check`, `check`,
-- `prepare` and `setup`, and `main` are in the modules below.
pub mod Build
pub mod Steps
pub mod Serial
pub mod Check
pub mod Assets
pub mod Setup
pub mod Media
pub mod Main
use mini_linux.Prelude.{ℕ, List, [], ◌∷◌}
use mini_linux.Prelude.Text.{Text, codes}

-- STAGES
pub data Stage : Type 0 where
  m0 m1 m2 m3 m4 m5 m6 lab : Stage

abbrev pub stage_name : Stage → Text
stage_name m0 = codes "M0"
stage_name m1 = codes "M1"
stage_name m2 = codes "M2"
stage_name m3 = codes "M3"
stage_name m4 = codes "M4"
stage_name m5 = codes "M5"
stage_name m6 = codes "M6"
stage_name lab = codes "LAB"

-- `7 if stage == "LAB" else int(stage[1:])`
abbrev pub level : Stage → ℕ
level m0 = 0
level m1 = 1
level m2 = 2
level m3 = 3
level m4 = 4
level m5 = 5
level m6 = 6
level lab = 7

-- STAGES[:-1]
abbrev pub milestones : List Stage
milestones = m0 ∷ m1 ∷ m2 ∷ m3 ∷ m4 ∷ m5 ∷ m6 ∷ []

-- CHECKS
abbrev pub checks : List Text
checks =
    []
    ∷ codes "physical page"
    ∷ codes "address mapping"
    ∷ codes "timer preemption"
    ∷ codes "user boundary"
    ∷ codes "file byte"
    ∷ codes "process isolation"
    ∷ []

-- ATTACKS
abbrev pub attacks : List Text
attacks =
    []
    ∷ codes "counterexample: syscall parent permission rejected"
    ∷ codes "counterexample: all ancestor permissions checked; pages restored"
    ∷ codes "counterexample: table limit rejected new branch; existing branch and cleanup passed"
    ∷ codes "counterexample: pointer endpoints checked without consuming file bytes"
    ∷ codes "counterexample: DF and nine registers survived timer and syscall entry"
    ∷ []

-- FAULTS
abbrev pub faults : List Text
faults =
    []
    ∷ []
    ∷ codes "vector=14 error=0x0000000000000007"
    ∷ codes "vector=14 error=0x0000000000000015"
    ∷ codes "vector=14 error=0x0000000000000004"
    ∷ codes "user exception: task=0 vector=6 error=0x0000000000000000 CS=0x0000000000000023"
    ∷ codes "user exception: task=0 vector=13 error=0x0000000000000000 CS=0x0000000000000023"
    ∷ codes "user exception: task=0 vector=0 error=0x0000000000000000 CS=0x0000000000000023"
    ∷ []
