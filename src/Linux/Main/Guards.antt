-- ===== src/Linux/Main/Guards.antt =====
-- What `main` starts, and after which calls.
use mini_linux.Prelude.{
  ◌≡◌, refl, ap, ◌∙◌, Bool, true, false, not, ◌&&◌, ◌||◌, List, [], ◌∷◌, arith, Option, none,
  Option-cases, Bool-cases, ◌⊎◌, inl, inr,
}
use mini_linux.Prelude.Exec.{Exc, Result, ok}
use mini_linux.Prelude.Exec.{◌>>◌}
use mini_linux.Linux.Steps.{call}
use mini_linux.Linux.Main.{
  Command, setup, prepare, doctor, build, run, lab_command, check, Args, MainCall, call_check,
  check_qemu, call_build, call_image, guest_script, serial, server_script, MainRun, usage, ran,
  is_lab, is_lab_command, port_fits, build_image, run_guest, run_lab, dispatch, main,
}

-- `c` starts a guest of the build with these arguments.
abbrev pub starts_guest : Args → MainCall → Bool
starts_guest a (guest_script memory) = is_lab a.stage
starts_guest a (serial stage memory) = not (is_lab a.stage)
starts_guest a (server_script memory port) = is_lab a.stage && port_fits port
starts_guest a _ = false

-- The guest of `run` or `lab` came after QEMU's version was checked, then the build with the
-- arguments, then its image, and all three returned.
pub record Guarded (fails : MainCall → Option Exc) (a : Args) (calls : List MainCall) : Type 0 where
  pub guest : MainCall
  pub starts : starts_guest a guest ≡ true
  pub order :
      calls ≡ check_qemu ∷ call_build a.stage a.fault a.attack ∷ call_image a.stage ∷ guest ∷ []
  pub checked : fails check_qemu ≡ none
  pub built : fails (call_build a.stage a.fault a.attack) ≡ none
  pub imaged : fails (call_image a.stage) ≡ none

-- The calls that start QEMU; `check` starts it for each stage and case.
abbrev pub is_guest : MainCall → Bool
is_guest call_check = true
is_guest (guest_script memory) = true
is_guest (serial stage memory) = true
is_guest (server_script memory port) = true
is_guest _ = false

abbrev pub has_guest : List MainCall → Bool
has_guest [] = false
has_guest (c ∷ cs) = is_guest c || has_guest cs

-- Where `main` has started QEMU: in `check`, which is all that it called then, or in one guest of the
-- build with the arguments.
abbrev pub StartsGuarded : (MainCall → Option Exc) → Args → List MainCall → Type 0
StartsGuarded fails a calls =
    ((a.command ≡ check) × (calls ≡ call_check ∷ [])) ⊎ Guarded fails a calls

abbrev ran_result : MainRun → Result (Unit {0}) × List MainCall
ran_result (usage t) = (ok tt, [])
ran_result (ran m) = m

ran_injective : (m n : Result (Unit {0}) × List MainCall) → ran m ≡ ran n → m ≡ n
ran_injective m n e = ap ran_result e

calls_order :
    (fails : MainCall → Option Exc) (a : Args) (guest : MainCall)
    → starts_guest a guest ≡ true
    → has_guest ((do call fails check_qemu; build_image fails a; call fails guest) []).1 ≡ true
    → Guarded fails a ((do call fails check_qemu; build_image fails a; call fails guest) []).1
unfolding build_image
calls_order fails a guest s g = elim (Option-cases (fails check_qemu)) [
  | inr (e, old) ↦ cc (rw old at g)
  | inl checked ↦ elim (Option-cases (fails (call_build a.stage a.fault a.attack))) [
    | inr (e, bad) ↦ cc (rw (checked, bad) at g)
    | inl built ↦ elim (Option-cases (fails (call_image a.stage))) [
      | inr (e, bad) ↦ cc (rw (checked, built, bad) at g)
      | inl imaged ↦
          rw (checked, built, imaged)
            (record {
              guest = guest;
              starts = s;
              order = refl;
              checked = checked;
              built = built;
              imaged = imaged;
            })
    ]
  ]
]

built_calls :
    (fails : MainCall → Option Exc) (a : Args) → has_guest (build_image fails a []).1 ≡ false
unfolding build_image
built_calls fails a = ground arith

checked_calls : (fails : MainCall → Option Exc) → (call fails call_check []).1 ≡ call_check ∷ []
checked_calls fails = refl

dispatch-StartsGuarded :
    (fails : MainCall → Option Exc) (a : Args) (c : Command)
    → a.command ≡ c
    → port_fits a.port ≡ true
    → (is_lab_command c && not (is_lab a.stage)) ≡ false
    → has_guest (dispatch fails c a []).1 ≡ true
    → StartsGuarded fails a (dispatch fails c a []).1
unfolding dispatch run_guest run_lab
dispatch-StartsGuarded fails a setup q p l g = cc g
dispatch-StartsGuarded fails a prepare q p l g = cc g
dispatch-StartsGuarded fails a doctor q p l g = cc g
dispatch-StartsGuarded fails a check q p l g = inl (q, checked_calls fails)
dispatch-StartsGuarded fails a build q p l g = cc (g, built_calls fails a)
dispatch-StartsGuarded fails a run q p l g = elim (Bool-cases (is_lab a.stage)) [
  | inl is ↦ inr (rw is (calls_order fails a (guest_script a.memory) is (rw is at g)))
  | inr other ↦
      inr (rw other (calls_order fails a (serial a.stage a.memory) (rw other) (rw other at g)))
]
dispatch-StartsGuarded fails a lab_command q p l g = elim (Bool-cases (is_lab a.stage)) [
  | inl is ↦
      inr (rw is (calls_order fails a (server_script a.memory a.port) (rw (is, p)) (rw is at g)))
  | inr other ↦ cc (rw other at l)
]

-- Whatever the arguments and failures: if `main` has started QEMU, then either the command is `check`,
-- and `check` is all that it called; or it started one guest, in the last call, behind the check of
-- QEMU, the build with the arguments and its image, which all returned, and a bridge only for the
-- LAB, with a port that fits.
pub main-Guarded :
    (fails : MainCall → Option Exc) (a : Args) (m : Result (Unit {0}) × List MainCall)
    → main fails a ≡ ran m
    → has_guest m.1 ≡ true
    → StartsGuarded fails a m.1
unfolding main
main-Guarded fails a m e g = elim (Bool-cases (port_fits a.port)) [
  | inr wide ↦ cc (rw wide at e)
  | inl fits ↦ elim (Bool-cases (is_lab_command a.command && not (is_lab a.stage))) [
    | inl wrong ↦ cc (rw (fits, wrong) at e)
    | inr right ↦
        let same : dispatch fails a.command a [] ≡ m = ran_injective _ m (rw (fits, right) at e) in
        rw (← same) (
          dispatch-StartsGuarded fails a a.command refl fits right
            (ap (λ n. has_guest n.1) same ∙ g))
  ]
]
