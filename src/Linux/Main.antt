-- ===== src/Linux/Main.antt =====
-- `main` of tools/linux.py: the guards on the arguments, and what each command calls.
pub mod Guards
use mini_linux.Prelude.{
  ℕ, ◌≡◌, Bool, true, false, not, ◌&&◌, ◌||◌, List, [], ◌∷◌, ◌++◌, Option, none, some, ltb,
  if◌then◌else◌,
}
use mini_linux.Prelude.Text.{Text, codes}
use mini_linux.Prelude.Int.{ℤ, pos, negsuc}
use mini_linux.Prelude.Exec.{Exc, runtime_error, Result, ok, err, Exec, ◌>>=◌, ◌>>◌, pure, raise}
use mini_linux.Linux.{Stage, m0, m1, m2, m3, m4, m5, m6, lab}
use mini_linux.Linux.Steps.{call}

pub data Command : Type 0 where
  setup prepare doctor build run lab_command check : Command

-- The arguments, after `argparse` has checked the choices.
pub record Args : Type 0 where
  pub command : Command
  pub stage : Stage
  pub fault : ℕ
  pub attack : ℕ
  pub memory : ℕ
  pub port : ℤ

pub data MainCall : Type 0 where
  call_setup call_prepare call_doctor call_check check_qemu : MainCall
  call_build : Stage → ℕ → ℕ → MainCall
  call_image : Stage → MainCall
  guest_script : ℕ → MainCall
  serial : Stage → ℕ → MainCall
  server_script : ℕ → ℤ → MainCall

-- `parser.error` ends the program with its message; else the calls have returned or raised.
pub data MainRun : Type 0 where
  usage : Text → MainRun
  ran : Result (Unit {0}) × List MainCall → MainRun

abbrev pub is_lab : Stage → Bool
is_lab lab = true
is_lab _ = false

abbrev pub is_lab_command : Command → Bool
is_lab_command lab_command = true
is_lab_command _ = false

-- `0 <= args.port <= 65535`
abbrev pub port_fits : ℤ → Bool
port_fits (pos n) = ltb n 65536
port_fits (negsuc n) = false

abbrev pub needs_lab : Text
needs_lab = codes "The browser LAB needs --stage LAB"

module _ (fails : MainCall → Option Exc) where
  -- the `else` branch: build, run and lab
  unfoldable pub build_image : Args → Exec (List MainCall) Unit
  build_image a = do
    call fails (call_build a.stage a.fault a.attack)
    call fails (call_image a.stage)

  unfoldable pub run_guest : Args → Exec (List MainCall) Unit
  run_guest a =
      if is_lab a.stage
      then call fails (guest_script a.memory)
      else call fails (serial a.stage a.memory)

  unfoldable pub run_lab : Args → Exec (List MainCall) Unit
  run_lab a =
      if is_lab a.stage
      then call fails (server_script a.memory a.port)
      else raise (runtime_error needs_lab)

  unfoldable pub dispatch : Command → Args → Exec (List MainCall) Unit
  dispatch setup a = call fails call_setup
  dispatch prepare a = call fails call_prepare
  dispatch doctor a = call fails call_doctor
  dispatch check a = call fails call_check
  dispatch build a = build_image a
  dispatch run a = do call fails check_qemu; build_image a; run_guest a
  dispatch lab_command a = do call fails check_qemu; build_image a; run_lab a

  unfoldable pub main : Args → MainRun
  main a =
      if not (port_fits a.port)
      then usage (codes "--port must be between 0 and 65535")
      else if is_lab_command a.command && not (is_lab a.stage)
      then usage needs_lab
      else ran (dispatch a.command a [])
