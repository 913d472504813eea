-- ===== src/Witnesses/Tools.antt =====
-- The theorems of QemuHost and Linux at concrete inputs.
use mathlib.Core.Path.{subst}
use mini_linux.Prelude.{
  arith, if◌then◌else◌, Bool-cases, inl, inr, sym, ap, ◌∙◌, ℕ, ◌≡◌, ◌↔◌, refl, true, false, List,
  [], ◌∷◌, ◌++◌, Option, none, some,
}
use mini_linux.Prelude.Text.{Text, text_eq, codes, split, text_Eq}
use mini_linux.Prelude.Exec.{Exc, timeout_expired, Result, ok, err}
use mini_linux.Prelude.Decimal.{show}
use mini_linux.QemuHost.{Version, check_banner, match_line, old_version}
use mini_linux.QemuHost.Banner.{IsRecent, check_banner_lem}
use mini_linux.Linux.{m1, lab}
use mini_linux.Guest.Session.{returned}
use mini_linux.Linux.Serial.{QemuEnd, launch, SerialRound, watch, serial_check}
use mini_linux.Linux.Serial.Verdict.{end_steps, is_ended, Passed, serial_check_lem}
use mini_linux.Linux.Check
use mini_linux.Linux.Check.{CheckCall, CheckEnv, check}
use mini_linux.Linux.Check.Order.{all_meant, fresh_disk, plan, check_meant}
use mini_linux.Linux.Main.{
  lab_command, Args, MainCall, check_qemu, call_build, call_image, server_script, main, dispatch,
  build_image, run_lab,
}
use mini_linux.Linux.Main.Guards.{StartsGuarded, main-Guarded}
use mini_linux.Prelude.Int.{pos}
use mini_linux.Prelude.Dict
use mini_linux.Linux.Assets.{limine_sha256, prepare, image}
use mini_linux.Linux.Assets.{extract, setup_assets, is_cached}
use mini_linux.Linux.Steps.{each}
use mini_linux.Linux.Media.{MediaStep, make_media, add_files, finish_media}
use mini_linux.Linux.Media.Payload.{media_steps, make_media-image}
use mini_linux.Linux.Setup.{
  SetupEnv, HostState, setup, doctor, make_environment, check_python, does_call, find_tools,
}
use mini_linux.Linux.Setup.Ready.{
  IsPinnedArchive, cd_image, sys_image, cd_sha, sys_sha, setup-doctor,
}

abbrev version : Version
version = record { major = 8; minor = 2; patch = 1 }

abbrev version_text : Text
version_text = codes "warning: x\nQEMU emulator version 8.2.1 (Debian)\nCopyright"

check_banner_lem_example :
    ((check_banner version_text ≡ ok tt) ↔ IsRecent version)
    × ((check_banner version_text ≡ err old_version) ↔ (¬ IsRecent version))
unfolding split match_line show
check_banner_lem_example =
    check_banner_lem version_text (codes "warning: x" ∷ []) (codes "Copyright" ∷ []) version
      (codes " (Debian)") refl (refl, tt) refl

abbrev serial_log : Text
serial_log =
    codes "MiniLinux M1: entered kernel_main\nMiniLinux M1: physical page checks passed\n"
    ++ codes "MiniLinux PANIC: M1 reached its intentional stop\n"

abbrev late_end : QemuEnd
late_end = record { alive = true; stops = false; dies = true }

abbrev quiet : ℕ → SerialRound
quiet now = record { now = now; log = ok (codes "MiniLinux M1"); exited = false }

-- the deadline passes
abbrev serial_rounds : List SerialRound
serial_rounds = quiet 60 ∷ quiet 120 ∷ []

serial_check_lem_example :
    ((serial_check m1 []
        (codes "m1-64m")
        100
        (quiet 0 ∷ serial_rounds)
        late_end
        (ok serial_log)
        []).1
      ≡ [] ++ launch ∷ end_steps late_end)
    × (((serial_check m1 []
            (codes "m1-64m")
            100
            (quiet 0 ∷ serial_rounds)
            late_end
            (ok serial_log)
            []).0
          ≡ returned tt)
        ↔ ((watch 100 (quiet 0 ∷ serial_rounds) ≡ returned tt)
            × (is_ended late_end ≡ true)
            × Passed m1 [] (ok serial_log)))
serial_check_lem_example =
    serial_check_lem m1 [] (codes "m1-64m") 0 100 (quiet 0) serial_rounds late_end (ok serial_log)
      [] (omega arith, (omega arith, (omega arith, tt))) (omega arith)

-- every serial check raises
abbrev no_serial : CheckCall → Option Exc
no_serial (Check.serial stage memory marker case_name) = some timeout_expired
no_serial _ = none

abbrev check_env : CheckEnv
check_env = record { fails = no_serial; log = λ label. []; original = []; patched = [] }

check_meant_example :
    (all_meant fresh_disk (check check_env []).1 ≡ true)
    × ((check check_env []).0 ≡ ok tt → (check check_env []).1 ≡ plan)
check_meant_example = check_meant check_env

abbrev never : MainCall → Option Exc
never c = none

abbrev lab_args : Args
lab_args = record {
  command = lab_command;
  stage = lab;
  fault = 1;
  attack = 0;
  memory = 64;
  port = pos 8080;
}

abbrev lab_run : Result (Unit {0}) × List MainCall
lab_run =
    (ok tt, check_qemu ∷ call_build lab 1 0 ∷ call_image lab ∷ server_script 64 (pos 8080) ∷ [])

main-Guarded_example : StartsGuarded never lab_args lab_run.1
unfolding main dispatch build_image run_lab
main-Guarded_example = main-Guarded never lab_args lab_run refl refl

-- a digest and an archive of one byte
abbrev pinned : List ℕ → Text
pinned bytes = limine_sha256

abbrev member : List ℕ → Text → Result (List ℕ)
member archive name = ok (codes "x")

abbrev one_byte : Text → Result (List ℕ)
one_byte path = ok (codes "x")

-- a digest that knows the pinned archive and its two files
abbrev toy_digest : List ℕ → Text
toy_digest bytes =
    if text_eq bytes (0 ∷ [])
    then limine_sha256
    else if text_eq bytes (1 ∷ [])
    then cd_sha
    else sys_sha

abbrev toy_member : List ℕ → Text → Result (List ℕ)
toy_member archive name = if text_eq cd_image name then ok (1 ∷ []) else ok (2 ∷ [])

abbrev setup_env : SetupEnv
setup_env = record {
  fails = λ c. none;
  is_old = false;
  pycdlib = ok (codes "1.20.0");
  digest = toy_digest;
  member = toy_member;
  fetched = ok (0 ∷ []);
  given = false;
}

abbrev new_host : HostState
new_host = record { calls = []; assets = [] }

set_up : (setup setup_env new_host).0 ≡ ok tt
unfolding setup make_environment check_python does_call find_tools setup_assets is_cached prepare
    extract Dict.get Dict.put
set_up = refl

ok_inj : {a b : List ℕ} → ok a ≡ ok b → a ≡ b
ok_inj h = cc h

some_inj : {a b : Text} → some a ≡ some b → a ≡ b
some_inj h = cc h

toy_pinned : IsPinnedArchive toy_digest toy_member (0 ∷ [])
unfolding Dict.get
toy_pinned _ name sha bytes listed found = elim (Bool-cases (text_eq cd_image name)) [
  | inl first ↦
      let one : ok (1 ∷ []) ≡ ok bytes = rw first at found in
      let cd : some cd_sha ≡ some sha = rw first at listed in
      ap toy_digest (ok_inj (sym one)) ∙ some_inj cd
  | inr other ↦
      let two : ok (2 ∷ []) ≡ ok bytes = rw other at found in
      elim (Bool-cases (text_eq sys_image name)) [
        | inl second ↦
            let sys : some sys_sha ≡ some sha = rw (other, second) at listed in
            ap toy_digest (ok_inj (sym two)) ∙ some_inj sys
        | inr third ↦ cc (rw (other, third) at listed)
      ]
]

any_archive :
    (archive : List ℕ) → ok (0 ∷ []) ≡ ok archive → IsPinnedArchive toy_digest toy_member archive
any_archive archive e = subst (IsPinnedArchive toy_digest toy_member) (ok_inj e) toy_pinned

setup-doctor_example : (doctor setup_env (setup setup_env new_host).1).0 ≡ ok tt
setup-doctor_example =
    setup-doctor setup_env setup_env new_host any_archive set_up refl (λ c. refl) refl

abbrev no_failure : MediaStep → Option Exc
no_failure s = none

media_made : (make_media no_failure (codes "LAB") []).0 ≡ ok tt
unfolding make_media add_files finish_media each
media_made = refl

make_media-image_example :
    ((make_media no_failure (codes "LAB") []).1 ≡ media_steps (codes "LAB"))
    × ((image one_byte one_byte (make_media no_failure (codes "LAB") []).0 []).0 ≡ ok tt)
make_media-image_example =
    make_media-image no_failure (codes "LAB") one_byte one_byte [] (λ f h. (codes "x", refl, refl))
      media_made
