-- ===== src/Linux/Serial.antt =====
-- `serial_check` of tools/linux.py: the wait for a stopped kernel, the end of QEMU, and the verdict on
-- what the serial log holds.
pub mod Verdict
use mini_linux.Prelude.{
  ℕ, ◌+◌, ◌*◌, ◌≤◌, ◌≡◌, ◌≢◌, ◌↔◌, refl, Bool, true, false, not, ◌&&◌, ◌||◌, List, [], ◌∷◌, ◌++◌,
  arith, length, any, all, Option, none, some, ltb, if◌then◌else◌, Bool-cases, inl, inr, get_elem?,
}
use mini_linux.Prelude.Text.{Text, codes, contains}
use mini_linux.Prelude.Decimal.{show}
use mini_linux.Prelude.Exec.{
  Exc, value_error, runtime_error, timeout_expired, Result, ok, err, Exec, ◌>>=◌, ◌>>◌, pure, raise,
  modify, when, at,
}
use mini_linux.Guest.Session.{Waited, returned, raised, waiting}
use mini_linux.Linux.{Stage, m0, m1, m2, m3, m4, m5, m6, lab, stage_name, level, checks}

-- One round of the loop: the clock in milliseconds, what reading the serial log gives, and
-- whether QEMU has ended.
pub record SerialRound : Type 0 where
  pub now : ℕ
  pub log : Result Text
  pub exited : Bool

abbrev pub panic_prefix : Text
panic_prefix = codes "MiniLinux PANIC:"

-- the body of the loop, with what the rounds to come give
abbrev pub read_round : Result Text → Bool → Waited (Unit {0}) → Waited (Unit {0})
read_round (err e) exited rest = raised e
read_round (ok text) exited rest =
    if contains panic_prefix text || exited then returned tt else rest

-- `while time.monotonic() < deadline`
unfoldable pub watch : ℕ → List SerialRound → Waited (Unit {0})
watch deadline [] = waiting
watch deadline (r ∷ rs) =
    let rest = watch deadline rs in
    if not (ltb r.now deadline) then returned tt else read_round r.log r.exited rest

pub data QemuStep : Type 0 where
  launch terminate wait kill : QemuStep

abbrev does : QemuStep → Exec (List QemuStep) Unit
does s = modify (λ ss. ss ++ s ∷ [])

abbrev wait_exit : Bool → Exec (List QemuStep) Unit
wait_exit true = does wait
wait_exit false = do does wait; raise timeout_expired

-- What the `finally` block finds: whether QEMU is alive, and whether it ends within three seconds of
-- `terminate` and of `kill`.
pub record QemuEnd : Type 0 where
  pub alive : Bool
  pub stops : Bool
  pub dies : Bool

unfoldable pub end_qemu : QemuEnd → Exec (List QemuStep) Unit
end_qemu e =
    when e.alive (do
      does terminate
      if e.stops then does wait else (do does wait; does kill; wait_exit e.dies))

abbrev pub entered : Stage → Text
entered stage = codes "MiniLinux " ++ (stage_name stage ++ codes ": entered kernel_main")

abbrev pub stopped_line : Stage → Text
stopped_line stage =
    codes "MiniLinux PANIC: " ++ (stage_name stage ++ codes " reached its intentional stop")

abbrev pub passed_line : Stage → Text → Text
passed_line stage check =
    codes "MiniLinux " ++ (stage_name stage ++ (codes ": " ++ (check ++ codes " checks passed")))

-- `int(base_stage[1:])`: LAB has no number.
abbrev pub stage_number : Stage → Result ℕ
stage_number lab = err value_error
stage_number stage = ok (level stage)

abbrev pub with_marker : Text → List Text
with_marker [] = []
with_marker (c ∷ cs) = (c ∷ cs) ∷ []

abbrev with_check : Stage → Option Text → List Text
with_check stage none = []
with_check stage (some check) = passed_line stage check ∷ []

-- the list `witnesses` for a stage of number `n`
unfoldable pub expected : Stage → ℕ → Text → List Text
expected stage n marker =
    entered stage
    ∷ stopped_line stage
    ∷ ((if ltb 0 n then with_check stage (get_elem? checks n) else []) ++ with_marker marker)

-- the message without the path of the log
abbrev pub serial_failed : Text → Exc
serial_failed label = runtime_error (codes "Serial check failed: " ++ label)

-- the part of `label` before the memory comes as an argument
abbrev pub serial_label : Text → ℕ → Text
serial_label name memory = name ++ (b'-' ∷ show memory (codes "m"))

abbrev pub judge_number : Stage → Text → Text → Text → Result ℕ → Result (Unit {0})
judge_number stage marker label log (err e) = err e
judge_number stage marker label log (ok n) =
    if any (λ w. not (contains w log)) (expected stage n marker)
    then err (serial_failed label)
    else ok tt

unfoldable pub judge_log : Stage → Text → Text → Text → Result (Unit {0})
judge_log stage marker label log = judge_number stage marker label log (stage_number stage)

-- the last reading of the serial log, and the verdict on it
abbrev pub judge_reading : Stage → Text → Text → Result Text → Result (Unit {0})
judge_reading stage marker label (err e) = err e
judge_reading stage marker label (ok log) = judge_log stage marker label log

-- The `finally` behind a loop that has returned or raised: an exception of its own comes first, then
-- that of the loop.
abbrev pub finally_end :
    Waited (Unit {0}) → Result (Unit {0}) → Result (Unit {0}) → Waited (Unit {0})
finally_end waiting ended verdict = waiting
finally_end w (err x) verdict = raised x
finally_end (raised e) (ok _) verdict = raised e
finally_end (returned _) (ok _) (ok _) = returned tt
finally_end (returned _) (ok _) (err e) = raised e

-- the `finally`, and what comes behind it; a loop that still waits has only launched QEMU
unfoldable pub leave_loop :
    QemuEnd
    → Result (Unit {0})
    → Waited (Unit {0})
    → List QemuStep
    → Waited (Unit {0}) × List QemuStep
leave_loop end verdict waiting s = (waiting, s)
leave_loop end verdict w s = let (ended, t) = end_qemu end s in (finally_end w ended verdict, t)

-- From the launch of QEMU on, with the deadline and the rounds of the loop; `last` is what reading the
-- serial log gives behind the `finally`.
unfoldable pub serial_check :
    Stage
    → Text
    → Text
    → ℕ
    → List SerialRound
    → QemuEnd
    → Result Text
    → List QemuStep
    → Waited (Unit {0}) × List QemuStep
serial_check stage marker label deadline rounds end last s =
    leave_loop end (judge_reading stage marker label last) (watch deadline rounds)
      (s ++ launch ∷ [])
