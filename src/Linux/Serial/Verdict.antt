-- ===== src/Linux/Serial/Verdict.antt =====
-- When `serial_check` passes, and that it leaves no QEMU behind.
use mathlib.Core.Path.{subst}
use mini_linux.Prelude.{
  ℕ, ◌+◌, ◌*◌, ◌≤◌, ◌≡◌, ◌≢◌, ◌↔◌, refl, Bool, true, false, not, ◌||◌, List, [], ◌∷◌, ◌++◌, arith,
  sym, ap, ◌∙◌, Option, some, none, length, any, if◌then◌else◌, append-nil, append_assoc,
  Bool-cases, inl, inr,
}
use mini_linux.Prelude.Text.{Text, codes, contains}
use mini_linux.Prelude.Exec.{timeout_expired, Result, Result-cases, ok, err}
use mini_linux.Guest.Session.{Waited, returned, raised, waiting}
use mini_linux.Linux.{Stage, m0, m1, m2, m3, m4, m5, m6, lab}
use mini_linux.Linux.Serial.{
  SerialRound, watch, QemuStep, launch, terminate, wait, kill, QemuEnd, end_qemu, stage_number,
  with_marker, expected, judge_number, judge_log, judge_reading, finally_end, leave_loop,
  serial_check,
}

-- The rounds are at least 50 ms apart, from `begin` on.
abbrev pub SpacedRounds : ℕ → List SerialRound → Type 0
SpacedRounds begin [] = Unit
SpacedRounds begin (r ∷ rs) = (begin ≤ r.now) × SpacedRounds (r.now + 50) rs

-- With rounds that are at least 50 ms apart, the wait for the kernel has ended by the first round at
-- which the deadline can be past, whatever the kernel prints.
pub watch-ends :
    (begin deadline : ℕ) (r : SerialRound) (rs : List SerialRound)
    → SpacedRounds begin (r ∷ rs)
    → deadline ≤ begin + 50 * length rs
    → watch deadline (r ∷ rs) ≢ waiting
unfolding watch
watch-ends begin deadline r [] s d = ground arith
watch-ends begin deadline r (q ∷ qs) s d = elim (Result-cases r.log) [
  | inl (text, e) ↦ rw e (ground (arith, watch-ends (r.now + 50) deadline q qs s.1))
  | inr (x, e) ↦ rw e (ground arith)
]

-- A live QEMU is terminated, and killed if it has not ended in time.
abbrev pub end_steps : QemuEnd → List QemuStep
end_steps e =
    if e.alive
    then (if e.stops then terminate ∷ wait ∷ [] else terminate ∷ wait ∷ kill ∷ wait ∷ [])
    else []

-- QEMU has ended by itself, by `terminate` or by `kill`.
abbrev pub is_ended : QemuEnd → Bool
is_ended e = not e.alive || (e.stops || e.dies)

abbrev ended_result : Bool → Result (Unit {0})
ended_result true = ok tt
ended_result false = err timeout_expired

end_qemu_lem :
    (e : QemuEnd) (s : List QemuStep) → end_qemu e s ≡ (ended_result (is_ended e), s ++ end_steps e)
unfolding end_qemu
end_qemu_lem e s = by_cases e.alive e.stops e.dies
  where
    by_cases :
        (a b c : Bool)
        → end_qemu (record { alive = a; stops = b; dies = c }) s ≡ (
          ended_result (is_ended (record { alive = a; stops = b; dies = c })),
          s ++ end_steps (record { alive = a; stops = b; dies = c }),
        )
    by_cases false b c = rw append-nil
    by_cases true true c = simp append_assoc
    by_cases true false true = simp append_assoc
    by_cases true false false = simp append_assoc

-- Every one of the lines is in the log.
abbrev pub HoldsAll : Text → List Text → Type 0
HoldsAll log [] = Unit
HoldsAll log (w ∷ ws) = (contains w log ≡ true) × HoldsAll log ws

missing_iff :
    (log : Text) (ws : List Text) → (any (λ w. not (contains w log)) ws ≡ false) ↔ HoldsAll log ws
missing_iff log [] = (λ _. tt, λ _. refl)
missing_iff log (w ∷ ws) = elim (Bool-cases (contains w log)) [
  | inl held ↦ (
    λ h. (held, (missing_iff log ws).0 (rw held at h)),
    λ x. rw held ((missing_iff log ws).1 x.1),
  )
  | inr missed ↦ (λ h. cc (rw missed at h), λ x. cc (x.0, missed))
]

-- The lines that a kernel of this stage prints on its way to its stop; the LAB does not stop.
abbrev pub stage_lines : Stage → Option (List Text)
stage_lines m0 = some (
    codes "MiniLinux M0: entered kernel_main"
    ∷ codes "MiniLinux PANIC: M0 reached its intentional stop"
    ∷ [])
stage_lines m1 = some (
    codes "MiniLinux M1: entered kernel_main"
    ∷ codes "MiniLinux PANIC: M1 reached its intentional stop"
    ∷ codes "MiniLinux M1: physical page checks passed"
    ∷ [])
stage_lines m2 = some (
    codes "MiniLinux M2: entered kernel_main"
    ∷ codes "MiniLinux PANIC: M2 reached its intentional stop"
    ∷ codes "MiniLinux M2: address mapping checks passed"
    ∷ [])
stage_lines m3 = some (
    codes "MiniLinux M3: entered kernel_main"
    ∷ codes "MiniLinux PANIC: M3 reached its intentional stop"
    ∷ codes "MiniLinux M3: timer preemption checks passed"
    ∷ [])
stage_lines m4 = some (
    codes "MiniLinux M4: entered kernel_main"
    ∷ codes "MiniLinux PANIC: M4 reached its intentional stop"
    ∷ codes "MiniLinux M4: user boundary checks passed"
    ∷ [])
stage_lines m5 = some (
    codes "MiniLinux M5: entered kernel_main"
    ∷ codes "MiniLinux PANIC: M5 reached its intentional stop"
    ∷ codes "MiniLinux M5: file byte checks passed"
    ∷ [])
stage_lines m6 = some (
    codes "MiniLinux M6: entered kernel_main"
    ∷ codes "MiniLinux PANIC: M6 reached its intentional stop"
    ∷ codes "MiniLinux M6: process isolation checks passed"
    ∷ [])
stage_lines lab = none

-- What a passed check has read: the lines of its stage and, if there is one, the marker.
abbrev pub Passed : Stage → Text → Result Text → Type 0
Passed stage marker last =
    (log : Text) × (lines : List Text) × (last ≡ ok log)
    × (stage_lines stage ≡ some lines)
    × HoldsAll log lines
    × (marker ≢ [] → contains marker log ≡ true)

judge_number_iff :
    (stage : Stage) (marker label log : Text) (r : Result ℕ)
    → (judge_number stage marker label log r ≡ ok tt)
      ↔ ((n : ℕ) × (r ≡ ok n) × HoldsAll log (expected stage n marker))
judge_number_iff stage marker label log (err e) = (λ h. cc, λ x. cc (x.1))
judge_number_iff stage marker label log (ok n) = (
  λ h. (n, refl, (missing_iff log (expected stage n marker)).0 (judged h)),
  λ x. rw ((missing_iff log (expected stage n marker)).1 (held_here x)),
)
  where
    held_here :
        (n' : ℕ) × (◌≡◌ {A = Result ℕ} (ok n) (ok n')) × HoldsAll log (expected stage n' marker)
        → HoldsAll log (expected stage n marker)
    held_here x = let same : n ≡ x.0 = cc x.1 in rw same (x.2)

    judged :
        judge_number stage marker label log (ok n) ≡ ok tt
        → any (λ w. not (contains w log)) (expected stage n marker) ≡ false
    judged h = elim (Bool-cases (any (λ w. not (contains w log)) (expected stage n marker))) [
      | inl missed ↦ cc (rw missed at h)
      | inr held ↦ held
    ]

HoldsAll-marker :
    (log : Text) (ws : List Text) (marker : Text)
    → HoldsAll log (ws ++ with_marker marker)
      ↔ (HoldsAll log ws × (marker ≢ [] → contains marker log ≡ true))
HoldsAll-marker log [] [] = (λ h. (tt, λ d. absurd (d refl)), λ x. tt)
HoldsAll-marker log [] (c ∷ cs) = (λ h. (tt, λ d. h.0), λ x. (x.1 (λ q. cc q), tt))
HoldsAll-marker log (w ∷ ws) marker =
    let (there, back) = HoldsAll-marker log ws marker in
    (λ h. ((h.0, (there h.1).0), (there h.1).1), λ x. (x.0.0, back (x.0.1, x.1)))

-- what the stage expects is what the table says
expected-lines :
    (stage : Stage) (n : ℕ) (marker : Text)
    → stage_number stage ≡ ok n
    → (lines : List Text) × (stage_lines stage ≡ some lines)
      × (expected stage n marker ≡ lines ++ with_marker marker)
unfolding expected
expected-lines m0 n marker e = let same : 0 ≡ n = cc e in (_, refl, rw (← same) refl)
expected-lines m1 n marker e = let same : 1 ≡ n = cc e in (_, refl, rw (← same) refl)
expected-lines m2 n marker e = let same : 2 ≡ n = cc e in (_, refl, rw (← same) refl)
expected-lines m3 n marker e = let same : 3 ≡ n = cc e in (_, refl, rw (← same) refl)
expected-lines m4 n marker e = let same : 4 ≡ n = cc e in (_, refl, rw (← same) refl)
expected-lines m5 n marker e = let same : 5 ≡ n = cc e in (_, refl, rw (← same) refl)
expected-lines m6 n marker e = let same : 6 ≡ n = cc e in (_, refl, rw (← same) refl)
expected-lines lab n marker e = cc e

numbered :
    (stage : Stage) (lines : List Text)
    → stage_lines stage ≡ some lines
    → (n : ℕ) × (stage_number stage ≡ ok n)
numbered m0 lines e = (_, refl)
numbered m1 lines e = (_, refl)
numbered m2 lines e = (_, refl)
numbered m3 lines e = (_, refl)
numbered m4 lines e = (_, refl)
numbered m5 lines e = (_, refl)
numbered m6 lines e = (_, refl)
numbered lab lines e = cc e

judge_reading_iff :
    (stage : Stage) (marker label : Text) (last : Result Text)
    → (judge_reading stage marker label last ≡ ok tt) ↔ Passed stage marker last
unfolding judge_log
judge_reading_iff stage marker label (err e) = (λ h. cc h, λ x. cc x.2)
judge_reading_iff stage marker label (ok log) = (
  λ h.
      let (n, e, held) = (judge_number_iff stage marker label log (stage_number stage)).0 h in
      let (lines, known, same) = expected-lines stage n marker e in
      let (all_, of_marker) =
        (HoldsAll-marker log lines marker).0 (subst (HoldsAll log) same held) in
      (log, lines, refl, known, all_, of_marker),
  λ x.
      let (log', lines, q, known, all_, of_marker) = x in
      let (n, e) = numbered stage lines known in
      let (lines', known', same) = expected-lines stage n marker e in
      let of_log : log' ≡ log = cc q in
      let of_lines : lines ≡ lines' = cc (known, known') in
      let held : HoldsAll log' (lines ++ with_marker marker) =
        (HoldsAll-marker log' lines marker).1 (all_, of_marker) in
      (judge_number_iff stage marker label log (stage_number stage)).1 (
        n,
        e,
        subst (HoldsAll log) (ap (λ ws. ws ++ with_marker marker) of_lines ∙ sym same)
            (subst (λ z. HoldsAll z (lines ++ with_marker marker)) of_log held),
      ),
)

-- How a check ends behind its loop, when `b` tells whether QEMU has ended.
finally_end_iff :
    (w : Waited (Unit {0})) (b : Bool) (v : Result (Unit {0}))
    → (finally_end w (ended_result b) v ≡ returned tt)
      ↔ ((w ≡ returned tt) × (b ≡ true) × (v ≡ ok tt))
finally_end_iff waiting b v = (λ h. cc h, λ x. cc x.0)
finally_end_iff (raised e) true v = (λ h. cc h, λ x. cc x.0)
finally_end_iff (raised e) false v = (λ h. cc h, λ x. cc x.0)
finally_end_iff (returned _) false v = (λ h. cc h, λ x. cc x.1)
finally_end_iff (returned _) true (ok _) = (λ h. (refl, refl, refl), λ x. refl)
finally_end_iff (returned _) true (err e) = (λ h. cc h, λ x. cc x.2)

leave_loop_lem :
    (e : QemuEnd) (v : Result (Unit {0})) (w : Waited (Unit {0})) (s : List QemuStep)
    → w ≢ waiting
    → leave_loop e v w s ≡ (finally_end w (ended_result (is_ended e)) v, s ++ end_steps e)
unfolding leave_loop
leave_loop_lem e v waiting s d = absurd (d refl)
leave_loop_lem e v (raised x) s d = rw (end_qemu_lem e s) refl
leave_loop_lem e v (returned u) s d = rw (end_qemu_lem e s) refl

-- The rounds of the loop of `serial_check` are at least 50 ms apart, and reach its deadline. Then,
-- however the loop ends, by the deadline, a stopped kernel, an ended QEMU or an exception of a reading,
-- and whatever the log holds: QEMU is started once, and ended if it is still alive, by `terminate` and,
-- if it has not stopped in time, by `kill`. The check passes exactly if no reading in the loop has
-- raised, QEMU has ended, and the log that is read then holds the lines of the stage, which must not
-- be the LAB, and the marker, if there is one.
pub serial_check_lem :
    (stage : Stage) (marker label : Text) (begin deadline : ℕ) (r : SerialRound)
    (rs : List SerialRound) (e : QemuEnd) (last : Result Text) (s : List QemuStep)
    → SpacedRounds begin (r ∷ rs)
    → deadline ≤ begin + 50 * length rs
    → ((serial_check stage marker label deadline (r ∷ rs) e last s).1 ≡ s ++ launch ∷ end_steps e)
      × (((serial_check stage marker label deadline (r ∷ rs) e last s).0 ≡ returned tt) ↔ (
          (watch deadline (r ∷ rs) ≡ returned tt) × (is_ended e ≡ true) × Passed stage marker last))
unfolding serial_check
serial_check_lem stage marker label begin deadline r rs e last s spaced enough =
    let v = judge_reading stage marker label last in
    let w = watch deadline (r ∷ rs) in
    let left =
      leave_loop_lem e v w (s ++ launch ∷ []) (watch-ends begin deadline r rs spaced enough) in
    let (there, back) = finally_end_iff w (is_ended e) v in
    let (judged, passes) = judge_reading_iff stage marker label last in
    (
      ap (λ (m : Waited (Unit {0}) × List QemuStep). m.1) left
          ∙ append_assoc s (launch ∷ []) (end_steps e),
      (
        λ h.
            let (a, b, c) =
              there (sym (ap (λ (m : Waited (Unit {0}) × List QemuStep). m.0) left) ∙ h) in
            (a, b, judged c),
        λ x. ap (λ (m : Waited (Unit {0}) × List QemuStep). m.0) left ∙ back (x.0, x.1, passes x.2),
      ),
    )
