-- ===== src/Checks/Boundaries.antt =====
-- tools/test-lab-boundaries.py: the retained counterexamples, run against a guest. The guest is an
-- interface; the files of the evidence are not modelled.
pub mod Sessions
use mini_linux.Prelude.{
  ℕ, suc, map, Bool, true, false, not, ◌&&◌, ◌==◌, List, [], ◌∷◌, ◌++◌, length, drop,
}
use mini_linux.Prelude.Text.{Text, codes, contains}
use mini_linux.Prelude.Int.{ℤ, pos, int_eq, ltb_ℤ}
use mini_linux.Guest.{Event}
use mini_linux.Guest.Session.{Snapshot}
use mini_linux.Guest.Trace.Log.{events_after}
use mini_linux.Checks.{passed, holds, is_kind, only_init_and_shell}
use mini_linux.Checks.Faults.{Pair, faulted_pair}
use mini_linux.Checks.Steps.{
  Lab, Step, follow, ◌>>=◌, ◌>>◌, ask, judge, reads, shows_all, default_timeout,
}

-- the state that `restored` waits for
abbrev pub is_restored : ℤ → Snapshot → Bool
is_restored baseline x = int_eq x.free baseline && only_init_and_shell x.processes

-- `len([e for e in events if e["id"] > start and e["kind"] == "exit"])`
abbrev pub count_exits : List Event → ℕ
count_exits [] = 0
count_exits (e ∷ es) = elim (is_kind (codes "exit") e) [
  | true ↦ suc (count_exits es)
  | false ↦ count_exits es
]

abbrev pub has_two_exits : ℕ → Snapshot → Bool
has_two_exits start x = count_exits (events_after start x.events) == 2

abbrev pub survivor_steps : List (Text × Text)
survivor_steps =
    (codes " step=1 ", codes "survivor step 1 absent")
    ∷ (codes " step=2 ", codes "survivor step 2 absent")
    ∷ (codes " step=3 ", codes "survivor step 3 absent")
    ∷ (codes " step=4 ", codes "survivor step 4 absent")
    ∷ (codes " step=5 ", codes "survivor step 5 absent")
    ∷ []

abbrev pub expected_lines : List Text
expected_lines =
    codes "PROBE PROCESS cross-page rejected intact"
    ∷ codes "PROBE FILE cross-page rejected intact"
    ∷ codes "PROBE MEMORY cross-page rejected intact"
    ∷ codes "PROBE mapped cross-page outputs passed"
    ∷ codes "PROBE wait non-child self reaped rejected -3"
    ∷ codes "SUPPLEMENTAL PROBE PASSED; pages restored"
    ∷ []

abbrev pub probe_lines : List (Text × Text)
probe_lines = map (λ witness. (witness, codes "missing guest witness: " ++ witness)) expected_lines

-- What a case reports; the rest of its dictionary is constant.
pub data Case : Type 0 where
  faulting : Text → Pair → ℤ → Case
  probing : ℤ → Case

pub data Mode : Type 0 where
  baseline_mode fixture_mode : Mode

module _ {S : Type 0} (lab : Lab S) where
  unfoldable pub quiet_baseline : Step S ℤ
  quiet_baseline = do
    ask (lab.command (codes "mem") default_timeout)
    x ← ask lab.snapshot
    judge (holds (ltb_ℤ (pos 0) x.free) (codes "free-page baseline missing"))
    y ← ask lab.snapshot
    judge (passed y.free)

  unfoldable pub restored : ℤ → Step S (Unit {0})
  restored baseline = do
    ask (lab.command (codes "mem") default_timeout)
    ask (lab.wait_for (is_restored baseline) default_timeout)
    x ← ask lab.snapshot
    judge (holds (int_eq x.free baseline) (codes "free pages did not return to baseline"))
    judge (holds (only_init_and_shell x.processes) (codes "a completed child remained after wait"))
    output ← ask (lab.command (codes "cat hello.txt") default_timeout)
    judge (holds (contains (codes "hello from ramfs") output) (codes "shell did not retake"))

  -- the judge of the output of the two programs
  unfoldable pub check_mixed_output : Text → Step S (Unit {0})
  check_mixed_output output = do
    judge (holds (contains (codes "status 142") output) (codes "fault status 142 absent"))
    shows_all survivor_steps output
    judge (
        holds
          (contains (codes "counter-a pid=") output
            && not (contains (codes "ISOLATION FAILED") output))
          (codes "counter survivor differs"))

  unfoldable pub mixed_fault : Text → ℤ → Step S Case
  mixed_fault command baseline = do
    before ← ask lab.snapshot
    output ← ask (lab.command command 12)
    check_mixed_output output
    ask (lab.wait_for (has_two_exits before.sequence) default_timeout)
    after ← ask lab.snapshot
    pair ← judge (faulted_pair (events_after before.sequence after.events))
    restored baseline
    judge (passed (faulting command pair baseline))

  -- `guest.console[before:]` has `text`
  abbrev pub shows_after : ℕ → Text → Snapshot → Bool
  shows_after before text x = contains text (drop before x.console)

  unfoldable pub fixture : ℤ → Step S Case
  fixture baseline = do
    output ← ask (lab.command (codes "probe") default_timeout)
    shows_all probe_lines output
    restored baseline
    before ← reads (λ s. length (lab.console s))
    ask (lab.send (codes "probe-input\r"))
    ask (lab.wait_for (shows_after before (codes "PROBE INPUT READY: send Z")) default_timeout)
    ask (lab.send (codes "Z"))
    ask (lab.wait_for (shows_after before (codes "mini$ ")) 6)
    input_output ← reads (λ s. drop before (lab.console s))
    judge (
        holds (contains (codes "PROBE INPUT bad pointer preserved queued Z") input_output)
          (codes "bad input pointer consumed queued Z or readback differed"))
    restored baseline
    judge (passed (probing baseline))

  unfoldable pub run_cases : Mode → ℤ → Step S (List Case)
  run_cases baseline_mode baseline = do
    first ← mixed_fault (codes "run fault counter-a") baseline
    second ← mixed_fault (codes "run counter-a fault") baseline
    judge (passed (first ∷ second ∷ []))
  run_cases fixture_mode baseline = do only ← fixture baseline; judge (passed (only ∷ []))

  -- the `try` of one memory size
  unfoldable pub attempt : Mode → Step S (List Case)
  attempt mode = do ask lab.start; baseline ← quiet_baseline; run_cases mode baseline

  -- the `finally`: a failure of its own takes the place of the one before
  unfoldable pub session : Mode → Step S (List Case)
  session mode s =
      let (outcome, t) = attempt mode s in
      (do
        ask lab.close
        running ← reads lab.is_running
        judge (holds (not running) (codes "QEMU remained running"))
        judge outcome)
        t

-- the loop over the memory sizes; each has a guest of its own
unfoldable pub sessions : {S : Type 0} → (ℕ → Lab S) → Mode → List ℕ → Step S (List (ℕ × List Case))
sessions labs mode [] = judge (passed [])
sessions labs mode (memory ∷ memories) = do
  one ← session (labs memory) mode
  rest ← sessions labs mode memories
  judge (passed ((memory, one) ∷ rest))

abbrev pub run_modes : {S : Type 0} → (ℕ → Lab S) → Mode → Step S (List (ℕ × List Case))
run_modes labs mode = sessions labs mode (64 ∷ 256 ∷ [])
