-- ===== src/Checks/Boundaries/Sessions.antt =====
-- What a run of the retained counterexamples that passes has seen.
use mathlib.Core.Path.{subst}
use mini_linux.Prelude.{ℕ, ◌≡◌, refl, sym, ap, ◌∙◌, true, false, not, List, [], ◌∷◌}
use mini_linux.Prelude.Text.{Text, codes, contains}
use mini_linux.Prelude.Int.{ℤ}
use mini_linux.Prelude.Exec.{ok}
use mini_linux.Guest.Session.{Snapshot}
use mini_linux.Guest.Trace.Log.{events_after}
use mini_linux.Checks.{passed, holds}
use mini_linux.Checks.Search.{passed_inj, holds_true}
use mini_linux.Checks.Faults.{Pair, faulted_pair}
use mini_linux.Checks.Faults.Witnessed.{IsWitnessed, faulted_pair-IsWitnessed}
use mini_linux.Checks.Steps.{Lab, ask, judge, shows_all, default_timeout}
use mini_linux.Checks.Steps.Passing.{
  follow_passed, fst_eq, snd_eq, closed_well, negated, asked, shows_all-same,
}
use mini_linux.Checks.Boundaries.{
  Case, survivor_steps, faulting, baseline_mode, has_two_exits, check_mixed_output, quiet_baseline,
  restored, mixed_fault, run_cases, attempt, session, sessions,
}

-- A case that reports this command, which ran between `s` and `t`: the records that came between the
-- snapshots around the command, once two programs had exited, testify to its two children.
pub record IsCase {S : Type 0} (lab : Lab S) (command : Text) (baseline : ℤ) (c : Case) (s t : S)
    : Type 0 where
  pub before : Snapshot
  pub begun : S
  pub snapped : lab.snapshot s ≡ (ok before, begun)
  pub output : Text
  pub ran : S
  pub answered : lab.command command 12 begun ≡ (ok output, ran)
  pub shown : contains (codes "status 142") output ≡ true
  pub waited : S
  pub exits : lab.wait_for (has_two_exits before.sequence) default_timeout ran ≡ (ok tt, waited)
  pub after : Snapshot
  pub ended : S
  pub snapped_again : lab.snapshot waited ≡ (ok after, ended)
  pub pair : Pair
  pub witnessed : IsWitnessed (events_after before.sequence after.events) pair
  pub restores : restored lab baseline ended ≡ (passed tt, t)
  pub reported : c ≡ faulting command pair baseline

-- The two cases of the baseline mode between `s` and `t`, with one count of free pages: that of the
-- guest when it had started.
pub record IsBaseline {S : Type 0} (lab : Lab S) (cs : List Case) (s t : S) : Type 0 where
  pub started : S
  pub starts : lab.start s ≡ (ok tt, started)
  pub baseline : ℤ
  pub quiet : S
  pub counted : quiet_baseline lab started ≡ (passed baseline, quiet)
  pub first : Case
  pub between : S
  pub second : Case
  pub first_case : IsCase lab (codes "run fault counter-a") baseline first quiet between
  pub second_case : IsCase lab (codes "run counter-a fault") baseline second between t
  pub are_cases : cs ≡ (first ∷ second ∷ [])

-- A session from `s` to `t` that left no guest running behind it.
pub record IsSession {S : Type 0} (lab : Lab S) (memory : ℕ) (r : ℕ × List Case) (s t : S)
    : Type 0 where
  pub of_memory : r.0 ≡ memory
  pub left : S
  pub cases : IsBaseline lab r.1 s left
  pub closed : lab.close left ≡ (ok tt, t)
  pub stopped : lab.is_running t ≡ false

module _ {S : Type 0} (lab : Lab S) where
  check_mixed_output-same :
      (output : Text) (s : S) (u : Unit {0}) (t : S)
      → check_mixed_output lab output s ≡ (passed u, t)
      → (contains (codes "status 142") output ≡ true) × (s ≡ t)
  unfolding check_mixed_output
  check_mixed_output-same output s u t h =
      let (v, s1, e1, h1) = follow_passed _ (judge _ s) u t h in
      let (w, s2, e2, h2) = follow_passed _ (shows_all survivor_steps output s1) u t h1 in
      (
        holds_true _ _ v (fst_eq e1),
        snd_eq e1 ∙ (shows_all-same survivor_steps output s1 w s2 e2 ∙ snd_eq h2),
      )

  mixed_fault-IsCase :
      (command : Text) (baseline : ℤ) (s : S) (c : Case) (t : S)
      → mixed_fault lab command baseline s ≡ (passed c, t)
      → IsCase lab command baseline c s t
  unfolding mixed_fault
  mixed_fault-IsCase command baseline s c t h =
      let (before, s1, e1, h1) = follow_passed _ (ask lab.snapshot s) c t h in
      let (output, s2, e2, h2) = follow_passed _ (ask (lab.command command 12) s1) c t h1 in
      let (u3, s3, e3, h3) = follow_passed _ (check_mixed_output lab output s2) c t h2 in
      let two = lab.wait_for (has_two_exits before.sequence) default_timeout in
      let (u4, s4, e4, h4) = follow_passed _ (ask two s3) c t h3 in
      let (after, s5, e5, h5) = follow_passed _ (ask lab.snapshot s4) c t h4 in
      let es = events_after before.sequence after.events in
      let (pair, s6, e6, h6) = follow_passed _ (judge (faulted_pair es) s5) c t h5 in
      let (u7, s7, e7, h7) = follow_passed _ (restored lab baseline s6) c t h6 in
      let (seen, same) = check_mixed_output-same output s2 u3 s3 e3 in
      record {
        before = before;
        begun = s1;
        snapped = asked (lab.snapshot s) s before s1 e1;
        output = output;
        ran = s2;
        answered = asked (lab.command command 12 s1) s1 output s2 e2;
        shown = seen;
        waited = s4;
        exits = ap two same ∙ closed_well (two s3) s3 s4 u4 e4;
        after = after;
        ended = s5;
        snapped_again = asked (lab.snapshot s4) s4 after s5 e5;
        pair = pair;
        witnessed = faulted_pair-IsWitnessed es pair (fst_eq e6);
        restores =
            ap (restored lab baseline) (snd_eq e6) ∙ (e7 ∙ ap (λ z. (passed u7, z)) (snd_eq h7));
        reported = sym (passed_inj (fst_eq h7));
      }

  attempt-IsBaseline :
      (s : S) (cs : List Case) (t : S)
      → attempt lab baseline_mode s ≡ (passed cs, t)
      → IsBaseline lab cs s t
  unfolding attempt run_cases
  attempt-IsBaseline s cs t h =
      let (u, s1, e1, h1) = follow_passed _ (ask lab.start s) cs t h in
      let (n, s2, e2, h2) = follow_passed _ (quiet_baseline lab s1) cs t h1 in
      let (a, s3, e3, h3) =
        follow_passed _ (mixed_fault lab (codes "run fault counter-a") n s2) cs t h2 in
      let (b, s4, e4, h4) =
        follow_passed _ (mixed_fault lab (codes "run counter-a fault") n s3) cs t h3 in
      record {
        started = s1;
        starts = closed_well (lab.start s) s s1 u e1;
        baseline = n;
        quiet = s2;
        counted = e2;
        first = a;
        between = s3;
        second = b;
        first_case = mixed_fault-IsCase (codes "run fault counter-a") n s2 a s3 e3;
        second_case =
            mixed_fault-IsCase (codes "run counter-a fault") n s3 b t
              (e4 ∙ ap (λ z. (passed b, z)) (snd_eq h4));
        are_cases = sym (passed_inj (fst_eq h4));
      }

  session-IsSession :
      (memory : ℕ) (s : S) (cs : List Case) (t : S)
      → session lab baseline_mode s ≡ (passed cs, t)
      → IsSession lab memory (memory, cs) s t
  unfolding session
  session-IsSession memory s cs t h =
      let m = attempt lab baseline_mode s in
      let (u, s1, e1, h1) = follow_passed _ (ask lab.close m.1) cs t h in
      let (v, s2, e2, h2) =
        follow_passed _ (judge (holds (not (lab.is_running s1)) (codes "QEMU remained running")) s1)
          cs t h1 in
      let same : s1 ≡ t = snd_eq e2 ∙ snd_eq h2 in
      record {
        of_memory = refl;
        left = m.1;
        cases = attempt-IsBaseline s cs m.1 (ap (λ w. (w, m.1)) (fst_eq h2));
        closed = closed_well (lab.close m.1) m.1 s1 u e1 ∙ ap (λ z. (ok tt, z)) same;
        stopped =
            subst (λ z. lab.is_running z ≡ false) same (negated (holds_true _ _ v (fst_eq e2)));
      }

-- What holds of each memory size and of its entry in the report; the sessions follow each other from
-- `s` to `t`.
abbrev pub AllSessions : {S : Type 0} → (ℕ → Lab S) → List ℕ → List (ℕ × List Case) → S → S → Type 0
AllSessions labs [] [] s t = s ≡ t
AllSessions labs [] (r ∷ rs) s t = true ≡ false
AllSessions labs (m ∷ ms) [] s t = true ≡ false
AllSessions {S} labs (m ∷ ms) (r ∷ rs) s t =
    (u : S) × IsSession (labs m) m r s u × AllSessions labs ms rs u t

module _ {S : Type 0} (labs : ℕ → Lab S) where
  -- When the run of the baseline mode passes over a list of memory sizes, each size has its entry
  -- in the report, with both cases in their order. Each case ran in the started guest; the records
  -- between the guest's own snapshots around its command, the second of them taken when two exits were
  -- seen, testify to the two children that it reports; the state is restored behind it; and no guest
  -- runs in the state that its `close` left.
  pub sessions-AllSessions :
      (memories : List ℕ) (s : S) (report : List (ℕ × List Case)) (t : S)
      → sessions labs baseline_mode memories s ≡ (passed report, t)
      → AllSessions labs memories report s t
  unfolding sessions
  sessions-AllSessions [] s report t h =
      subst (λ r. AllSessions labs [] r s t) (passed_inj (fst_eq h)) (snd_eq h)
  sessions-AllSessions (m ∷ ms) s report t h =
      let (one, s1, e1, h1) = follow_passed _ (session (labs m) baseline_mode s) report t h in
      let (rest, s2, e2, h2) = follow_passed _ (sessions labs baseline_mode ms s1) report t h1 in
      subst (λ r. AllSessions labs (m ∷ ms) r s t) (passed_inj (fst_eq h2))
        (
          s1,
          session-IsSession (labs m) m s one s1 e1,
          subst (AllSessions labs ms rest s1) (snd_eq h2) (sessions-AllSessions ms s1 rest s2 e2),
        )
