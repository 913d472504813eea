-- ===== src/Checks/Userland/Reports.antt =====
-- What a whole run of the userland check that passes has seen.
use mathlib.Core.Path.{subst}
use mini_linux.Prelude.{ℕ, ◌≡◌, refl, ap, ◌∙◌, true, false, not, List, [], ◌∷◌}
use mini_linux.Prelude.Text.{Text, codes}
use mini_linux.Prelude.Int.{ℤ, pos, ltb_ℤ, int_eq_iff}
use mini_linux.Prelude.Exec.{ok}
use mini_linux.Guest.Session.{Snapshot}
use mini_linux.Guest.Trace.Log.{events_after}
use mini_linux.Checks.{passed, holds}
use mini_linux.Checks.Search.{passed_inj, holds_true}
use mini_linux.Checks.Steps.{Lab, ask, judge, default_timeout}
use mini_linux.Checks.Steps.Passing.{follow_passed, fst_eq, snd_eq, closed_well, negated, asked}
use mini_linux.Checks.Userland.{Counters}
use mini_linux.Checks.Userland.Isolation.{IsIsolated, counters-IsIsolated}
use mini_linux.Checks.Userland.Shell.{
  UserlandReport, greets, free_pages, reuses, returns_to, runs_counters, fault_reactions, reacts,
  keeps_markers, has_no_child, try_userland, userland_session, userland_sessions,
}

-- A report of a run in the guest that `s` becomes: as many pages were free at first as behind the
-- repeated programs and behind the two counters, and the records between the guest's own snapshots around their command show them
-- isolated.
pub record IsRun {S : Type 0} (lab : Lab S) (r : UserlandReport) (s : S) : Type 0 where
  pub started : S
  pub starts : lab.start s ≡ (ok tt, started)
  pub greeted : S
  pub answers : greets lab started ≡ (passed tt, greeted)
  pub counted : S
  pub free_before : free_pages lab greeted ≡ (passed r.free, counted)
  pub is_positive : ltb_ℤ (pos 0) r.free ≡ true
  pub reused : S
  pub repeats : reuses lab 12 counted ≡ (passed tt, reused)
  pub ready : S
  pub free_between : free_pages lab reused ≡ (passed r.free, ready)
  pub before : Snapshot
  pub begun : S
  pub snapped : lab.snapshot ready ≡ (ok before, begun)
  pub output : Text
  pub ran : S
  pub answered :
      lab.command (codes "run counter-a counter-b") default_timeout begun ≡ (ok output, ran)
  pub after : Snapshot
  pub ended : S
  pub snapped_again : lab.snapshot ran ≡ (ok after, ended)
  pub isolated : IsIsolated (events_after before.sequence after.events) r.counters
  pub later : S
  pub free_behind : free_pages lab ended ≡ (passed r.free, later)

-- The entry of a memory size, whose guest runs no more when it has been closed.
pub record IsEntry {S : Type 0} (lab : Lab S) (memory : ℕ) (r : ℕ × UserlandReport) (s t : S)
    : Type 0 where
  pub of_memory : r.0 ≡ memory
  pub run : IsRun lab r.1 s
  pub left : S
  pub closed : lab.close left ≡ (ok tt, t)
  pub stopped : lab.is_running t ≡ false

-- What holds of each memory size and of its entry; the sessions follow each other from `s` to `t`.
abbrev pub AllEntries :
    {S : Type 0} → (ℕ → Lab S) → List ℕ → List (ℕ × UserlandReport) → S → S → Type 0
AllEntries labs [] [] s t = s ≡ t
AllEntries labs [] (r ∷ rs) s t = true ≡ false
AllEntries labs (m ∷ ms) [] s t = true ≡ false
AllEntries {S} labs (m ∷ ms) (r ∷ rs) s t =
    (u : S) × IsEntry (labs m) m r s u × AllEntries labs ms rs u t

module _ {S : Type 0} (lab : Lab S) where
  -- the snapshots around the command, and what came between them
  record IsCounted (c : Counters) (s t : S) : Type 0 where
    before : Snapshot
    begun : S
    snapped : lab.snapshot s ≡ (ok before, begun)
    output : Text
    ran : S
    answered :
        lab.command (codes "run counter-a counter-b") default_timeout begun ≡ (ok output, ran)
    after : Snapshot
    snapped_again : lab.snapshot ran ≡ (ok after, t)
    isolated : IsIsolated (events_after before.sequence after.events) c

  runs_counters-IsCounted :
      (s : S) (c : Counters) (t : S) → runs_counters lab s ≡ (passed c, t) → IsCounted c s t
  unfolding runs_counters keeps_markers
  runs_counters-IsCounted s c t h =
      let (start, s1, e1, h1) = follow_passed _ (ask lab.snapshot s) c t h in
      let run = lab.command (codes "run counter-a counter-b") default_timeout in
      let (pair, s2, e2, h2) = follow_passed _ (ask run s1) c t h1 in
      let (u, s3, e3, h3) = follow_passed _ (keeps_markers lab pair s2) c t h2 in
      let (x, s4, e4, h4) = follow_passed _ (ask lab.snapshot s3) c t h3 in
      let es = events_after start.sequence x.events in
      record {
        before = start;
        begun = s1;
        snapped = asked (lab.snapshot s) s start s1 e1;
        output = pair;
        ran = s2;
        answered = asked (run s1) s1 pair s2 e2;
        after = x;
        snapped_again =
            ap lab.snapshot (snd_eq e3)
            ∙ (asked (lab.snapshot s3) s3 x s4 e4 ∙ ap (λ z. (ok x, z)) (snd_eq h4));
        isolated = counters-IsIsolated es c (fst_eq h4);
      }

  returns_to-free :
      (baseline : ℤ) (message : Text) (s : S) (u : Unit {0}) (t : S)
      → returns_to lab baseline message s ≡ (passed u, t)
      → free_pages lab s ≡ (passed baseline, t)
  unfolding returns_to
  returns_to-free baseline message s u t h =
      let (free, s1, e1, h1) = follow_passed _ (free_pages lab s) u t h in
      let same = (int_eq_iff free baseline).0 (holds_true _ _ u (fst_eq h1)) in
      e1 ∙ (ap (λ z. (passed z, s1)) same ∙ ap (λ z. (passed baseline, z)) (snd_eq h1))

  try_userland-IsRun :
      (s : S) (r : UserlandReport) (t : S) → try_userland lab s ≡ (passed r, t) → IsRun lab r s
  unfolding try_userland
  try_userland-IsRun s r t h =
      let (u, s1, e1, h1) = follow_passed _ (ask lab.start s) r t h in
      let (v, s2, e2, h2) = follow_passed _ (greets lab s1) r t h1 in
      let (baseline, s3, e3, h3) = follow_passed _ (free_pages lab s2) r t h2 in
      let (w, s4, e4, h4) =
        follow_passed _ (judge (holds (ltb_ℤ (pos 0) baseline) (codes "no memory observation")) s3)
          r t h3 in
      let (x, s5, e5, h5) = follow_passed _ (reuses lab 12 s4) r t h4 in
      let sequential = codes "sequential programs leaked pages" in
      let (y, s6, e6, h6) = follow_passed _ (returns_to lab baseline sequential s5) r t h5 in
      let (seen, s7, e7, h7) = follow_passed _ (runs_counters lab s6) r t h6 in
      let leak = codes "counter pair leaked pages" in
      let (a, s8, e8, h8) = follow_passed _ (returns_to lab baseline leak s7) r t h7 in
      let (b, s9, e9, h9) = follow_passed _ (reacts lab fault_reactions s8) r t h8 in
      let (c, s10, e10, h10) =
        follow_passed _ (returns_to lab baseline (codes "fault path leaked pages") s9) r t h9 in
      let (d, s11, e11, h11) = follow_passed _ (has_no_child lab s10) r t h10 in
      let k = runs_counters-IsCounted s6 seen s7 e7 in
      subst (λ z. IsRun lab z s) (passed_inj (fst_eq h11))
        record {
          started = s1;
          starts = closed_well (lab.start s) s s1 u e1;
          greeted = s2;
          answers = e2;
          counted = s3;
          free_before = e3;
          is_positive = holds_true _ _ w (fst_eq e4);
          reused = s5;
          repeats = ap (reuses lab 12) (snd_eq e4) ∙ e5;
          ready = s6;
          free_between = returns_to-free baseline sequential s5 y s6 e6;
          before = k.before;
          begun = k.begun;
          snapped = k.snapped;
          output = k.output;
          ran = k.ran;
          answered = k.answered;
          after = k.after;
          ended = s7;
          snapped_again = k.snapped_again;
          isolated = k.isolated;
          later = s8;
          free_behind = returns_to-free baseline leak s7 a s8 e8;
        }

  userland_session-IsEntry :
      (memory : ℕ) (s : S) (r : UserlandReport) (t : S)
      → userland_session lab s ≡ (passed r, t)
      → IsEntry lab memory (memory, r) s t
  unfolding userland_session
  userland_session-IsEntry memory s r t h =
      let m = try_userland lab s in
      let (u, s1, e1, h1) = follow_passed _ (ask lab.close m.1) r t h in
      let (v, s2, e2, h2) =
        follow_passed _ (judge (holds (not (lab.is_running s1)) (codes "QEMU remained running")) s1)
          r t h1 in
      let same : s1 ≡ t = snd_eq e2 ∙ snd_eq h2 in
      record {
        of_memory = refl;
        run = try_userland-IsRun s r m.1 (ap (λ w. (w, m.1)) (fst_eq h2));
        left = m.1;
        closed = closed_well (lab.close m.1) m.1 s1 u e1 ∙ ap (λ z. (ok tt, z)) same;
        stopped =
            subst (λ z. lab.is_running z ≡ false) same (negated (holds_true _ _ v (fst_eq e2)));
      }

module _ {S : Type 0} (labs : ℕ → Lab S) where
  -- When the userland check passes over a list of memory sizes, each size has its entry in the
  -- report. In the started guest that has answered the first commands, a positive count of pages was
  -- free, and the same count behind twelve rounds of programs and behind the two counters that ran then; the records between the guest's own snapshots
  -- around the command that runs them show them isolated; and no guest runs in the state that its
  -- `close` left.
  pub userland_sessions-AllEntries :
      (memories : List ℕ) (s : S) (report : List (ℕ × UserlandReport)) (t : S)
      → userland_sessions labs memories s ≡ (passed report, t)
      → AllEntries labs memories report s t
  unfolding userland_sessions
  userland_sessions-AllEntries [] s report t h =
      subst (λ r. AllEntries labs [] r s t) (passed_inj (fst_eq h)) (snd_eq h)
  userland_sessions-AllEntries (m ∷ ms) s report t h =
      let (one, s1, e1, h1) = follow_passed _ (userland_session (labs m) s) report t h in
      let (rest, s2, e2, h2) = follow_passed _ (userland_sessions labs ms s1) report t h1 in
      subst (λ r. AllEntries labs (m ∷ ms) r s t) (passed_inj (fst_eq h2))
        (
          s1,
          userland_session-IsEntry (labs m) m s one s1 e1,
          subst (AllEntries labs ms rest s1) (snd_eq h2)
              (userland_sessions-AllEntries ms s1 rest s2 e2),
        )
