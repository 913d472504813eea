-- ===== src/Clients/Probe/Parts.antt =====
-- What the parts of a session of the probe have seen that pass.
use mathlib.Core.Path.{subst}
use mini_linux.Prelude.{
  ℕ, ◌≡◌, refl, sym, ap, ◌∙◌, true, false, not, ◌&&◌, List, [], ◌∷◌, ◌++◌, length,
}
use mini_linux.Prelude.Text.{Text, codes, text_eq, contains}
use mini_linux.Prelude.Exec.{Result}
use mini_linux.Guest.Session.{is_running}
use mini_linux.Guest.Trace.Log.{events_after}
use mini_linux.Server.{Body, State}
use mini_linux.Checks.{Verdict, passed, only_init_and_shell}
use mini_linux.Checks.Search.{passed_inj, and_true}
use mini_linux.Checks.Steps.{judge}
use mini_linux.Checks.Steps.Passing.{follow_passed, fst_eq, snd_eq, negated}
use mini_linux.Checks.Userland.{Counters, counters}
use mini_linux.Checks.Userland.Isolation.{IsIsolated, counters-IsIsolated}
use mini_linux.Clients.{
  Web, get, post, text_body, no_fields, new_text, only_first_pids, request, request_json,
  read_state,
}
use mini_linux.Clients.Passing.{asserted, Answered, request_json-Answered}
use mini_linux.Clients.Probe.{
  Session, is_stopped, within, keep, await_output, probe_command, opens, counts, finishes, stops,
  restarts,
}
use mini_linux.Clients.Probe.Kept.{
  Wanted, wanted, Adds, Shown, await_output-Shown, within-kept, within-world, keep-world, keep-Adds,
  probe_command-Adds,
}

abbrev pub counter_command : Text × Text
counter_command = (codes "run counter-a counter-b", codes "counter-b")

abbrev pub mem_command : Text × Text
mem_command = (codes "mem", codes "free")

-- Between `s` and `t` the bridge took the command of the two counters, and the records of the guest
-- that came between the states read before and behind it show them isolated.
pub record IsCounted {S : Type 0} (web : Web S) (loads : List ℕ → Result Body) (c : Counters)
    (s t : S) : Type 0 where
  pub old : State
  pub begun : S
  pub read : read_state web loads s ≡ (passed old, begun)
  pub ran : S
  pub content : List ℕ
  pub answered :
      Answered web 200
        (post (codes "/api/input") (text_body (codes "run counter-a counter-b\r")))
        begun
        ran
        content
  pub now : State
  pub shown : Shown web loads (length old.snapshot.console) now t
  pub isolated : IsIsolated (events_after old.snapshot.sequence now.snapshot.events) c

-- The bridge was asked to stop its guest at `s`; the state that was read then is this one, and at once
-- `help` was refused.
pub record IsRefused {S : Type 0} (web : Web S) (loads : List ℕ → Result Body) (x : State) (s : S)
    : Type 0 where
  pub asked_at : S
  pub stop_content : List ℕ
  pub asks : Answered web 200 (post (codes "/api/stop") no_fields) s asked_at stop_content
  pub before : S
  pub read : read_state web loads asked_at ≡ (passed x, before)
  pub after : S
  pub content : List ℕ
  pub answered :
      Answered web 503 (post (codes "/api/input") (text_body (codes "help\r"))) before after content

pub record IsFresh (initial fresh : State) : Type 0 where
  pub running : is_running fresh.snapshot.status ≡ true
  pub renewed : text_eq fresh.epoch initial.epoch ≡ false
  pub forgotten : contains (codes "hello from ramfs") fresh.snapshot.console ≡ false
  pub pids : only_first_pids fresh.snapshot.processes ≡ true

module _ {S : Type 0} where
  -- the same entries, at states that hold the same list
  pub Adds-kept :
      (ws : List Wanted) (s t u v : Session S)
      → t.kept ≡ s.kept
      → v.kept ≡ u.kept
      → Adds ws t u
      → Adds ws s v
  Adds-kept ws s t u v p q a = record {
    added = a.added;
    kept = q ∙ a.kept ∙ ap (λ es. es ++ a.added) p;
    fit = a.fit;
  }

  pub same_kept :
      {A : Type 0} {v b : Verdict A} {s t : Session S} → judge v s ≡ (b, t) → t.kept ≡ s.kept
  same_kept h = ap (λ (z : Session S). z.kept) (sym (snd_eq h))

module _ {S : Type 0} (web : Web S) (loads : List ℕ → Result Body) where
  pub opens_seen :
      (s : Session S) (x : State) (t : Session S)
      → opens web loads s ≡ (passed x, t)
      → Adds ((codes "initial", []) ∷ []) s t × (is_running x.snapshot.status ≡ true)
  unfolding opens
  opens_seen s x t h =
      let asks = request web loads 200 (get (codes "/")) in
      let (page, s1, e1, h1) = follow_passed _ (within asks s) x t h in
      let (shown, h2) = asserted (contains (codes "MiniLinux Console") page) _ s1 x t h1 in
      let (y, s2, e2, h3) = follow_passed _ (within (read_state web loads) s1) x t h2 in
      let (runs, h4) = asserted (is_running y.snapshot.status) _ s2 x t h3 in
      let (u, s3, e3, h5) = follow_passed _ (keep (codes "initial") y [] s2) x t h4 in
      (
        Adds-kept _ s s2 s3 t
            (within-kept (read_state web loads) s1 y s2 e2 ∙ within-kept asks s page s1 e1)
            (same_kept h5) (keep-Adds (codes "initial") y [] [] s2 u s3 e3 refl),
        subst (λ (z : State). is_running z.snapshot.status ≡ true) (passed_inj (fst_eq h5)) runs,
      )

  probe_command-IsCounted :
      (s : Session S) (x : State) (before : ℕ) (c : Counters) (t : Session S)
      → probe_command web loads counter_command.0 counter_command.1 s ≡ (passed (x, before), t)
      → counters (events_after before x.snapshot.events) ≡ passed c
      → IsCounted web loads c s.world t.world
  unfolding probe_command
  probe_command-IsCounted s x before c t h k =
      let q = post (codes "/api/input") (text_body (codes "run counter-a counter-b\r")) in
      let read = read_state web loads in
      let input = request_json web loads 200 q in
      let (old, s1, e1, h1) = follow_passed _ (within read s) (x, before) t h in
      let (u, s2, e2, h2) = follow_passed _ (within input s1) (x, before) t h1 in
      let offset = length old.snapshot.console in
      let waits = await_output web loads (web.rounds s2.world) offset in
      let (y, s3, e3, h3) = follow_passed _ (within waits s2) (x, before) t h2 in
      let (fits, h4) =
        asserted (contains (codes "counter-b") (new_text offset y)) _ s3 (x, before) t h3 in
      let output = new_text offset y in
      let (v, s4, e4, h5) = follow_passed _ (keep counter_command.0 y output s3) (x, before) t h4 in
      let kept = keep-world counter_command.0 y output s3 v s4 e4 in
      let pair : (y, old.snapshot.sequence) ≡ (x, before) = passed_inj (fst_eq h5) in
      let (content, answered, of_body) =
        request_json-Answered web loads 200 q s1.world u s2.world (within-world input s1 u s2 e2) in
      let shown =
        await_output-Shown web loads (web.rounds s2.world) offset s2.world y s3.world
          (within-world waits s2 y s3 e3) in
      record {
        old = old;
        begun = s1.world;
        read = within-world read s old s1 e1;
        ran = s2.world;
        content = content;
        answered = answered;
        now = y;
        shown =
            subst (Shown web loads offset y) (kept ∙ ap (λ (z : Session S). z.world) (snd_eq h5))
              shown;
        isolated =
            counters-IsIsolated (events_after old.snapshot.sequence y.snapshot.events) c
              (ap (λ (z : State × ℕ). counters (events_after z.1 z.0.snapshot.events)) pair ∙ k);
      }

  pub counts_seen :
      (s : Session S) (c : Counters) (t : Session S)
      → counts web loads s ≡ (passed c, t)
      → IsCounted web loads c s.world t.world × Adds (wanted counter_command ∷ []) s t
  unfolding counts
  counts_seen s c t h =
      let ((x, before), s1, e1, h1) =
        follow_passed _ (probe_command web loads counter_command.0 counter_command.1 s) c t h in
      (
        subst (IsCounted web loads c s.world) (ap (λ (z : Session S). z.world) (snd_eq h1))
            (probe_command-IsCounted s x before c s1 e1 (fst_eq h1)),
        Adds-kept _ s s s1 t refl (same_kept h1)
            (probe_command-Adds web loads counter_command s (x, before) s1 e1),
      )

  pub finishes_seen :
      (s : Session S) (x : State) (t : Session S)
      → finishes web loads s ≡ (passed x, t)
      → Adds (wanted mem_command ∷ []) s t × (only_init_and_shell x.snapshot.processes ≡ true)
  unfolding finishes
  finishes_seen s x t h =
      let ((y, before), s1, e1, h1) =
        follow_passed _ (probe_command web loads mem_command.0 mem_command.1 s) x t h in
      let (only, h2) = asserted (only_init_and_shell y.snapshot.processes) _ s1 x t h1 in
      (
        Adds-kept _ s s s1 t refl (same_kept h2)
            (probe_command-Adds web loads mem_command s (y, before) s1 e1),
        subst (λ (z : State). only_init_and_shell z.snapshot.processes ≡ true)
            (passed_inj (fst_eq h2)) only,
      )

  pub stops_seen :
      (s : Session S) (x : State) (t : Session S)
      → stops web loads s ≡ (passed x, t)
      → IsRefused web loads x s.world
        × Adds ((codes "stopped", []) ∷ []) s t
        × (is_stopped x.snapshot.status ≡ true)
  unfolding stops
  stops_seen s x t h =
      let stop = request_json web loads 200 (post (codes "/api/stop") no_fields) in
      let q = post (codes "/api/input") (text_body (codes "help\r")) in
      let help = request_json web loads 503 q in
      let (b, s1, e1, h1) = follow_passed _ (within stop s) x t h in
      let (y, s2, e2, h2) = follow_passed _ (within (read_state web loads) s1) x t h1 in
      let (ended, h3) = asserted (is_stopped y.snapshot.status) _ s2 x t h2 in
      let (u, s3, e3, h4) = follow_passed _ (keep (codes "stopped") y [] s2) x t h3 in
      let (c, s4, e4, h5) = follow_passed _ (within help s3) x t h4 in
      let (stop_content, asks, of_stop) =
        request_json-Answered web loads 200 (post (codes "/api/stop") no_fields) s.world b s1.world
          (within-world stop s b s1 e1) in
      let (content, answered, of_body) =
        request_json-Answered web loads 503 q s3.world c s4.world (within-world help s3 c s4 e4) in
      (
        subst (λ z. IsRefused web loads z s.world) (passed_inj (fst_eq h5))
            record {
              asked_at = s1.world;
              stop_content = stop_content;
              asks = asks;
              before = s3.world;
              read =
                  within-world (read_state web loads) s1 y s2 e2
                  ∙ ap (λ z. (passed y, z)) (keep-world (codes "stopped") y [] s2 u s3 e3);
              after = s4.world;
              content = content;
              answered = answered;
            },
        Adds-kept _ s s2 s3 t
            (within-kept (read_state web loads) s1 y s2 e2 ∙ within-kept stop s b s1 e1)
            (same_kept h5 ∙ within-kept help s3 c s4 e4)
            (keep-Adds (codes "stopped") y [] [] s2 u s3 e3 refl),
        subst (λ (z : State). is_stopped z.snapshot.status ≡ true) (passed_inj (fst_eq h5)) ended,
      )

  pub restarts_seen :
      (initial : State) (s : Session S) (x : State) (t : Session S)
      → restarts web loads initial s ≡ (passed x, t)
      → Adds ((codes "restarted-fresh", []) ∷ []) s t × IsFresh initial x
  unfolding restarts
  restarts_seen initial s x t h =
      let again = request_json web loads 200 (post (codes "/api/restart") no_fields) in
      let (b, s1, e1, h1) = follow_passed _ (within again s) x t h in
      let (y, s2, e2, h2) = follow_passed _ (within (read_state web loads) s1) x t h1 in
      let (both, h3) =
        asserted (is_running y.snapshot.status && not (text_eq y.epoch initial.epoch)) _ s2 x t
          h2 in
      let (forgets, h4) =
        asserted (not (contains (codes "hello from ramfs") y.snapshot.console)) _ s2 x t h3 in
      let (pids, h5) = asserted (only_first_pids y.snapshot.processes) _ s2 x t h4 in
      let (u, s3, e3, h6) = follow_passed _ (keep (codes "restarted-fresh") y [] s2) x t h5 in
      let (runs, differs) = and_true both in
      (
        Adds-kept _ s s2 s3 t
            (within-kept (read_state web loads) s1 y s2 e2 ∙ within-kept again s b s1 e1)
            (same_kept h6) (keep-Adds (codes "restarted-fresh") y [] [] s2 u s3 e3 refl),
        subst (IsFresh initial) (passed_inj (fst_eq h6)) record {
          running = runs;
          renewed = negated differs;
          forgotten = negated forgets;
          pids = pids;
        },
      )
