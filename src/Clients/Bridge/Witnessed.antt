-- ===== src/Clients/Bridge/Witnessed.antt =====
-- What a run of tools/test-lab-bridge.py that passes has seen.
use mathlib.Core.Path.{subst}
use mini_linux.Prelude.{ℕ, ◌≡◌, ap, ◌∙◌, true, not, ◌&&◌, List, [], ◌∷◌, ◌++◌, append_assoc}
use mini_linux.Prelude.Text.{codes, text_eq, contains}
use mini_linux.Prelude.Exec.{Result}
use mini_linux.Guest.{Event}
use mini_linux.Guest.Session.{is_running}
use mini_linux.Server.{Body, State}
use mini_linux.Checks.{passed, exists}
use mini_linux.Checks.Search.{passed_inj, and_true, Among, exists-Among}
use mini_linux.Checks.Steps.{ask, judge}
use mini_linux.Checks.Steps.Passing.{follow_passed, fst_eq, negated}
use mini_linux.Clients.{Query, Web, get, post, text_body, no_fields, only_first_pids}
use mini_linux.Clients.Passing.{asserted}
use mini_linux.Clients.Probe.{is_stopped}
use mini_linux.Clients.Probe.Parts.{IsFresh}
use mini_linux.Clients.Bridge.{
  Bench, Run, refusals, is_open_call, on_world, ask_bridge, ask_json, ask_state, note_guest, starts,
  reads_file, stops, restarts,
}
use mini_linux.Clients.Bridge.Logged.{
  state_read, bridge_results, Logs, Logs-trans, on_world-results, same_results, AllAnswered,
  ask_bridge_seen, ask_json-Logs, ask_state-Logs, note_guest-results, ask_all_seen,
}

-- A record of the system call `open`.
abbrev pub HasOpened : State → Type 0
HasOpened x = (e : Event) × Among e x.snapshot.events × (is_open_call e ≡ passed true)

-- These requests were answered with their statuses, one after the other.
pub record AreAnswered {S : Type 0} (web : Web S) (qs : List (ℕ × Query)) : Type 0 where
  pub before : S
  pub after : S
  pub answered : AllAnswered web qs before after

abbrev pub late_input : List (ℕ × Query)
late_input = (503, post (codes "/api/input") (text_body (codes "help\r"))) ∷ []

module _ {S : Type 0} (bench : Bench S) (loads : List ℕ → Result Body) where
  pub starts_seen :
      (r : Run S) (x : State) (t : Run S)
      → starts bench loads r ≡ (passed x, t)
      → Logs ((codes "/", 200) ∷ state_read ∷ []) r t × (is_running x.snapshot.status ≡ true)
  unfolding starts
  starts_seen r x t h =
      let (a, s1, e1, h1) = follow_passed _ (on_world (ask bench.restart) r) x t h in
      let (b, s2, e2, h2) = follow_passed _ (note_guest bench loads s1) x t h1 in
      let s3 = record s2 { serving = true } in
      let (d, s4, e4, h4) = follow_passed _ (on_world (ask bench.serve) s3) x t h2 in
      let q = get (codes "/") in
      let (page, s5, e5, h5) = follow_passed _ (ask_bridge bench loads 200 q s4) x t h4 in
      let (shown, h6) = asserted (contains (codes "MiniLinux Console") page) _ s5 x t h5 in
      let (y, s6, e6, h7) = follow_passed _ (ask_state bench loads s5) x t h6 in
      let (runs, h8) = asserted (is_running y.snapshot.status) _ s6 x t h7 in
      let asked = (ask_bridge_seen bench loads 200 q s4 page s5 e5).1 in
      let before =
        on_world-results (ask bench.serve) s3 d s4 e4
        ∙ note_guest-results bench loads s1 b s2 e2
        ∙ on_world-results (ask bench.restart) r a s1 e1 in
      (
        same_results h8
            ∙ ask_state-Logs bench loads s5 y s6 e6
            ∙ ap (λ es. es ++ state_read ∷ [])
                (asked ∙ ap (λ es. es ++ (codes "/", 200) ∷ []) before)
            ∙ append_assoc r.results ((codes "/", 200) ∷ []) (state_read ∷ []),
        subst (λ (z : State). is_running z.snapshot.status ≡ true) (passed_inj (fst_eq h8)) runs,
      )

  pub reads_file_seen :
      (r : Run S) (x : State) (t : Run S)
      → reads_file bench loads r ≡ (passed x, t)
      → Logs ((codes "/api/input", 200) ∷ state_read ∷ []) r t × HasOpened x
  unfolding reads_file
  reads_file_seen r x t h =
      let q = post (codes "/api/input") (text_body (codes "cat hello.txt\r")) in
      let (a, s1, e1, h1) = follow_passed _ (ask_json bench loads 200 q r) x t h in
      let waits = ask (bench.wait_for_text (codes "hello from ramfs")) in
      let (b, s2, e2, h2) = follow_passed _ (on_world waits s1) x t h1 in
      let (y, s3, e3, h3) = follow_passed _ (ask_state bench loads s2) x t h2 in
      let (found, s4, e4, h4) =
        follow_passed _ (judge (exists is_open_call y.snapshot.events) s3) x t h3 in
      let (yes_, h5) = asserted found _ s4 x t h4 in
      (
        same_results h5
            ∙ same_results e4
            ∙ ask_state-Logs bench loads s2 y s3 e3
            ∙ ap (λ es. es ++ state_read ∷ [])
                (on_world-results waits s1 b s2 e2 ∙ ask_json-Logs bench loads 200 q r a s1 e1)
            ∙ append_assoc r.results ((codes "/api/input", 200) ∷ []) (state_read ∷ []),
        subst HasOpened (passed_inj (fst_eq h5))
            (exists-Among is_open_call y.snapshot.events (fst_eq e4 ∙ ap passed yes_)),
      )

  pub stops_seen :
      (r : Run S) (u : Unit {0}) (t : Run S)
      → stops bench loads r ≡ (passed u, t)
      → Logs ((codes "/api/stop", 200) ∷ state_read ∷ (codes "/api/input", 503) ∷ []) r t
        × AreAnswered bench.web late_input
  unfolding stops
  stops_seen r u t h =
      let q = post (codes "/api/stop") no_fields in
      let (a, s1, e1, h1) = follow_passed _ (ask_json bench loads 200 q r) u t h in
      let (ended, h2) = asserted (bench.has_ended (bench.guest s1.world) s1.world) _ s1 u t h1 in
      let (x, s2, e2, h3) = follow_passed _ (ask_state bench loads s1) u t h2 in
      let (stopped, h4) = asserted (is_stopped x.snapshot.status) _ s2 u t h3 in
      let (answered, last) = ask_all_seen bench loads late_input s2 u t h4 in
      (
        Logs-trans ((codes "/api/stop", 200) ∷ []) (state_read ∷ (codes "/api/input", 503) ∷ []) r
            s1 t (ask_json-Logs bench loads 200 q r a s1 e1)
            (Logs-trans (state_read ∷ []) ((codes "/api/input", 503) ∷ []) s1 s2 t
              (ask_state-Logs bench loads s1 x s2 e2) last),
        record { before = s2.world; after = t.world; answered = answered },
      )

  pub restarts_seen :
      (initial : State) (r : Run S) (x : State) (t : Run S)
      → restarts bench loads initial r ≡ (passed x, t)
      → Logs ((codes "/api/restart", 200) ∷ state_read ∷ []) r t × IsFresh initial x
  unfolding restarts
  restarts_seen initial r x t h =
      let q = post (codes "/api/restart") no_fields in
      let (a, s1, e1, h1) = follow_passed _ (ask_json bench loads 200 q r) x t h in
      let (b, s2, e2, h2) = follow_passed _ (note_guest bench loads s1) x t h1 in
      let (y, s3, e3, h3) = follow_passed _ (ask_state bench loads s2) x t h2 in
      let (both, h4) =
        asserted (not (text_eq y.epoch initial.epoch) && is_running y.snapshot.status) _ s3 x t
          h3 in
      let (forgets, h5) =
        asserted (not (contains (codes "hello from ramfs") y.snapshot.console)) _ s3 x t h4 in
      let (pids, h6) = asserted (only_first_pids y.snapshot.processes) _ s3 x t h5 in
      let (differs, runs) = and_true both in
      (
        same_results h6
            ∙ ask_state-Logs bench loads s2 y s3 e3
            ∙ ap (λ es. es ++ state_read ∷ [])
                (note_guest-results bench loads s1 b s2 e2
                  ∙ ask_json-Logs bench loads 200 q r a s1 e1)
            ∙ append_assoc r.results ((codes "/api/restart", 200) ∷ []) (state_read ∷ []),
        subst (IsFresh initial) (passed_inj (fst_eq h6)) record {
          running = runs;
          renewed = negated differs;
          forgotten = negated forgets;
          pids = pids;
        },
      )

-- What the `try` of a run that passes has seen, and what it has entered into its results.
pub record IsTried {S : Type 0} (bench : Bench S) (r t : Run S) (initial read later : State)
    : Type 0 where
  pub running : is_running initial.snapshot.status ≡ true
  pub refused : AreAnswered bench.web refusals
  pub opened : HasOpened read
  pub stopped : AreAnswered bench.web late_input
  pub fresh : IsFresh initial later
  pub results : Logs bridge_results r t
