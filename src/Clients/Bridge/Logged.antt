-- ===== src/Clients/Bridge/Logged.antt =====
-- The requests of tools/test-lab-bridge.py that pass, and its results.
use mathlib.Core.Path.{subst}
use mini_linux.Prelude.{ℕ, ◌≡◌, sym, ap, ◌∙◌, List, [], ◌∷◌, ◌++◌, append-nil, append_assoc}
use mini_linux.Prelude.Text.{Text, codes}
use mini_linux.Prelude.Exec.{Result}
use mini_linux.Server.{Body, State}
use mini_linux.Checks.{Verdict, passed}
use mini_linux.Checks.Search.{passed_inj}
use mini_linux.Checks.Steps.{Step, judge}
use mini_linux.Checks.Steps.Passing.{follow_passed, fst_eq, snd_eq}
use mini_linux.Clients.{Query, Web, get, request}
use mini_linux.Clients.Passing.{Answered, request-Answered}
use mini_linux.Clients.Bridge.{
  Bench, Run, refusals, on_world, ask_bridge, ask_json, well_formed, ask_all, ask_state, note_guest,
}

-- the paths and statuses of requests
abbrev pub paths : List (ℕ × Query) → List (Text × ℕ)
paths [] = []
paths ((expected, q) ∷ qs) = (q.target, expected) ∷ paths qs

abbrev pub state_read : Text × ℕ
state_read = (codes "/api/state", 200)

-- the entries of bridge-results.json
abbrev pub bridge_results : List (Text × ℕ)
bridge_results =
    ((codes "/", 200) ∷ state_read ∷ [])
    ++ (paths refusals
        ++ (((codes "/api/input", 200) ∷ state_read ∷ [])
            ++ (((codes "/api/stop", 200) ∷ state_read ∷ (codes "/api/input", 503) ∷ [])
                ++ ((codes "/api/restart", 200) ∷ state_read ∷ []))))

module _ {S : Type 0} where
  -- Between the two states these requests were entered into the results.
  abbrev pub Logs : List (Text × ℕ) → Run S → Run S → Type 0
  Logs ps r t = t.results ≡ r.results ++ ps

  pub Logs-trans :
      (ps qs : List (Text × ℕ)) (r s t : Run S) → Logs ps r s → Logs qs s t → Logs (ps ++ qs) r t
  Logs-trans ps qs r s t h k = k ∙ ap (λ es. es ++ qs) h ∙ append_assoc r.results ps qs

  Logs-none : (r t : Run S) → t.results ≡ r.results → Logs [] r t
  Logs-none r t h = h ∙ sym (append-nil r.results)

  pub on_world-results :
      {A : Type 0} (m : Step S A) (r : Run S) (a : A) (t : Run S)
      → on_world m r ≡ (passed a, t)
      → t.results ≡ r.results
  on_world-results m r a t h = ap (λ (u : Run S). u.results) (sym (snd_eq h))

  pub same_results :
      {A : Type 0} {v b : Verdict A} {r t : Run S} → judge v r ≡ (b, t) → t.results ≡ r.results
  same_results h = ap (λ (u : Run S). u.results) (sym (snd_eq h))

  -- Each request of the list in turn was answered with its status.
  pub data AllAnswered (web : Web S) : List (ℕ × Query) → S → S → Type 0 where
    none_left : (s : S) → AllAnswered web [] s s
    one_more :
        {qs : List (ℕ × Query)} {s t u : S} (expected : ℕ) (q : Query) (content : List ℕ)
        → Answered web expected q s t content
        → AllAnswered web qs t u
        → AllAnswered web ((expected, q) ∷ qs) s u

module _ {S : Type 0} (bench : Bench S) (loads : List ℕ → Result Body) where
  pub ask_bridge_seen :
      (expected : ℕ) (q : Query) (r : Run S) (content : List ℕ) (t : Run S)
      → ask_bridge bench loads expected q r ≡ (passed content, t)
      → Answered bench.web expected q r.world t.world content × Logs ((q.target, expected) ∷ []) r t
  unfolding ask_bridge
  ask_bridge_seen expected q r content t h =
      let m = request bench.web loads expected q in
      let (c, s1, e1, h1) = follow_passed _ (on_world m r) content t h in
      let moved : t.world ≡ s1.world = ap (λ (v : Run S). v.world) (sym (snd_eq h1)) in
      (
        subst (λ w. Answered bench.web expected q r.world w content) (sym moved)
            (request-Answered bench.web loads expected q r.world content s1.world (
              ap (λ (v : Verdict _ × Run S). (v.0, v.1.world)) e1
              ∙ ap (λ z. (passed z, s1.world)) (passed_inj (fst_eq h1)))),
        ap (λ (v : Run S). v.results) (sym (snd_eq h1))
            ∙ ap (λ es. es ++ (q.target, expected) ∷ []) (on_world-results m r c s1 e1),
      )

  pub ask_json-Logs :
      (expected : ℕ) (q : Query) (r : Run S) (body : Body) (t : Run S)
      → ask_json bench loads expected q r ≡ (passed body, t)
      → Logs ((q.target, expected) ∷ []) r t
  unfolding ask_json
  ask_json-Logs expected q r body t h =
      let (c, s1, e1, h1) = follow_passed _ (ask_bridge bench loads expected q r) body t h in
      same_results h1 ∙ (ask_bridge_seen expected q r c s1 e1).1

  pub ask_state-Logs :
      (r : Run S) (x : State) (t : Run S)
      → ask_state bench loads r ≡ (passed x, t)
      → Logs (state_read ∷ []) r t
  unfolding ask_state
  ask_state-Logs r x t h =
      let q = get (codes "/api/state") in
      let (b, s1, e1, h1) = follow_passed _ (ask_json bench loads 200 q r) x t h in
      same_results h1 ∙ ask_json-Logs 200 q r b s1 e1

  pub note_guest-results :
      (r : Run S) (u : Unit {0}) (t : Run S)
      → note_guest bench loads r ≡ (passed u, t)
      → t.results ≡ r.results
  unfolding note_guest
  note_guest-results r u t h = ap (λ (v : Run S). v.results) (sym (snd_eq h))

  pub ask_all_seen :
      (qs : List (ℕ × Query)) (r : Run S) (u : Unit {0}) (t : Run S)
      → ask_all bench loads qs r ≡ (passed u, t)
      → AllAnswered bench.web qs r.world t.world × Logs (paths qs) r t
  unfolding ask_all
  ask_all_seen [] r u t h = (
    subst (AllAnswered bench.web [] r.world) (ap (λ (v : Run S). v.world) (snd_eq h))
        (none_left r.world),
    Logs-none r t (same_results h),
  )
  ask_all_seen ((expected, q) ∷ qs) r u t h =
      let (c, s1, e1, h1) = follow_passed _ (ask_bridge bench loads expected q r) u t h in
      let (v, s2, e2, h2) =
        follow_passed _ (judge (well_formed bench loads q.target c) s1) u t h1 in
      let (one, logs) = ask_bridge_seen expected q r c s1 e1 in
      let same : s2.world ≡ s1.world = ap (λ (z : Run S). z.world) (sym (snd_eq e2)) in
      let (rest, more) = ask_all_seen qs s2 u t h2 in
      (
        one_more expected q c one (subst (λ w. AllAnswered bench.web qs w t.world) same rest),
        Logs-trans ((q.target, expected) ∷ []) (paths qs) r s2 t (same_results e2 ∙ logs) more,
      )
