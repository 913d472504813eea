-- ===== src/Clients/Bridge.antt =====
-- `main` of tools/test-lab-bridge.py, behind the creation of the server: the bridge in the same
-- process, over HTTP and through its laboratory.
pub mod Logged
pub mod Witnessed
pub mod Ends
pub mod Refused
pub mod Handler
use mini_linux.Prelude.{
  ℕ, Bool, true, false, not, ◌&&◌, List, [], ◌∷◌, ◌++◌, Option, none, some, all, if◌then◌else◌,
}
use mini_linux.Prelude.Text.{Text, codes, text_eq, starts_with, contains}
use mini_linux.Prelude.Exec.{Result, Exec}
use mini_linux.Guest.{Event}
use mini_linux.Guest.Session.{is_running}
use mini_linux.Server.{Json, array, nil, Body, State}
use mini_linux.Checks.{Verdict, passed, failed, from, holds, text_at, is_kind, and_then, exists}
use mini_linux.Checks
use mini_linux.Checks.Steps.{Step, ◌>>=◌, ◌>>◌, ask, judge, reads}
use mini_linux.Checks.Userland.Shell.{repeat}
use mini_linux.Clients.{
  Query, Web, get, post, text_body, no_fields, asserts, state_of, only_first_pids, request,
}
use mini_linux.Clients.Probe.{is_stopped}

-- The server and its laboratory, over the state `S` of the world: `lab.restart`, `lab.close`, which
-- guest `lab.guest` is, whether `poll` finds the child of a guest ended, `lab.guest.wait_for` for a
-- text of the console, and the calls of the server.
pub record Bench (S : Type 0) : Type 0 where
  pub web : Web S
  pub restart : Exec S (Unit {0})
  pub close : Exec S (Unit {0})
  pub guest : S → ℕ
  pub has_ended : ℕ → S → Bool
  pub wait_for_text : Text → Exec S (Unit {0})
  pub serve : Exec S (Unit {0})
  pub shutdown : Exec S (Unit {0})
  pub server_close : Exec S (Unit {0})

-- The world, and the variables `guests`, `results` and `thread`.
pub record Run (S : Type 0) : Type 0 where
  pub world : S
  pub guests : List ℕ
  pub results : List (Text × ℕ)
  pub serving : Bool

-- the requests that the bridge must refuse, with the statuses
abbrev pub refusals : List (ℕ × Query)
refusals =
    (400, get (codes "/api/state?after=invalid"))
    ∷ (404, get (codes "/../README.md"))
    ∷ (403, record (get (codes "/api/state")) { host = some (codes "outside.example") })
    ∷ (
      403,
      record (post (codes "/api/input") (text_body (codes "help\r"))) {
        origin = some (codes "http://outside.example");
      },
    )
    ∷ (400, post (codes "/api/input") (array nil))
    ∷ (400, post (codes "/api/input") (text_body (repeat b'x' 257)))
    ∷ (400, post (codes "/api/input") (text_body (0x4f60 ∷ 0x597d ∷ [])))
    ∷ []

-- `e["kind"] == "syscall" and e["fields"][1] == "6"`
abbrev pub is_open_call : Event → Verdict Bool
is_open_call e =
    and_then (is_kind (codes "syscall") e)
      (Checks.◌>>=◌ (text_at 1 e) (λ f. passed (text_eq f (codes "6"))))

module _ {S : Type 0} where
  abbrev put_world : Run S → {A : Type 0} → Verdict A × S → Verdict A × Run S
  put_world r (v, s) = (v, record r { world = s })

  -- a step of the world
  abbrev pub on_world : {A : Type 0} → Step S A → Step (Run S) A
  on_world m r = put_world r (m r.world)

  -- `results.append(…)`
  abbrev pub add_result : Text → ℕ → Step (Run S) (Unit {0})
  add_result path status r = (passed tt, record r { results = r.results ++ (path, status) ∷ [] })

  abbrev add_guest : ℕ → Step (Run S) (Unit {0})
  add_guest g r = (passed tt, record r { guests = r.guests ++ g ∷ [] })

  abbrev set_serving : Step (Run S) (Unit {0})
  set_serving r = (passed tt, record r { serving = true })

module _ {S : Type 0} (bench : Bench S) (loads : List ℕ → Result Body) where
  -- `request`, up to the answer's bytes
  unfoldable pub ask_bridge : ℕ → Query → Step (Run S) (List ℕ)
  ask_bridge expected q = do
    content ← on_world (request bench.web loads expected q)
    add_result q.target expected
    judge (passed content)

  unfoldable pub ask_json : ℕ → Query → Step (Run S) Body
  ask_json expected q = do content ← ask_bridge expected q; judge (from (loads content))

  abbrev ignore : Verdict Body → Verdict (Unit {0})
  ignore (passed body) = passed tt
  ignore (failed e) = failed e

  -- an answer that is not looked at: below /api/ it must be JSON
  abbrev pub well_formed : Text → List ℕ → Verdict (Unit {0})
  well_formed path content = elim (starts_with (codes "/api/") path) [
    | true ↦ ignore (from (loads content))
    | false ↦ passed tt
  ]

  unfoldable pub ask_all : List (ℕ × Query) → Step (Run S) (Unit {0})
  ask_all [] = judge (passed tt)
  ask_all ((expected, q) ∷ more) = do
    content ← ask_bridge expected q
    judge (well_formed q.target content)
    ask_all more

  unfoldable pub ask_state : Step (Run S) State
  ask_state = do body ← ask_json 200 (get (codes "/api/state")); judge (state_of body)

  -- `guests.append(lab.guest)`
  unfoldable pub note_guest : Step (Run S) (Unit {0})
  note_guest = do g ← reads (λ r. bench.guest r.world); add_guest g

  -- lines 40 to 46
  unfoldable pub starts : Step (Run S) State
  starts = do
    on_world (ask bench.restart)
    note_guest
    set_serving
    on_world (ask bench.serve)
    page ← ask_bridge 200 (get (codes "/"))
    judge (asserts (contains (codes "MiniLinux Console") page))
    initial ← ask_state
    judge (asserts (is_running initial.snapshot.status))
    judge (passed initial)

  -- lines 54 to 57
  unfoldable pub reads_file : Step (Run S) State
  reads_file = do
    ask_json 200 (post (codes "/api/input") (text_body (codes "cat hello.txt\r")))
    on_world (ask (bench.wait_for_text (codes "hello from ramfs")))
    x ← ask_state
    opened ← judge (exists is_open_call x.snapshot.events)
    judge (asserts opened)
    judge (passed x)

  -- lines 58 to 61
  unfoldable pub stops : Step (Run S) (Unit {0})
  stops = do
    ask_json 200 (post (codes "/api/stop") no_fields)
    ended ← reads (λ r. bench.has_ended (bench.guest r.world) r.world)
    judge (asserts ended)
    x ← ask_state
    judge (asserts (is_stopped x.snapshot.status))
    ask_all ((503, post (codes "/api/input") (text_body (codes "help\r"))) ∷ [])

  -- lines 62 to 67
  unfoldable pub restarts : State → Step (Run S) State
  restarts initial = do
    ask_json 200 (post (codes "/api/restart") no_fields)
    note_guest
    x ← ask_state
    judge (asserts (not (text_eq x.epoch initial.epoch) && is_running x.snapshot.status))
    judge (asserts (not (contains (codes "hello from ramfs") x.snapshot.console)))
    judge (asserts (only_first_pids x.snapshot.processes))
    judge (passed x)

  -- the `try`: the states at the start, behind `cat hello.txt` and behind the restart
  unfoldable pub try_bridge : Step (Run S) (State × (State × State))
  try_bridge = do
    initial ← starts
    ask_all refusals
    read ← reads_file
    stops
    fresh ← restarts initial
    judge (passed (initial, (read, fresh)))

  unfoldable pub stop_serving : Bool → Step (Run S) (Unit {0})
  stop_serving true = on_world (ask bench.shutdown)
  stop_serving false = judge (passed tt)

  -- with its `finally`
  unfoldable pub bridge_test : Step (Run S) (State × (State × State))
  bridge_test r =
      let (outcome, t) = try_bridge r in
      (do
        stop_serving t.serving
        on_world (ask bench.server_close)
        on_world (ask bench.close)
        ended ← reads (λ u. all (λ g. bench.has_ended g u.world) u.guests)
        judge (asserts ended)
        judge outcome)
        t
