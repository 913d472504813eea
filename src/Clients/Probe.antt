-- ===== src/Clients/Probe.antt =====
-- docs/evidence/experience-regression/desktop/desktop-http-probe.py: a session over HTTP with a
-- packaged laboratory.
pub mod Kept
pub mod Parts
pub mod Witnessed
use mini_linux.Prelude.{
  ℕ, zero, suc, Bool, true, false, not, ◌&&◌, List, [], ◌∷◌, ◌++◌, if◌then◌else◌, length,
}
use mini_linux.Prelude.Text.{Text, codes, text_eq, contains}
use mini_linux.Prelude.Exec.{Result}
use mini_linux.Guest.Session.{is_running}
use mini_linux.Guest.{Status, stopped}
use mini_linux.Guest.Trace.Log.{events_after}
use mini_linux.Server.{Body, State}
use mini_linux.Checks.{Verdict, passed, only_init_and_shell}
use mini_linux.Checks.Steps.{Step, ◌>>=◌, ◌>>◌, judge, reads}
use mini_linux.Checks.Userland.{Counters, counters}
use mini_linux.Clients.{
  Web, get, post, text_body, no_fields, asserts, new_text, is_prompted, only_first_pids, request,
  request_json, read_state,
}

-- one entry of `results`: the output only where a command was run
pub record Entry : Type 0 where
  pub label : Text
  pub state : State
  pub output : Text

-- The world, and what the output file holds.
pub record Session (S : Type 0) : Type 0 where
  pub world : S
  pub kept : List Entry

abbrev pub is_stopped : Status → Bool
is_stopped stopped = true
is_stopped _ = false

-- a command, and what its output has
abbrev pub probe_commands : List (Text × Text)
probe_commands =
    (codes "help", codes "help | ls | cat")
    ∷ (codes "ls", codes "/hello.txt  17 bytes")
    ∷ (codes "cat hello.txt", codes "hello from ramfs")
    ∷ (codes "ps", codes "shell")
    ∷ (codes "run hello", codes "hello from user mode")
    ∷ (codes "run reader", codes "hello from ramfs")
    ∷ []

abbrev pub late_commands : List (Text × Text)
late_commands =
    (codes "run fault", codes "status 142")
    ∷ (codes "cat hello.txt", codes "hello from ramfs")
    ∷ (codes "check", codes "process capacity and reclamation passed")
    ∷ []

-- What a session that passes has seen.
pub record Probed : Type 0 where
  pub initial : State
  pub counted : Counters
  pub finished : State
  pub ended : State
  pub fresh : State

module _ {S : Type 0} where
  abbrev put_world : List Entry → {A : Type 0} → Verdict A × S → Verdict A × Session S
  put_world kept (v, s) = (v, record { world = s; kept = kept })

  -- a step of the world
  abbrev pub within : {A : Type 0} → Step S A → Step (Session S) A
  within m s = put_world s.kept (m s.world)

  -- `keep`
  unfoldable pub keep : Text → State → Text → Step (Session S) (Unit {0})
  keep label x output s = (
    passed tt,
    record s { kept = s.kept ++ record { label = label; state = x; output = output } ∷ [] },
  )

module _ {S : Type 0} (web : Web S) (loads : List ℕ → Result Body) where
  -- the loop of `command`: with `n` more rounds, the clock is before the deadline
  unfoldable pub await_output : ℕ → ℕ → Step S State
  await_output zero offset = do
    x ← read_state web loads
    if is_prompted offset x then judge (passed x) else do
      judge (asserts (is_running x.snapshot.status))
      judge (asserts false)
      judge (passed x)
  await_output (suc n) offset = do
    x ← read_state web loads
    if is_prompted offset x
        then judge (passed x)
        else do judge (asserts (is_running x.snapshot.status)); await_output n offset

  -- `command`: the state and the sequence number before
  unfoldable pub probe_command : Text → Text → Step (Session S) (State × ℕ)
  probe_command text expected = do
    old ← within (read_state web loads)
    within (request_json web loads 200 (post (codes "/api/input") (text_body (text ++ 13 ∷ []))))
    n ← reads (λ s. web.rounds s.world)
    x ← within (await_output n (length old.snapshot.console))
    judge (asserts (contains expected (new_text (length old.snapshot.console) x)))
    keep text x (new_text (length old.snapshot.console) x)
    judge (passed (x, old.snapshot.sequence))

  unfoldable pub probe_all : List (Text × Text) → Step (Session S) (Unit {0})
  probe_all [] = judge (passed tt)
  probe_all ((text, expected) ∷ more) = do probe_command text expected; probe_all more

  -- lines 42 to 45
  unfoldable pub opens : Step (Session S) State
  opens = do
    page ← within (request web loads 200 (get (codes "/")))
    judge (asserts (contains (codes "MiniLinux Console") page))
    initial ← within (read_state web loads)
    judge (asserts (is_running initial.snapshot.status))
    keep (codes "initial") initial []
    judge (passed initial)

  -- lines 52 to 60; an empty list of markers, whose [-1] raises here, is a failed assertion
  unfoldable pub counts : Step (Session S) Counters
  counts = do
    (x, before) ← probe_command (codes "run counter-a counter-b") (codes "counter-b")
    judge (counters (events_after before x.snapshot.events))

  -- lines 64 and 65
  unfoldable pub finishes : Step (Session S) State
  finishes = do
    (x, before) ← probe_command (codes "mem") (codes "free")
    judge (asserts (only_init_and_shell x.snapshot.processes))
    judge (passed x)

  -- lines 66 to 70
  unfoldable pub stops : Step (Session S) State
  stops = do
    within (request_json web loads 200 (post (codes "/api/stop") no_fields))
    x ← within (read_state web loads)
    judge (asserts (is_stopped x.snapshot.status))
    keep (codes "stopped") x []
    within (request_json web loads 503 (post (codes "/api/input") (text_body (codes "help\r"))))
    judge (passed x)

  -- lines 71 to 76
  unfoldable pub restarts : State → Step (Session S) State
  restarts initial = do
    within (request_json web loads 200 (post (codes "/api/restart") no_fields))
    x ← within (read_state web loads)
    judge (asserts (is_running x.snapshot.status && not (text_eq x.epoch initial.epoch)))
    judge (asserts (not (contains (codes "hello from ramfs") x.snapshot.console)))
    judge (asserts (only_first_pids x.snapshot.processes))
    keep (codes "restarted-fresh") x []
    judge (passed x)

  unfoldable pub probe : Step (Session S) Probed
  probe = do
    initial ← opens
    probe_all probe_commands
    counted ← counts
    probe_all late_commands
    finished ← finishes
    ended ← stops
    fresh ← restarts initial
    judge (
        passed record {
          initial = initial;
          counted = counted;
          finished = finished;
          ended = ended;
          fresh = fresh;
        })
