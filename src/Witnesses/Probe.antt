-- ===== src/Witnesses/Probe.antt =====
-- The theorems of Clients at concrete inputs: a small bridge, with a guest that answers every input
-- with one text.
use mini_linux.Prelude.{
  ℕ, zero, ◌+◌, Bool, true, false, ◌&&◌, List, [], ◌∷◌, ◌++◌, Option, none, some, ◌==◌,
  if◌then◌else◌,
}
use mini_linux.Prelude.Text.{Text, codes, text_eq}
use mini_linux.Prelude.Int.{pos}
use mini_linux.Prelude.Exec.{Result, ok}
use mini_linux.Guest.{Process, Status, running, stopped}
use mini_linux.Server.{Json, object, is_value_error, Body, okay, state, State}
use mini_linux.Server.Post.{get_text, terminal_text}
use mini_linux.Clients.{Query, Reply, Web}
use mini_linux.Clients.Probe.{Session, Probed}
use mini_linux.Clients.Bridge
use mini_linux.Clients.Bridge.{Bench, Run}
use mini_linux.Clients.Bridge.Ends.{Shown}
use mini_linux.Witnesses.Checks.{record_of, shell_process, seen, both_counters, answer}

-- The guest has been started `epoch` times, or is stopped; `typed`: it has input to answer.
pub record World : Type 0 where
  pub epoch : ℕ
  pub is_stopped : Bool
  pub typed : Bool

abbrev flag : Bool → ℕ
flag true = 1
flag false = 0

abbrev reply : ℕ → List ℕ → Reply
reply status content = record { status = status; content = content }

abbrev input_status : Json → World → ℕ
input_status (object fs) w =
    if is_value_error (terminal_text (get_text fs)) then 400 else if w.is_stopped then 503 else 200
input_status _ w = 400

abbrev operated : Json → Text → World → Reply × World
operated body target w =
    if text_eq target (codes "/api/input")
    then (
      reply (input_status body w) [],
      if input_status body w == 200 then record w { typed = true } else w,
    )
    else if text_eq target (codes "/api/stop")
    then (reply 200 [], record w { is_stopped = true })
    else (reply 200 [], record { epoch = w.epoch + 1; is_stopped = false; typed = false })

abbrev answered : Option Json → Text → World → Reply × World
answered (some body) target w = operated body target w
answered none target w =
    if text_eq target (codes "/")
    then (reply 200 (codes "<title>MiniLinux Console</title>"), w)
    else if text_eq target (codes "/api/state?after=invalid")
    then (reply 400 [], w)
    else if text_eq target (codes "/../README.md")
    then (reply 404 [], w)
    else (reply 200 (w.epoch ∷ flag w.is_stopped ∷ flag w.typed ∷ []), record w { typed = false })

abbrev allowed : Option Text → Bool
allowed none = true
allowed (some name) = false

abbrev served : Query → World → Reply × World
served q w =
    if allowed q.host && allowed q.origin then answered q.body q.target w else (reply 403 [], w)

abbrev small_web : Web World
small_web = record { urlopen = λ q w. (ok (served q w).0, (served q w).1); rounds = λ w. 3 }

abbrev status_of : ℕ → Status
status_of zero = running
status_of _ = stopped

abbrev console_of : ℕ → Text
console_of zero = []
console_of _ = answer ++ codes " shell free mini$ "

abbrev processes : List Process
processes =
    record (shell_process (codes "init")) { pid = pos 1 }
    ∷ record (shell_process (codes "shell")) { pid = pos 2 }
    ∷ []

abbrev state_at : ℕ → ℕ → ℕ → State
state_at epoch is_stopped typed = record {
  snapshot = record seen {
    status = status_of is_stopped;
    console = console_of typed;
    processes = processes;
  };
  epoch = epoch ∷ [];
  guest_memory = 64;
}

abbrev loads : List ℕ → Result Body
loads (e ∷ s ∷ t ∷ []) = ok (state (state_at e s t))
loads _ = ok okay

abbrev begun : Session World
begun = record { world = record { epoch = 1; is_stopped = false; typed = false }; kept = [] }

abbrev probed : Probed
probed = record {
  initial = state_at 1 0 0;
  counted = both_counters;
  finished = state_at 1 0 1;
  ended = state_at 1 1 0;
  fresh = state_at 2 0 0;
}

abbrev small_bench : Bench World
small_bench = record {
  web = small_web;
  restart = λ w. (ok tt, record { epoch = w.epoch + 1; is_stopped = false; typed = false });
  close = λ w. (ok tt, record w { is_stopped = true });
  guest = λ w. w.epoch;
  has_ended = λ g w. if g == w.epoch then w.is_stopped else true;
  wait_for_text = λ text w. (ok tt, w);
  serve = λ w. (ok tt, w);
  shutdown = λ w. (ok tt, w);
  server_close = λ w. (ok tt, w);
}

abbrev started : Run World
started = record {
  world = record { epoch = 0; is_stopped = true; typed = false };
  guests = [];
  results = [];
  serving = false;
}

-- the record of the call that opens the file
abbrev with_open : State → State
with_open x = record x {
  snapshot = record x.snapshot {
    events = record_of 11 (codes "syscall") (codes "4" ∷ codes "6" ∷ []) ∷ [];
  };
}

abbrev bench_loads : List ℕ → Result Body
bench_loads (e ∷ s ∷ t ∷ []) = ok (state (with_open (state_at e s t)))
bench_loads _ = ok okay

abbrev shown : Shown
shown = (with_open (state_at 1 0 0), (with_open (state_at 1 0 1), with_open (state_at 2 0 0)))
