-- ===== src/Guest/Lifecycle/Launch/Ports.antt =====
-- The two ports differ, and a start that raises leaves nothing open.
use mini_linux.Prelude.{ℕ, ◌≡◌, ◌≢◌, true, ◌⊎◌, List, [], ◌∷◌, ◌++◌, arith, some, all, ◌==◌}
use mini_linux.Prelude.Text.{Text}
use mini_linux.Prelude.Exec.{Exc, Result, ok, err}
use mini_linux.Guest.{Guest}
use mini_linux.Guest.Session.{absent, alive, Waited, raised, wait_for, prompt_after}
use mini_linux.Guest.Lifecycle.{Host, connect}
use mini_linux.Guest.Lifecycle.Starting.{CleansUp, Opened, Ends}
use mini_linux.Guest.Lifecycle.Launch.{other_port, choose_ports, guest_args, LaunchEnv, close_env}

other_port-again :
    (tty trace : ℕ) (again after : List ℕ)
    → all (λ p. p == tty) again ≡ true
    → trace ≢ tty
    → other_port tty (again ++ trace ∷ after) ≡ some trace
unfolding other_port
other_port-again tty trace [] after same other = ground arith
other_port-again tty trace (p ∷ ps) after same other =
    ground (arith, other_port-again tty trace ps after)

-- As soon as the system gives a port other than the first, the choice ends with the first port and
-- that other one, which differ, however often the first comes again in between.
pub choose_ports_lem :
    (tty trace : ℕ) (again after : List ℕ)
    → all (λ p. p == tty) again ≡ true
    → trace ≢ tty
    → choose_ports (tty ∷ again ++ trace ∷ after) ≡ some (tty, trace)
unfolding choose_ports
choose_ports_lem tty trace again after same other =
    rw (other_port-again tty trace again after same other)

-- Before the `try`: the command of QEMU or the log raised, and nothing is changed.
abbrev pub RaisedEarly : LaunchEnv → Host → Waited Guest × Host → Type 0
RaisedEarly l h r = (e : Exc) × (r ≡ (raised e, h)) × ((l.qemu ≡ err e) ⊎ (l.log ≡ err e))

-- What was open in a start with the launched QEMU, by its three waits.
abbrev pub OpenedBy : LaunchEnv → Exc → ℕ → ℕ → Type 0
OpenedBy l =
    Opened (connect l.tty_deadline l.tty) (connect l.trace_deadline l.trace)
      (wait_for (prompt_after 0) l.deadline l.polls)

-- The `try`: with a QEMU that did not launch, nothing is open but the log; with one that did, it is
-- the child that a start which raises has to end.
abbrev pub EndsLaunched : LaunchEnv → Host → Result ℕ → Waited Guest × Host → Type 0
EndsLaunched l h (err e) r = CleansUp (close_env l absent) h 0 0 e r
EndsLaunched l h (ok pid) r = Ends (close_env l (alive pid)) h (OpenedBy l) r

-- In the `try`, with two ports that differ, and the command line that has them: the ends of a start,
-- by what the launch has given.
abbrev pub EndsTry : LaunchEnv → Host → Waited Guest × Host → Type 0
EndsTry l h r =
    (a : ℕ) × (b : ℕ) × (command : List Text) × (choose_ports l.ports ≡ some (a, b))
    × (b ≢ a)
    × (l.qemu ≡ ok command)
    × (l.log ≡ ok tt)
    × EndsLaunched l h (l.popen (command ++ guest_args l.memory a b)) r
