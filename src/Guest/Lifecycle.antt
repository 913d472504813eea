-- ===== src/Guest/Lifecycle.antt =====
-- `start` and `close` of `Guest`: the calls to the operating system are a list of steps, and what they
-- find is an argument.
pub mod Closing
pub mod Starting
pub mod Launch
use mini_linux.Prelude.{
  ℕ, zero, suc, ◌+◌, Bool, true, false, not, List, [], ◌∷◌, ◌++◌, if◌then◌else◌, leb,
}
use mini_linux.Prelude.Text.{Text, codes}
use mini_linux.Prelude.Exec.{
  Exc, runtime_error, timeout_expired, Result, ok, err, Exec, ◌>>=◌, ◌>>◌, pure, raise, modify,
  when,
}
use mini_linux.Guest.{Guest, Status, running, stopped}
use mini_linux.Guest.Session.{
  Child, absent, alive, exited, Poll, Waited, returned, raised, waiting, wait_for, prompt_after,
}

pub data CloseStep : Type 0 where
  shutdown close_socket join_thread : ℕ → CloseStep
  terminate wait_child kill close_log : CloseStep

-- What `close` finds: the sockets and threads so far, the child, whether it ends within three seconds
-- of `terminate` and of `kill`, and whether the log is open. An OSError of `shutdown` is ignored.
pub record CloseEnv : Type 0 where
  pub sockets : ℕ
  pub threads : ℕ
  pub child : Child
  pub stops : Bool
  pub dies : Bool
  pub has_log : Bool

pub record Host : Type 0 where
  pub steps : List CloseStep
  pub guest : Guest

abbrev pub does : CloseStep → Exec Host Unit
does s = modify (λ h. record h { steps = h.steps ++ s ∷ [] })

-- `for channel in self.sockets`, from number `i`, with `n` to go
unfoldable pub close_sockets : ℕ → ℕ → Exec Host Unit
close_sockets i zero = pure tt
close_sockets i (suc n) = do does (shutdown i); does (close_socket i); close_sockets (suc i) n

unfoldable pub join_threads : ℕ → ℕ → Exec Host Unit
join_threads i zero = pure tt
join_threads i (suc n) = do does (join_thread i); join_threads (suc i) n

-- `self.process.wait(timeout=3)`
abbrev wait_for_exit : Bool → Exec Host Unit
wait_for_exit true = does wait_child
wait_for_exit false = do does wait_child; raise timeout_expired

-- `except subprocess.TimeoutExpired`
abbrev or_kill : Bool → Result (Unit {0}) × Host → Result (Unit {0}) × Host
or_kill dies (ok _, h) = (ok tt, h)
or_kill dies (err timeout_expired, h) = (do does kill; wait_for_exit dies) h
or_kill dies (err e, h) = (err e, h)

unfoldable pub stop_child : Child → Bool → Bool → Exec Host Unit
stop_child (alive pid) stops dies h =
    (do does terminate; λ h'. or_kill dies (wait_for_exit stops h')) h
stop_child _ stops dies h = (ok tt, h)

abbrev set_closed : Host → Host
set_closed h = record h { guest = record h.guest { closed = true } }

abbrev set_stopped : Host → Host
set_stopped h = record h { guest = record h.guest { status = stopped } }

unfoldable pub close : CloseEnv → Exec Host Unit
close env = do
  modify set_closed
  close_sockets 0 env.sockets
  stop_child env.child env.stops env.dies
  join_threads 0 env.threads
  when env.has_log (does close_log)
  modify set_stopped

-- One round of the connection loop of `start`: whether QEMU still runs, whether the connection is
-- made, and the clock in milliseconds when it is not.
pub record Attempt : Type 0 where
  pub lives : Bool
  pub connects : Bool
  pub now : ℕ

abbrev pub stopped_early : Exc
stopped_early =
    runtime_error (codes "QEMU stopped before serial connection; see build/lab-qemu.log")

abbrev pub connection_timed_out : Exc
connection_timed_out = runtime_error (codes "QEMU serial connection timed out")

unfoldable pub connect : ℕ → List Attempt → Waited (Unit {0})
connect deadline [] = waiting
connect deadline (a ∷ as') =
    let rest = connect deadline as' in
    if not a.lives
    then raised stopped_early
    else if a.connects
    then returned tt
    else if leb deadline a.now
    then raised connection_timed_out
    else rest

-- `except Exception: self.close(); raise`
abbrev reraise : Exc → Result (Unit {0}) × Host → Waited Guest × Host
reraise e (ok _, h) = (raised e, h)
reraise e (err x, h) = (raised x, h)

unfoldable pub fail_start : CloseEnv → ℕ → ℕ → Exc → Host → Waited Guest × Host
fail_start env sockets threads e h =
    reraise e (close (record env { sockets = sockets; threads = threads }) h)

abbrev set_running : Guest → Guest
set_running g = record g { status = running }

unfoldable pub await_prompt : CloseEnv → Host → Waited Guest → Waited Guest × Host
await_prompt env h (returned g) = (returned (set_running g), record h { guest = set_running g })
await_prompt env h (raised e) = fail_start env 2 2 e h
await_prompt env h waiting = (waiting, h)

unfoldable pub connect_second :
    CloseEnv → Host → Waited (Unit {0}) → Waited Guest → Waited Guest × Host
connect_second env h (returned _) prompted = await_prompt env h prompted
connect_second env h (raised e) prompted = fail_start env 1 0 e h
connect_second env h waiting prompted = (waiting, h)

unfoldable pub connect_first :
    CloseEnv → Host → Waited (Unit {0}) → Waited (Unit {0}) → Waited Guest → Waited Guest × Host
connect_first env h (returned _) second prompted = connect_second env h second prompted
connect_first env h (raised e) second prompted = fail_start env 0 0 e h
connect_first env h waiting second prompted = (waiting, h)

-- `start` behind the launch of QEMU: the two connections, each with its own deadline, then the
-- threads, then the wait for the prompt. `h` is the host as the exception handler would find it.
unfoldable pub start :
    CloseEnv → Host → ℕ → List Attempt → ℕ → List Attempt → ℕ → List Poll → Waited Guest × Host
start env h tty_deadline tty trace_deadline trace deadline polls =
    connect_first env h (connect tty_deadline tty) (connect trace_deadline trace)
      (wait_for (prompt_after 0) deadline polls)
