-- ===== src/Guest/Session.antt =====
-- `snapshot`, `send`, `wait_for` and `command` of `Guest`. What other threads do meanwhile is the list
-- of states that the polls of `wait_for` see; the socket is a parameter.
pub mod Waiting
pub mod Commands
use mini_linux.Prelude.{
  ℕ, ◌+◌, Bool, true, false, not, ◌&&◌, ◌||◌, List, [], ◌∷◌, ◌++◌, Option, none, some,
  if◌then◌else◌, length, last_n, drop, ltb, all,
}
use mini_linux.Prelude.Text.{Text, codes, contains}
use mini_linux.Prelude.Int.{ℤ}
use mini_linux.Prelude.Dict.{Dict, values}
use mini_linux.Prelude.Exec.{
  Exc, value_error, runtime_error, os_error, timeout_error, Result, ok, err, Exec, ◌>>=◌, ◌>>◌,
  pure, raise, lift,
}
use mini_linux.Guest.{
  Guest, Event, Process, Mapping, Datum, Status, starting, running, faulted, disconnected, stopped,
}

-- `self.process`: none yet, or a child that `poll` finds alive or ended, with its pid.
pub data Child : Type 0 where
  absent : Child
  alive : ℕ → Child
  exited : ℕ → Child

pub record Snapshot : Type 0 where
  pub status : Status
  pub error : Text
  pub console : Text
  pub console_base : ℕ
  pub events : List Event
  pub processes : List Process
  pub maps : Dict ℤ (Dict Text Mapping)
  pub page_data : Dict ℤ Datum
  pub frames : ℤ
  pub free : ℤ
  pub ticks : ℤ
  pub sequence : ℕ
  pub guest_pid : Option ℕ

abbrev pub child_pid : Child → Option ℕ
child_pid absent = none
child_pid (alive pid) = some pid
child_pid (exited pid) = some pid

abbrev pub has_exited : Child → Bool
has_exited (exited pid) = true
has_exited _ = false

-- the write of `snapshot`
unfoldable pub notice_exit : Child → Guest → Guest
notice_exit child g =
    if has_exited child && not g.closed then record g { status = disconnected } else g

abbrev pub view : Child → Guest → Snapshot
view child g = record {
  status = g.status;
  error = g.error;
  console = g.console;
  console_base = g.console_base;
  events = g.events;
  processes = values g.processes;
  maps = g.maps;
  page_data = g.page_data;
  frames = g.frames;
  free = g.free;
  ticks = g.ticks;
  sequence = g.sequence;
  guest_pid = child_pid child;
}

unfoldable pub snapshot : Child → Exec Guest Snapshot
unfolding notice_exit
snapshot child g = (ok (view child (notice_exit child g)), notice_exit child g)

abbrev pub is_running : Status → Bool
is_running running = true
is_running _ = false

-- `self.status in ("faulted", "disconnected")`
abbrev pub has_failed : Status → Bool
has_failed faulted = true
has_failed disconnected = true
has_failed _ = false

abbrev pub is_ascii : Text → Bool
is_ascii = all (λ c. ltb c 128)

-- `text.encode("ascii", errors="strict")`: a UnicodeEncodeError is a ValueError
abbrev pub encode : Text → Result (List ℕ)
encode text = if is_ascii text then ok text else err value_error

-- `sendall` of channel 0, from what it has sent before: an OSError, or the byte is sent.
abbrev pub Socket : Type 0
Socket = List ℕ → ℕ → Option Text

abbrev pub sent_byte : Option Text → ℕ → Exec (List ℕ) Unit
sent_byte none b sent = (ok tt, sent ++ b ∷ [])
sent_byte (some e) b sent = (err (os_error e), sent)

abbrev pub send_byte : Socket → ℕ → Exec (List ℕ) Unit
send_byte socket b sent = sent_byte (socket sent b) b sent

unfoldable pub send_bytes : Socket → List ℕ → Exec (List ℕ) Unit
send_bytes socket [] = pure tt
send_bytes socket (b ∷ bs) = do send_byte socket b; send_bytes socket bs

abbrev pub not_running : Exc
not_running = runtime_error (codes "Guest is not running")

-- The state is what channel 0 has sent.
unfoldable pub send : Socket → Guest → Text → Exec (List ℕ) Unit
send socket g text =
    if g.closed || not (is_running g.status)
    then raise not_running
    else do bytes ← lift (encode text); send_bytes socket bytes

-- One round of `wait_for`: the clock in milliseconds, and the guest as the round finds it.
pub record Poll : Type 0 where
  pub now : ℕ
  pub guest : Guest

-- A call has returned, or raised, or it has used up the rounds and waits still.
pub data Waited {ℓ} (A : Type ℓ) : Type ℓ where
  returned : A → Waited A
  raised : Exc → Waited A
  waiting : Waited A

abbrev pub status_name : Status → Text
status_name starting = codes "starting"
status_name running = codes "running"
status_name faulted = codes "faulted"
status_name disconnected = codes "disconnected"
status_name stopped = codes "stopped"

abbrev tail_of : Guest → Text
tail_of g = last_n 2000 g.console

abbrev pub guest_failed : Guest → Exc
guest_failed g =
    runtime_error (codes "Guest " ++ (status_name g.status ++ (codes ": " ++ tail_of g)))

abbrev pub timed_out : Guest → Exc
timed_out g = timeout_error (codes "Guest observation timed out: " ++ tail_of g)

-- The value of a return is the state at which the predicate held.
unfoldable pub wait_for : (Guest → Bool) → ℕ → List Poll → Waited Guest
wait_for predicate deadline [] = waiting
wait_for predicate deadline (p ∷ ps) =
    let rest = wait_for predicate deadline ps in
    if ltb p.now deadline
    then (if predicate p.guest
        then returned p.guest
        else if has_failed p.guest.status
        then raised (guest_failed p.guest)
        else rest)
    else raised (timed_out p.guest)

abbrev pub prompt : Text
prompt = codes "mini$ "

-- `"mini$ " in self.console[before:]`
unfoldable pub prompt_after : ℕ → Guest → Bool
prompt_after before g = contains prompt (drop before g.console)

abbrev output_after : ℕ → Guest → Waited Guest → Waited Text
output_after before later (returned g) = returned (drop before later.console)
output_after before later (raised e) = raised e
output_after before later waiting = waiting

abbrev after_send : ℕ → ℕ → List Poll → Guest → Result (Unit {0}) × List ℕ → Waited Text × List ℕ
after_send before deadline polls later (ok _, sent) =
    (output_after before later (wait_for (prompt_after before) deadline polls), sent)
after_send before deadline polls later (err e, sent) = (raised e, sent)

-- `command`, with the guest `g` whose console is measured, the guest that `send` sees then, the
-- rounds of `wait_for`, and the guest at the last line.
unfoldable pub command :
    Socket → Guest → Guest → Text → ℕ → List Poll → Guest → List ℕ → Waited Text × List ℕ
command socket g sender text deadline polls later sent =
    after_send (length g.console) deadline polls later (send socket sender (text ++ 13 ∷ []) sent)
