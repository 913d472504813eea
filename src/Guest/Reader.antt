-- ===== src/Guest/Reader.antt =====
-- `Guest._read`: the loop of a reader thread over what `recv` returns, for both channels.
pub mod Stream
pub mod Bounds
use mini_linux.Prelude.{ℕ, Bool, true, false, ◌||◌, List, [], ◌∷◌, ◌++◌, if◌then◌else◌, length, leb}
use mini_linux.Prelude.Text.{Text, codes, decode}
use mini_linux.Prelude.Exec.{
  Exc, value_error, index_error, runtime_error, os_error, timeout_error, timeout_expired, Result,
  ok, err, Exec, ◌>>=◌, ◌>>◌, pure, raise,
}
use mini_linux.Guest.{Guest, Status, disconnected}
use mini_linux.Guest.Console.{console_chunk}
use mini_linux.Guest.Lines.{cut}
use mini_linux.Guest.Trace.{event}

abbrev pub pending_limit : ℕ
pending_limit = 4096

abbrev pub unterminated : Exc
unterminated = runtime_error (codes "Unterminated observation record")

-- each complete line in turn; an exception ends it
unfoldable pub events : List Text → Exec Guest Unit
events [] = pure tt
events (l ∷ ls) = do event l; events ls

-- `if len(pending) > 4096: raise …`
abbrev pub bounded : Text → Exec Guest Text
bounded pending = if leb (length pending) pending_limit then pure pending else raise unterminated

-- The branch for channel 1: the new value of `pending`.
unfoldable pub trace_text : Text → Text → Exec Guest Text
trace_text pending text = do events (cut (pending ++ text)).0; bounded (cut (pending ++ text)).1

-- What one `channel.recv(4096)` gives: the bytes, none of them at the end of the stream, or an
-- OSError. `closing`: another thread has called `close` by then.
pub data Received : Type 0 where
  chunk : List ℕ → Received
  failed : Text → Received

pub record Recv : Type 0 where
  pub closing : Bool
  pub received : Received

-- `str(exc)` of what `except (OSError, RuntimeError)` catches; a TimeoutError is an OSError
unfoldable pub caught : Exc → Guest → Guest
caught (runtime_error e) g = if g.closed then g else record g { error = e }
caught (os_error e) g = if g.closed then g else record g { error = e }
caught (timeout_error e) g = if g.closed then g else record g { error = e }
caught _ g = g

abbrev pub channel_closed : Text
channel_closed = codes "QEMU serial channel closed."

abbrev pub error_or : Text → Text
error_or [] = channel_closed
error_or (c ∷ cs) = c ∷ cs

-- the `finally` block
unfoldable pub finish : Guest → Guest
finish g = if g.closed then g else record g { status = disconnected; error = error_or g.error }

-- One round of the loop goes on with a value of `pending`, or ends the thread.
pub data Turn : Type 0 where
  again : Text → Guest → Turn
  stop : Guest → Turn

abbrev pub after_trace : Result Text × Guest → Turn
after_trace (ok pending, g) = again pending g
after_trace (err e, g) = stop (finish (caught e g))

-- The flag says that this is channel 0.
unfoldable pub take_received : Bool → Text → Received → Guest → Turn
take_received tty pending (failed e) g = stop (finish (caught (os_error e) g))
take_received tty pending (chunk []) g = stop (finish g)
take_received true pending (chunk (b ∷ bs)) g = again pending (console_chunk (b ∷ bs) g)
take_received false pending (chunk (b ∷ bs)) g =
    after_trace (trace_text pending (decode (b ∷ bs)) g)

abbrev pub note_closing : Bool → Guest → Guest
note_closing closing g = record g { closed = g.closed || closing }

unfoldable pub read_once : Bool → Text → Recv → Guest → Turn
read_once tty pending r g =
    if g.closed
    then stop (finish g)
    else take_received tty pending r.received (note_closing r.closing g)

-- The thread has ended, or it has used up the list and waits in `recv`.
pub data Reading : Type 0 where
  ended : Guest → Reading
  waiting : Text → Guest → Reading

abbrev pub next_turn : Turn → (Text → Guest → Reading) → Reading
next_turn (again pending g) rest = rest pending g
next_turn (stop g) rest = ended g

unfoldable pub read_loop : Bool → Text → List Recv → Guest → Reading
read_loop tty pending [] g = waiting pending g
read_loop tty pending (r ∷ rs) g =
    next_turn (read_once tty pending r g) (λ pending' g'. read_loop tty pending' rs g')

-- several chunks of channel 1, one after the other
unfoldable pub trace_texts : Text → List Text → Exec Guest Text
trace_texts pending [] = pure pending
trace_texts pending (t ∷ ts) = do pending' ← trace_text pending t; trace_texts pending' ts
