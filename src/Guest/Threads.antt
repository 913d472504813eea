-- ===== src/Guest/Threads.antt =====
-- The threads of one `Guest`: the two readers (`_read`), and the thread that starts and closes it, each
-- as its position in the code and the atomic steps from it. A step ends where a thread lets go of
-- `self.lock`, or reads or writes a field without it.
pub mod Untouched
pub mod Steps
pub mod Kept
pub mod Pending
pub mod Sound
pub mod Failing
pub mod Overwritten
pub mod Hidden
pub mod Settled
pub mod Ending
pub mod Rounds
use mini_linux.Prelude.{
  ℕ, Bool, true, false, not, ◌&&◌, ◌||◌, List, [], ◌∷◌, Option, none, some, if◌then◌else◌,
}
use mini_linux.Prelude.Text.{Text, decode}
use mini_linux.Prelude.Exec.{
  Exc, value_error, index_error, attribute_error, bad_value, runtime_error, os_error, timeout_error,
  timeout_expired, Result, ok, err,
}
use mini_linux.Guest.{Guest, Status, running, stopped, disconnected, init}
use mini_linux.Guest.Console.{console_chunk}
use mini_linux.Guest.Reader.{Received, chunk, failed, trace_text, error_or}
use mini_linux.Guest.Session.{
  Child, has_exited, Waited, returned, raised, waiting, wait_for, prompt_after,
}

-- Where a reader thread is.
pub data Reader : Type 0 where
  -- before `path.open("wb")`
  opening : Reader
  -- at `while not self.closed`, with `pending`
  testing : Text → Reader
  -- in `channel.recv(4096)`
  receiving : Text → Reader
  -- before `with self.lock`, with the bytes of the chunk
  handling : Text → List ℕ → Reader
  -- in the `except` block, with the message: before its test of `closed`, and behind it
  catching noting : Text → Reader
  -- in the `finally` block: before its test of `closed`, and behind it
  leaving marking : Reader
  gone : Reader

-- What a step of a reader finds: an OSError of `open`, and what `recv` gives, or an OSError of it or of
-- the write to the log.
pub record Finds : Type 0 where
  pub refused : Option Text
  pub received : Received

-- `except (OSError, RuntimeError) as exc`; any other exception is on its way through `finally`
unfoldable pub catch : Exc → Reader
catch (runtime_error e) = catching e
catch (os_error e) = catching e
catch (timeout_error e) = catching e
catch _ = leaving

abbrev pub opened : Option Text → Reader
opened none = testing []
opened (some e) = catching e

abbrev pub received_at : Text → Received → Reader
received_at pending (failed e) = catching e
received_at pending (chunk []) = leaving
received_at pending (chunk (b ∷ bs)) = handling pending (b ∷ bs)

abbrev pub traced : Result Text × Guest → Reader × Guest
traced (ok pending, g) = (testing pending, g)
traced (err e, g) = (catch e, g)

-- what a reader does with a chunk under the lock; the flag says that this is channel 0
unfoldable pub handle : Bool → Text → List ℕ → Guest → Reader × Guest
handle true pending bytes g = (testing pending, console_chunk bytes g)
handle false pending bytes g = traced (trace_text pending (decode bytes) g)

-- the writes of the `finally` block
abbrev pub mark : Guest → Guest
mark g = record g { status = disconnected; error = error_or g.error }

unfoldable pub reader_step : Bool → Finds → Reader → Guest → Reader × Guest
reader_step tty f opening g = (opened f.refused, g)
reader_step tty f (testing pending) g = (if g.closed then leaving else receiving pending, g)
reader_step tty f (receiving pending) g = (received_at pending f.received, g)
reader_step tty f (handling pending bytes) g = handle tty pending bytes g
reader_step tty f (catching e) g = (if g.closed then leaving else noting e, g)
reader_step tty f (noting e) g = (leaving, record g { error = e })
reader_step tty f leaving g = (if g.closed then gone else marking, g)
reader_step tty f marking g = (gone, mark g)
reader_step tty f gone g = (gone, g)

-- Where the thread is that starts the guest, behind the start of the readers, and closes it.
pub data Owner : Type 0 where
  -- in the `wait_for` of `start`, and behind it before `self.status = "running"`
  looking prompted : Owner
  -- `start` has returned
  started : Owner
  -- at the first line of `close`, behind it, and behind the last one; the laboratory may close again
  shutting joining over : Owner
  -- `close` has raised, since the child outlived `kill`
  outlived : Owner

-- What a step of that thread meets: the clock and the deadline of `wait_for`, whether the child
-- outlives `kill`, and whether the laboratory closes the guest again.
pub record Meets : Type 0 where
  pub now : ℕ
  pub deadline : ℕ
  pub outlives : Bool
  pub again : Bool

abbrev pub looked : Waited Guest → Owner
looked (returned g) = prompted
looked (raised e) = shutting
looked waiting = looking

-- one round of the `wait_for` of `start`
unfoldable pub look : Meets → Guest → Owner
look m g = looked (wait_for (prompt_after 0) m.deadline (record { now = m.now; guest = g } ∷ []))

-- `self.status = "running"; return self`
abbrev pub end_start : Guest → Owner × Guest
end_start g = (started, record g { status = running })

-- the first line of `close`
abbrev pub begin_close : Guest → Owner × Guest
begin_close g = (joining, record g { closed = true })

-- the end of `close`
abbrev pub end_close : Bool → Guest → Owner × Guest
end_close true g = (outlived, g)
end_close false g = (over, record g { status = stopped })

-- behind a `close`, of which there may be another
abbrev pub close_again : Bool → Owner → Guest → Owner × Guest
close_again true o g = begin_close g
close_again false o g = (o, g)

unfoldable pub owner_step : Meets → Owner → Guest → Owner × Guest
owner_step m looking g = (look m g, g)
owner_step m prompted g = end_start g
owner_step m started g = (shutting, g)
owner_step m shutting g = begin_close g
owner_step m joining g = end_close m.outlives g
owner_step m over g = close_again m.again over g
owner_step m outlived g = close_again m.again outlived g

-- one guest and its threads; `viewing`: a `snapshot` is behind its test of the child and of `closed`
pub record Threads : Type 0 where
  pub guest : Guest
  pub tty : Reader
  pub trace : Reader
  pub owner : Owner
  pub viewing : Bool

-- `start` has started both readers
abbrev pub begun : Threads
begun = record { guest = init; tty = opening; trace = opening; owner = looking; viewing = false }

abbrev set_tty : Reader × Guest → Threads → Threads
set_tty (r, g) s = record s { guest = g; tty = r }

abbrev set_trace : Reader × Guest → Threads → Threads
set_trace (r, g) s = record s { guest = g; trace = r }

abbrev set_owner : Owner × Guest → Threads → Threads
set_owner (o, g) s = record s { guest = g; owner = o }

unfoldable pub move_tty : Finds → Threads → Threads
move_tty f s = set_tty (reader_step true f s.tty s.guest) s

unfoldable pub move_trace : Finds → Threads → Threads
move_trace f s = set_trace (reader_step false f s.trace s.guest) s

unfoldable pub move_owner : Meets → Threads → Threads
move_owner m s = set_owner (owner_step m s.owner s.guest) s

-- the test of `snapshot`, in any thread, and its write
unfoldable pub test_child : Child → Threads → Threads
test_child child s = record s { viewing = s.viewing || (has_exited child && not s.guest.closed) }

unfoldable pub note_exit : Threads → Threads
note_exit s =
    if s.viewing
    then record s { guest = record s.guest { status = disconnected }; viewing = false }
    else s
