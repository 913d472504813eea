-- ===== src/Guest/Threads/Sound.antt =====
-- What holds of a guest in every state that its threads can reach, whatever the interleaving.
use mini_linux.Prelude.{
  ℕ, arith, ◌≤◌, ◌≡◌, refl, ◌∙◌, Bool, true, false, List, length, if◌then◌else◌,
}
use mini_linux.Prelude.Text.{Text, decode}
use mini_linux.Guest.{Guest, Status, running, stopped, disconnected}
use mini_linux.Guest.Console.{console_chunk, console_limit}
use mini_linux.Guest.Console.Window.{console_text-le}
use mini_linux.Guest.Trace.Log.{IsLog, events-IsLog}
use mini_linux.Guest.Trace.Processes.{IsKeyed}
use mini_linux.Guest.Reader.{error_or, trace_text}
use mini_linux.Guest.Session.{Waited, returned, raised, waiting}
use mini_linux.Guest.Threads.{
  Owner, looking, prompted, started, shutting, joining, over, outlived, Meets, close_again, looked,
  look, end_close, owner_step, Threads, begun, move_tty, move_trace, move_owner, test_child,
  note_exit,
}
use mini_linux.Guest.Threads.Untouched.{trace_text-SameFront, console_chunk-SameBack}
use mini_linux.Guest.Threads.Kept.{Kept, reader_step-keeps, trace_text-keeps, events-IsKeyed}
use mini_linux.Guest.Threads.Pending.{PendingShort, reader_step-PendingShort}
use mini_linux.Guest.Threads.Steps.{
  Move, of_tty, of_trace, of_owner, tests_child, notes_exit, Reached, After-keeps,
}

console_chunk-le :
    (bytes : List ℕ) (g : Guest) → length (console_chunk bytes g).console ≤ console_limit
unfolding console_chunk
console_chunk-le bytes g = console_text-le (decode bytes) g

-- Behind the first line of `close`.
abbrev pub has_closed : Owner → Bool
has_closed joining = true
has_closed over = true
has_closed outlived = true
has_closed _ = false

-- What the lock and the order of the writes keep of a guest with the flag `closed`.
pub record IsConsistent (closed : Bool) (g : Guest) : Type 0 where
  pub log : IsLog g
  pub keyed : IsKeyed g.processes
  pub console : length g.console ≤ console_limit
  pub flag : g.closed ≡ closed

IsConsistent-console :
    (c : Bool) (bytes : List ℕ) (g : Guest)
    → IsConsistent c g
    → IsConsistent c (console_chunk bytes g)
IsConsistent-console c bytes g h =
    let same = console_chunk-SameBack bytes g in
    record {
      log = record {
        short = rw same.events h.log.short;
        rises = rw (same.events, same.sequence) h.log.rises;
      };
      keyed = rw same.processes h.keyed;
      console = console_chunk-le bytes g;
      flag = same.closed ∙ h.flag;
    }

IsConsistent-trace :
    (c : Bool) (p t : Text) (g : Guest) → IsConsistent c g → IsConsistent c (trace_text p t g).1
IsConsistent-trace c p t g h =
    let same = trace_text-SameFront p t g in
    record {
      log = trace_text-keeps IsLog events-IsLog p t g h.log;
      keyed = trace_text-keeps (λ k. IsKeyed k.processes) events-IsKeyed p t g h.keyed;
      console = rw same.console h.console;
      flag = same.closed ∙ h.flag;
    }

-- A write of the status, the error or the flag.
abbrev front : Bool → Status → Text → Guest → Guest
front c s e g = record g { closed = c; status = s; error = e }

IsConsistent-front :
    (b c d : Bool) (s : Status) (e : Text) (g : Guest)
    → c ≡ d
    → IsConsistent b g
    → IsConsistent d (front c s e g)
IsConsistent-front b c d s e g q h = record {
  log = record { short = h.log.short; rises = h.log.rises };
  keyed = h.keyed;
  console = h.console;
  flag = q;
}

IsConsistent-Kept : (c : Bool) → Kept (IsConsistent c)
IsConsistent-Kept c = record {
  printed = IsConsistent-console c;
  traced = IsConsistent-trace c;
  noted = λ e g h. IsConsistent-front c g.closed c g.status e g h.flag h;
  marked = λ g h. IsConsistent-front c g.closed c disconnected (error_or g.error) g h.flag h;
}

looked-open : (w : Waited Guest) → has_closed (looked w) ≡ false
looked-open (returned g) = refl
looked-open (raised e) = refl
looked-open waiting = refl

look-open : (m : Meets) (g : Guest) → has_closed (look m g) ≡ false
unfolding look
look-open m g = looked-open _

stop-IsConsistent :
    (b : Bool) (g : Guest)
    → IsConsistent true g
    → IsConsistent (has_closed (end_close b g).0) (end_close b g).1
stop-IsConsistent true g h = h
stop-IsConsistent false g h = IsConsistent-front true g.closed true stopped g.error g h.flag h

close_again-IsConsistent :
    (b : Bool) (o : Owner) (g : Guest)
    → has_closed o ≡ true
    → IsConsistent true g
    → IsConsistent (has_closed (close_again b o g).0) (close_again b o g).1
close_again-IsConsistent true o g k h = IsConsistent-front true true true g.status g.error g refl h
close_again-IsConsistent false o g k h = rw k h

owner_step-IsConsistent :
    (m : Meets) (o : Owner) (g : Guest)
    → IsConsistent (has_closed o) g
    → IsConsistent (has_closed (owner_step m o g).0) (owner_step m o g).1
unfolding owner_step
owner_step-IsConsistent m looking g h = rw (look-open m g) h
owner_step-IsConsistent m prompted g h =
    IsConsistent-front false g.closed false running g.error g h.flag h
owner_step-IsConsistent m started g h = h
owner_step-IsConsistent m shutting g h =
    IsConsistent-front false true true g.status g.error g refl h
owner_step-IsConsistent m joining g h = stop-IsConsistent m.outlives g h
owner_step-IsConsistent m over g h = close_again-IsConsistent m.again over g refl h
owner_step-IsConsistent m outlived g h = close_again-IsConsistent m.again outlived g refl h

-- In every state that the threads of a guest reach: the log, the processes and the console are as
-- they should be, no reader keeps more of a line than 4096 characters, and `closed` is set exactly
-- from the first line of `close` on.
pub record IsSound (s : Threads) : Type 0 where
  pub guest : IsConsistent (has_closed s.owner) s.guest
  pub tty : PendingShort s.tty
  pub trace : PendingShort s.trace

IsSound-if : (b : Bool) (s t : Threads) → IsSound s → IsSound t → IsSound (if b then s else t)
IsSound-if true s t h k = h
IsSound-if false s t h k = k

note_exit-IsSound : (s : Threads) → IsSound s → IsSound (note_exit s)
unfolding note_exit
note_exit-IsSound s h =
    IsSound-if s.viewing _ s
      (record {
        guest =
            IsConsistent-front (has_closed s.owner) s.guest.closed (has_closed s.owner) disconnected
              s.guest.error s.guest h.guest.flag h.guest;
        tty = h.tty;
        trace = h.trace;
      })
      h

pub Move-IsSound : (s t : Threads) → Move s t → IsSound s → IsSound t
unfolding move_tty move_trace move_owner test_child
Move-IsSound s t (of_tty f) h = record {
  guest =
      reader_step-keeps (IsConsistent (has_closed s.owner)) (IsConsistent-Kept (has_closed s.owner))
        true f s.tty s.guest h.guest;
  tty = reader_step-PendingShort true f s.tty s.guest h.tty;
  trace = h.trace;
}
Move-IsSound s t (of_trace f) h = record {
  guest =
      reader_step-keeps (IsConsistent (has_closed s.owner)) (IsConsistent-Kept (has_closed s.owner))
        false f s.trace s.guest h.guest;
  tty = h.tty;
  trace = reader_step-PendingShort false f s.trace s.guest h.trace;
}
Move-IsSound s t (of_owner m) h = record {
  guest = owner_step-IsConsistent m s.owner s.guest h.guest;
  tty = h.tty;
  trace = h.trace;
}
Move-IsSound s t (tests_child child) h = record { guest = h.guest; tty = h.tty; trace = h.trace }
Move-IsSound s t notes_exit h = note_exit-IsSound s h

pub begun-IsSound : IsSound begun
begun-IsSound = record {
  guest = record {
    log = record { short = omega arith; rises = omega arith };
    keyed = tt;
    console = omega arith;
    flag = refl;
  };
  tty = tt;
  trace = tt;
}

-- In every state that the threads of a started guest can reach, by any interleaving of the readers,
-- the thread that starts and closes it and the snapshots: at most 2000 records are kept, with rising
-- ids up to the sequence number, the processes are keyed by their pids, the console holds at most
-- 64000 characters, no reader keeps more than 4096 characters of a line, and `closed` is set exactly
-- from the first line of `close` on.
pub reached-IsSound : (s : Threads) → Reached s → IsSound s
reached-IsSound s r = After-keeps IsSound Move-IsSound begun s r begun-IsSound
