-- ===== src/Guest/Threads/Kept.antt =====
-- What the readers of a guest keep of it, step by step.
use mini_linux.Prelude.{ℕ, arith, Bool, true, false, List, [], ◌∷◌, ◌++◌}
use mini_linux.Prelude.Text.{Text, decode}
use mini_linux.Prelude.Exec.{Exec, Exec, Result, ok, err, resume}
use mini_linux.Guest.{Guest}
use mini_linux.Guest.Console.{console_chunk}
use mini_linux.Guest.Lines.{cut}
use mini_linux.Guest.Trace.{event}
use mini_linux.Guest.Trace.Processes.{IsKeyed, event-IsKeyed}
use mini_linux.Guest.Reader.{events, bounded, trace_text}
use mini_linux.Guest.Threads.{
  Reader, opening, testing, receiving, handling, catching, noting, leaving, marking, gone, Finds,
  traced, handle, mark, reader_step,
}

-- A property of guests that what the readers write keeps.
pub record Kept (P : Guest → Type 0) : Type 0 where
  pub printed : (bytes : List ℕ) (g : Guest) → P g → P (console_chunk bytes g)
  pub traced : (p t : Text) (g : Guest) → P g → P (trace_text p t g).1
  pub noted : (e : Text) (g : Guest) → P g → P (record g { error = e })
  pub marked : (g : Guest) → P g → P (mark g)

traced-keeps : (P : Guest → Type 0) (m : Result Text × Guest) → P m.1 → P (traced m).1
traced-keeps P (ok p, g) h = h
traced-keeps P (err e, g) h = h

handle-keeps :
    (P : Guest → Type 0) (k : Kept P) (tty : Bool) (p : Text) (bytes : List ℕ) (g : Guest)
    → P g
    → P (handle tty p bytes g).1
unfolding handle
handle-keeps P k true p bytes g h = k.printed bytes g h
handle-keeps P k false p bytes g h =
    traced-keeps P (trace_text p (decode bytes) g) (k.traced p (decode bytes) g h)

pub reader_step-keeps :
    (P : Guest → Type 0) (k : Kept P) (tty : Bool) (f : Finds) (r : Reader) (g : Guest)
    → P g
    → P (reader_step tty f r g).1
unfolding reader_step
reader_step-keeps P k tty f opening g h = h
reader_step-keeps P k tty f (testing p) g h = h
reader_step-keeps P k tty f (receiving p) g h = h
reader_step-keeps P k tty f (handling p bytes) g h = handle-keeps P k tty p bytes g h
reader_step-keeps P k tty f (catching e) g h = h
reader_step-keeps P k tty f (noting e) g h = k.noted e g h
reader_step-keeps P k tty f leaving g h = h
reader_step-keeps P k tty f marking g h = k.marked g h
reader_step-keeps P k tty f gone g h = h

resume-keeps :
    (P : Guest → Type 0) (f : Exec Guest Text) (m : Result Unit × Guest)
    → P m.1
    → ((h : Guest) → P h → P (f h).1)
    → P (resume (λ _. f) m).1
resume-keeps P f (ok _, h) p k = k h p
resume-keeps P f (err e, h) p k = p

pub trace_text-keeps :
    (P : Guest → Type 0)
    → ((lines : List Text) (g : Guest) → P g → P (events lines g).1)
    → (p t : Text) (g : Guest) → P g
    → P (trace_text p t g).1
unfolding trace_text
trace_text-keeps P keep p t g h =
    resume-keeps P (bounded (cut (p ++ t)).1) (events (cut (p ++ t)).0 g)
      (keep (cut (p ++ t)).0 g h) (bounded_same (cut (p ++ t)).1)
  where
    bounded_same : (rest : Text) (h : Guest) → P h → P (bounded rest h).1
    bounded_same rest h p' = ground arith

resume_unit-IsKeyed :
    (ls : List Text) (m : Result Unit × Guest)
    → IsKeyed m.1.processes
    → ((g : Guest) → IsKeyed g.processes → IsKeyed (events ls g).1.processes)
    → IsKeyed (resume (λ _. events ls) m).1.processes
resume_unit-IsKeyed ls (ok _, g) h k = k g h
resume_unit-IsKeyed ls (err e, g) h k = h

pub events-IsKeyed :
    (ls : List Text) (g : Guest) → IsKeyed g.processes → IsKeyed (events ls g).1.processes
unfolding events
events-IsKeyed [] g h = h
events-IsKeyed (l ∷ ls) g h =
    resume_unit-IsKeyed ls (event l g) (event-IsKeyed l g h) (events-IsKeyed ls)
