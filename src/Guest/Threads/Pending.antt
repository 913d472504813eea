-- ===== src/Guest/Threads/Pending.antt =====
-- The unfinished line that a reader keeps stays short.
use mini_linux.Prelude.{
  ℕ, arith, ◌≤◌, ◌≡◌, refl, ap, Bool, true, false, Option, none, some, List, [], ◌∷◌, length,
  if◌then◌else◌,
}
use mini_linux.Prelude.Text.{Text, decode}
use mini_linux.Prelude.Exec.{Result, ok, err, Exc, runtime_error, os_error, timeout_error}
use mini_linux.Guest.{Guest}
use mini_linux.Guest.Reader.{Received, chunk, failed, pending_limit, trace_text}
use mini_linux.Guest.Reader.Stream.{trace_text-le}
use mini_linux.Guest.Threads.{
  Reader, opening, testing, receiving, handling, catching, noting, leaving, marking, gone, Finds,
  catch, opened, received_at, traced, handle, reader_step,
}

-- The unfinished line that a reader keeps.
abbrev pub PendingShort : Reader → Type 0
PendingShort (testing p) = length p ≤ pending_limit
PendingShort (receiving p) = length p ≤ pending_limit
PendingShort (handling p bytes) = length p ≤ pending_limit
PendingShort _ = Unit

catch-PendingShort : (e : Exc) → PendingShort (catch e)
unfolding catch
catch-PendingShort (runtime_error e) = tt
catch-PendingShort (os_error e) = tt
catch-PendingShort (timeout_error e) = tt
catch-PendingShort _ = tt

traced-PendingShort :
    (m : Result Text × Guest)
    → ((q : Text) → m.0 ≡ ok q → length q ≤ pending_limit)
    → PendingShort (traced m).0
traced-PendingShort (ok q, g) h = h q refl
traced-PendingShort (err e, g) h = catch-PendingShort e

handle-PendingShort :
    (tty : Bool) (p : Text) (bytes : List ℕ) (g : Guest)
    → length p ≤ pending_limit
    → PendingShort (handle tty p bytes g).0
unfolding handle
handle-PendingShort true p bytes g h = h
handle-PendingShort false p bytes g h =
    traced-PendingShort (trace_text p (decode bytes) g)
      (λ q e. trace_text-le p (decode bytes) g (ap (λ r. (r, (trace_text p (decode bytes) g).1)) e))

received_at-PendingShort :
    (p : Text) (r : Received) → length p ≤ pending_limit → PendingShort (received_at p r)
received_at-PendingShort p (failed e) h = tt
received_at-PendingShort p (chunk []) h = tt
received_at-PendingShort p (chunk (b ∷ bs)) h = h

opened-PendingShort : (e : Option Text) → PendingShort (opened e)
opened-PendingShort none = omega arith
opened-PendingShort (some e) = tt

PendingShort-if :
    (b : Bool) (q r : Reader) → PendingShort q → PendingShort r → PendingShort (if b then q else r)
PendingShort-if true q r h k = h
PendingShort-if false q r h k = k

-- A step of a reader keeps at most 4096 characters of an unfinished line.
pub reader_step-PendingShort :
    (tty : Bool) (f : Finds) (r : Reader) (g : Guest)
    → PendingShort r
    → PendingShort (reader_step tty f r g).0
unfolding reader_step
reader_step-PendingShort tty f opening g h = opened-PendingShort f.refused
reader_step-PendingShort tty f (testing p) g h = PendingShort-if g.closed leaving (receiving p) tt h
reader_step-PendingShort tty f (receiving p) g h = received_at-PendingShort p f.received h
reader_step-PendingShort tty f (handling p bytes) g h = handle-PendingShort tty p bytes g h
reader_step-PendingShort tty f (catching e) g h = PendingShort-if g.closed leaving (noting e) tt tt
reader_step-PendingShort tty f (noting e) g h = tt
reader_step-PendingShort tty f leaving g h = PendingShort-if g.closed gone marking tt tt
reader_step-PendingShort tty f marking g h = tt
reader_step-PendingShort tty f gone g h = tt
