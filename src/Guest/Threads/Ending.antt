-- ===== src/Guest/Threads/Ending.antt =====
-- Behind `close`: the readers end in a few steps of their own, and then nothing changes the guest.
use mini_linux.Prelude.{
  ℕ, arith, ◌≤◌, ◌+◌, ◌-◌, ◌≡◌, refl, ◌∙◌, Bool, true, false, inl, inr, Option, none, some, List,
  [], ◌∷◌, Bool-cases,
}
use mini_linux.Prelude.Text.{Text, decode}
use mini_linux.Prelude.Exec.{Exc, Result, ok, err}
use mini_linux.Guest.{Guest}
use mini_linux.Guest.Reader.{Received, chunk, failed, trace_text}
use mini_linux.Guest.Threads.{
  Reader, opening, testing, receiving, handling, catching, noting, leaving, marking, gone, Finds,
  catch, opened, received_at, traced, handle, reader_step, Owner, looking, prompted, started,
  shutting, joining, over, outlived, Meets, end_close, close_again, owner_step, Threads, move_tty,
  move_trace, move_owner, test_child, note_exit,
}
use mini_linux.Guest.Threads.Untouched.{trace_text-SameFront, console_chunk-SameBack}
use mini_linux.Guest.Threads.Kept.{Kept, reader_step-keeps}
use mini_linux.Guest.Threads.Steps.{
  of_tty, of_trace, of_owner, tests_child, notes_exit, After, here, later,
}

-- How many steps of its own a reader of a closed guest is from its end, at most.
abbrev pub rank : Reader → ℕ
rank opening = 3
rank (testing p) = 2
rank (receiving p) = 4
rank (handling p bytes) = 3
rank (catching e) = 2
rank (noting e) = 2
rank leaving = 1
rank marking = 1
rank gone = 0

catch-rank : (e : Exc) → rank (catch e) ≤ 2
unfolding catch
catch-rank e = ground arith

opened-rank : (e : Option Text) → rank (opened e) ≤ 2
opened-rank none = omega arith
opened-rank (some e) = omega arith

received_at-rank : (p : Text) (r : Received) → rank (received_at p r) ≤ 3
received_at-rank p (failed e) = omega arith
received_at-rank p (chunk []) = omega arith
received_at-rank p (chunk (b ∷ bs)) = omega arith

traced-rank : (m : Result Text × Guest) → rank (traced m).0 ≤ 2
traced-rank (ok p, g) = omega arith
traced-rank (err e, g) = catch-rank e

handle-rank :
    (tty : Bool) (p : Text) (bytes : List ℕ) (g : Guest) → rank (handle tty p bytes g).0 ≤ 2
unfolding handle
handle-rank true p bytes g = omega arith
handle-rank false p bytes g = traced-rank (trace_text p (decode bytes) g)

reader_step-rank :
    (tty : Bool) (f : Finds) (r : Reader) (g : Guest)
    → g.closed ≡ true
    → rank (reader_step tty f r g).0 ≤ rank r - 1
unfolding reader_step
reader_step-rank tty f opening g c = opened-rank f.refused
reader_step-rank tty f (testing p) g c = rw c (omega arith)
reader_step-rank tty f (receiving p) g c = received_at-rank p f.received
reader_step-rank tty f (handling p bytes) g c = handle-rank tty p bytes g
reader_step-rank tty f (catching e) g c = rw c (omega arith)
reader_step-rank tty f (noting e) g c = omega arith
reader_step-rank tty f leaving g c = rw c (omega arith)
reader_step-rank tty f marking g c = omega arith
reader_step-rank tty f gone g c = omega arith

rank-gone : (r : Reader) → rank r ≤ 0 → r ≡ gone
rank-gone opening h = grind (arith, h)
rank-gone (testing p) h = grind (arith, h)
rank-gone (receiving p) h = grind (arith, h)
rank-gone (handling p bytes) h = grind (arith, h)
rank-gone (catching e) h = grind (arith, h)
rank-gone (noting e) h = grind (arith, h)
rank-gone leaving h = grind (arith, h)
rank-gone marking h = grind (arith, h)
rank-gone gone h = refl

rank-le : (r : Reader) → rank r ≤ 4
rank-le opening = omega arith
rank-le (testing p) = omega arith
rank-le (receiving p) = omega arith
rank-le (handling p bytes) = omega arith
rank-le (catching e) = omega arith
rank-le (noting e) = omega arith
rank-le leaving = omega arith
rank-le marking = omega arith
rank-le gone = omega arith

-- how often each reader has moved
abbrev pub tty_moves : {s t : Threads} → After s t → ℕ
tty_moves here = 0
tty_moves (later a (of_tty f)) = tty_moves a + 1
tty_moves (later a _) = tty_moves a

abbrev pub trace_moves : {s t : Threads} → After s t → ℕ
trace_moves here = 0
trace_moves (later a (of_trace f)) = trace_moves a + 1
trace_moves (later a _) = trace_moves a

abbrev IsClosed : Guest → Type 0
IsClosed g = g.closed ≡ true

IsClosed-Kept : Kept IsClosed
IsClosed-Kept = record {
  printed = λ bytes g h. (console_chunk-SameBack bytes g).closed ∙ h;
  traced = λ p t g h. (trace_text-SameFront p t g).closed ∙ h;
  noted = λ e g h. h;
  marked = λ g h. h;
}

end_close-IsClosed : (b : Bool) (g : Guest) → IsClosed g → IsClosed (end_close b g).1
end_close-IsClosed true g h = h
end_close-IsClosed false g h = h

close_again-IsClosed :
    (b : Bool) (o : Owner) (g : Guest) → IsClosed g → IsClosed (close_again b o g).1
close_again-IsClosed true o g h = refl
close_again-IsClosed false o g h = h

owner_step-IsClosed :
    (m : Meets) (o : Owner) (g : Guest) → IsClosed g → IsClosed (owner_step m o g).1
unfolding owner_step
owner_step-IsClosed m looking g h = h
owner_step-IsClosed m prompted g h = h
owner_step-IsClosed m started g h = h
owner_step-IsClosed m shutting g h = refl
owner_step-IsClosed m joining g h = end_close-IsClosed m.outlives g h
owner_step-IsClosed m over g h = close_again-IsClosed m.again over g h
owner_step-IsClosed m outlived g h = close_again-IsClosed m.again outlived g h

-- what `note_exit` leaves alone
record SameThreads (s t : Threads) : Type 0 where
  closed : t.guest.closed ≡ s.guest.closed
  tty : t.tty ≡ s.tty
  trace : t.trace ≡ s.trace
  owner : t.owner ≡ s.owner

note_exit-SameThreads : (s : Threads) → SameThreads s (note_exit s)
unfolding note_exit
note_exit-SameThreads s = elim (Bool-cases s.viewing) [
  | inl yes_ ↦ rw yes_ (record { closed = refl; tty = refl; trace = refl; owner = refl })
  | inr no_ ↦ rw no_ (record { closed = refl; tty = refl; trace = refl; owner = refl })
]

-- A closed guest, and readers with at most `m` and `n` steps to go.
record Winds (s t : Threads) (m n : ℕ) : Type 0 where
  closed : IsClosed t.guest
  tty : rank t.tty ≤ rank s.tty - m
  trace : rank t.trace ≤ rank s.trace - n

Winds-later :
    {s t : Threads} (a : After s t) → IsClosed s.guest → Winds s t (tty_moves a) (trace_moves a)
unfolding move_tty move_trace move_owner test_child
Winds-later here c = record { closed = c; tty = omega arith; trace = omega arith }
Winds-later (later {t = u} a (of_tty f)) c =
    let w = Winds-later a c in
    record {
      closed = reader_step-keeps IsClosed IsClosed-Kept true f u.tty u.guest w.closed;
      tty = omega (arith, w.tty, reader_step-rank true f u.tty u.guest w.closed);
      trace = w.trace;
    }
Winds-later (later {t = u} a (of_trace f)) c =
    let w = Winds-later a c in
    record {
      closed = reader_step-keeps IsClosed IsClosed-Kept false f u.trace u.guest w.closed;
      tty = w.tty;
      trace = omega (arith, w.trace, reader_step-rank false f u.trace u.guest w.closed);
    }
Winds-later (later {t = u} a (of_owner m)) c =
    let w = Winds-later a c in
    record { closed = owner_step-IsClosed m u.owner u.guest w.closed; tty = w.tty; trace = w.trace }
Winds-later (later a (tests_child child)) c =
    let w = Winds-later a c in record { closed = w.closed; tty = w.tty; trace = w.trace }
Winds-later (later {t = u} a notes_exit) c =
    let w = Winds-later a c in
    let same = note_exit-SameThreads u in
    record {
      closed = same.closed ∙ w.closed;
      tty = rw same.tty w.tty;
      trace = rw same.trace w.trace;
    }

-- Once `closed` is set, each reader is gone when it has moved four times, wherever it was, whatever
-- the channel gave, and however the steps of the threads were ordered.
pub closed-gone :
    (s t : Threads) (a : After s t)
    → s.guest.closed ≡ true
    → (4 ≤ tty_moves a → t.tty ≡ gone) × (4 ≤ trace_moves a → t.trace ≡ gone)
closed-gone s t a c =
    let w = Winds-later a c in
    (
      λ h. rank-gone t.tty (omega (arith, w.tty, rank-le s.tty, h)),
      λ h. rank-gone t.trace (omega (arith, w.trace, rank-le s.trace, h)),
    )
