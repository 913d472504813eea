-- ===== src/Guest/Threads/Rounds.antt =====
-- A round of `_read` on its own, as `read_once` has it, is a run of the steps of the reader.
use mathlib.Core.Path.{subst}
use mini_linux.Prelude.{
  ◌≡◌, refl, sym, ap, ◌∙◌, inl, inr, Bool, true, false, ◌||◌, [], ◌∷◌, Bool-cases, if◌then◌else◌,
}
use mini_linux.Prelude.Text.{Text, decode}
use mini_linux.Prelude.Exec.{
  Exc, value_error, index_error, attribute_error, bad_value, runtime_error, os_error, timeout_error,
  timeout_expired, Result, ok, err,
}
use mini_linux.Guest.{Guest}
use mini_linux.Guest.Reader.{
  Received, chunk, failed, Recv, caught, finish, Turn, again, stop, after_trace, take_received,
  note_closing, read_once, trace_text,
}
use mini_linux.Guest.Threads.{
  Reader, testing, receiving, handling, catching, noting, leaving, marking, gone, Finds, catch,
  received_at, traced, handle, mark, reader_step,
}

-- Steps of one reader, with no step of another thread between them.
pub data Runs (tty : Bool) (f : Finds) : Reader × Guest → Reader × Guest → Type 0 where
  stays : (x : Reader × Guest) → Runs tty f x x
  steps :
      (r : Reader) (g : Guest) (y : Reader × Guest)
      → Runs tty f (reader_step tty f r g) y
      → Runs tty f (r, g) y

-- where a round leaves the reader
abbrev pub place : Turn → Reader × Guest
place (again p g) = (testing p, g)
place (stop g) = (gone, g)

module _ {tty : Bool} {f : Finds} where
  step_to :
      (r : Reader) (g : Guest) (x y z : Reader × Guest)
      → reader_step tty f r g ≡ x
      → z ≡ y
      → Runs tty f x y
      → Runs tty f (r, g) z
  step_to r g x y z q e w =
      steps r g z (subst (λ v. Runs tty f v z) (sym q) (subst (Runs tty f x) (sym e) w))

  leaving-Runs : (g : Guest) → Runs tty f (leaving, g) (gone, finish g)
  unfolding reader_step finish
  leaving-Runs g = elim (Bool-cases g.closed) [
    | inl shut ↦
        step_to leaving g (gone, g) (gone, g) _ (ap (λ b. (if b then gone else marking, g)) shut)
          (ap (λ b. (gone, if b then g else mark g)) shut) (stays (gone, g))
    | inr open_ ↦
        step_to leaving g (marking, g) (gone, mark g) _
          (ap (λ b. (if b then gone else marking, g)) open_)
          (ap (λ b. (gone, if b then g else mark g)) open_)
          (steps marking g _ (stays (gone, mark g)))
  ]

  -- the `except` block, with the message, and `finally`
  catching-Runs :
      (e : Text) (g : Guest)
      → Runs tty f (catching e, g) (gone, finish (if g.closed then g else record g { error = e }))
  unfolding reader_step
  catching-Runs e g = elim (Bool-cases g.closed) [
    | inl shut ↦
        step_to (catching e) g (leaving, g) (gone, finish g) _
          (ap (λ b. (if b then leaving else noting e, g)) shut)
          (ap (λ b. (gone, finish (if b then g else record g { error = e }))) shut) (leaving-Runs g)
    | inr open_ ↦
        step_to (catching e) g (noting e, g) (gone, finish (record g { error = e })) _
          (ap (λ b. (if b then leaving else noting e, g)) open_)
          (ap (λ b. (gone, finish (if b then g else record g { error = e }))) open_)
          (steps (noting e) g _ (leaving-Runs (record g { error = e })))
  ]

  catch-Runs : (e : Exc) (g : Guest) → Runs tty f (catch e, g) (gone, finish (caught e g))
  unfolding catch caught
  catch-Runs (runtime_error e) g = catching-Runs e g
  catch-Runs (os_error e) g = catching-Runs e g
  catch-Runs (timeout_error e) g = catching-Runs e g
  catch-Runs value_error g = leaving-Runs g
  catch-Runs index_error g = leaving-Runs g
  catch-Runs attribute_error g = leaving-Runs g
  catch-Runs (bad_value e) g = leaving-Runs g
  catch-Runs timeout_expired g = leaving-Runs g

  traced-Runs : (m : Result Text × Guest) → Runs tty f (traced m) (place (after_trace m))
  traced-Runs (ok p, g) = stays (testing p, g)
  traced-Runs (err e, g) = catch-Runs e g

received-Runs :
    (tty : Bool) (f : Finds) (p : Text) (r : Received) (g : Guest)
    → Runs tty f (received_at p r, g) (place (take_received tty p r g))
unfolding take_received caught reader_step handle
received-Runs tty f p (failed e) g = catching-Runs e g
received-Runs tty f p (chunk []) g = leaving-Runs g
received-Runs true f p (chunk (b ∷ bs)) g = steps (handling p (b ∷ bs)) g _ (stays _)
received-Runs false f p (chunk (b ∷ bs)) g =
    steps (handling p (b ∷ bs)) g _ (traced-Runs (trace_text p (decode (b ∷ bs)) g))

still_open :
    (closing : Bool) (g : Guest) → closing ≡ false → g.closed ≡ false → note_closing closing g ≡ g
still_open closing g h k =
    ap (λ (c : Bool). record g { closed = g.closed || c }) h
    ∙ ap (λ (c : Bool). record g { closed = c }) (or_false g.closed)
  where
    or_false : (b : Bool) → (b || false) ≡ b
    or_false true = refl
    or_false false = refl

-- A round in which nobody calls `close` is a run of the steps of the reader on their own: from the
-- test of `closed` to the next one with the same kept text, or to the end, and to the same guest.
pub read_once-Runs :
    (tty : Bool) (p : Text) (r : Recv) (f : Finds) (g : Guest)
    → r.closing ≡ false
    → f.received ≡ r.received
    → Runs tty f (testing p, g) (place (read_once tty p r g))
unfolding read_once reader_step
read_once-Runs tty p r f g h k = elim (Bool-cases g.closed) [
  | inl shut ↦
      step_to (testing p) g (leaving, g) (gone, finish g) _
        (ap (λ b. (if b then leaving else receiving p, g)) shut)
        (ap
          (λ b. place (
            if b
            then stop (finish g)
            else take_received tty p r.received (note_closing r.closing g)))
          shut)
        (leaving-Runs g)
  | inr open_ ↦
      step_to (testing p) g (receiving p, g) (place (take_received tty p f.received g)) _
        (ap (λ b. (if b then leaving else receiving p, g)) open_)
        (ap
            (λ b. place (
              if b
              then stop (finish g)
              else take_received tty p r.received (note_closing r.closing g)))
            open_
          ∙ ap (λ h'. place (take_received tty p r.received h')) (still_open r.closing g h open_)
          ∙ ap (λ x. place (take_received tty p x g)) (sym k))
        (steps (receiving p) g _ (received-Runs tty f p f.received g))
]
