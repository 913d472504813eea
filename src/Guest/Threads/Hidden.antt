-- ===== src/Guest/Threads/Hidden.antt =====
-- A failure that the readers note during `start` is hidden by its last write, `running`.
use mathlib.Core.Path.{subst}
use mini_linux.Prelude.{
  ℕ, zero, suc, ◌≡◌, refl, sym, ap, ◌∙◌, Bool, true, false, List, [], none, ltb, if◌then◌else◌,
}
use mini_linux.Prelude.Text.{Text, decode}
use mini_linux.Prelude.Exec.{
  Exc, value_error, index_error, attribute_error, bad_value, runtime_error, os_error, timeout_error,
  timeout_expired, Result, ok, err,
}
use mini_linux.Guest.{Guest, running, disconnected}
use mini_linux.Guest.Reader.{chunk, trace_text}
use mini_linux.Guest.Session.{wait_for, prompt_after}
use mini_linux.Guest.Threads.{
  Reader, opening, testing, receiving, handling, catching, noting, leaving, marking, gone, Finds,
  catch, traced, handle, mark, reader_step, Owner, looking, prompted, started, Meets, look,
  owner_step, Threads, move_tty, move_trace, move_owner,
}
use mini_linux.Guest.Threads.Untouched.{trace_text-SameFront, console_chunk-SameBack}
use mini_linux.Guest.Threads.Steps.{of_tty, of_trace, of_owner, After, here, later, Reached}
use mini_linux.Guest.Threads.Sound.{has_closed, reached-IsSound}
use mini_linux.Guest.Threads.Failing.{is_gone}

-- the channel is closed by QEMU
abbrev lost : Finds
lost = record { refused = none; received = chunk [] }

-- `n` steps of a reader whose channel is closed
unfoldable runs : Bool → ℕ → Reader × Guest → Reader × Guest
runs tty zero p = p
runs tty (suc n) p = runs tty n (reader_step tty lost p.0 p.1)

-- Such a reader comes to its end in an open guest, and notes the failure.
record Ended (tty : Bool) (r : Reader) (g : Guest) : Type 0 where
  steps : ℕ
  guest : Guest
  ends : runs tty steps (r, g) ≡ (gone, guest)
  closed : guest.closed ≡ false
  status : guest.status ≡ disconnected

module _ (tty : Bool) where
  by_step :
      (r : Reader) (g : Guest)
      → Ended tty (reader_step tty lost r g).0 (reader_step tty lost r g).1
      → Ended tty r g
  unfolding runs
  by_step r g e = record {
    steps = suc e.steps;
    guest = e.guest;
    ends = e.ends;
    closed = e.closed;
    status = e.status;
  }

  marking-Ended : (g : Guest) → g.closed ≡ false → Ended tty marking g
  unfolding runs reader_step
  marking-Ended g c = record { steps = 1; guest = mark g; ends = refl; closed = c; status = refl }

  leaving-Ended : (g : Guest) → g.closed ≡ false → Ended tty leaving g
  unfolding reader_step
  leaving-Ended g c =
      by_step leaving g
        (subst (λ b. Ended tty (if b then gone else marking) g) (sym c) (marking-Ended g c))

  catching-Ended : (e : Text) (g : Guest) → g.closed ≡ false → Ended tty (catching e) g
  unfolding reader_step
  catching-Ended e g c = by_step (catching e) g (
      subst (λ b. Ended tty (if b then leaving else noting e) g) (sym c)
        (by_step (noting e) g (leaving-Ended (record g { error = e }) c)))

  receiving-Ended : (p : Text) (g : Guest) → g.closed ≡ false → Ended tty (receiving p) g
  unfolding reader_step
  receiving-Ended p g c = by_step (receiving p) g (leaving-Ended g c)

  testing-Ended : (p : Text) (g : Guest) → g.closed ≡ false → Ended tty (testing p) g
  unfolding reader_step
  testing-Ended p g c = by_step (testing p) g (
      subst (λ b. Ended tty (if b then leaving else receiving p) g) (sym c) (receiving-Ended p g c))

  catch-Ended : (e : Exc) (g : Guest) → g.closed ≡ false → Ended tty (catch e) g
  unfolding catch
  catch-Ended (runtime_error e) g c = catching-Ended e g c
  catch-Ended (os_error e) g c = catching-Ended e g c
  catch-Ended (timeout_error e) g c = catching-Ended e g c
  catch-Ended value_error g c = leaving-Ended g c
  catch-Ended index_error g c = leaving-Ended g c
  catch-Ended attribute_error g c = leaving-Ended g c
  catch-Ended (bad_value e) g c = leaving-Ended g c
  catch-Ended timeout_expired g c = leaving-Ended g c

traced-Ended :
    (m : Result Text × Guest) → m.1.closed ≡ false → Ended false (traced m).0 (traced m).1
traced-Ended (ok p, g) c = testing-Ended false p g c
traced-Ended (err e, g) c = catch-Ended false e g c

handling-Ended :
    (tty : Bool) (p : Text) (bytes : List ℕ) (g : Guest)
    → g.closed ≡ false
    → Ended tty (handling p bytes) g
unfolding reader_step handle
handling-Ended true p bytes g c =
    by_step true (handling p bytes) g
      (testing-Ended true p _ ((console_chunk-SameBack bytes g).closed ∙ c))
handling-Ended false p bytes g c = by_step false (handling p bytes) g (
    traced-Ended (trace_text p (decode bytes) g)
      ((trace_text-SameFront p (decode bytes) g).closed ∙ c))

reader-Ended :
    (tty : Bool) (r : Reader) (g : Guest) → g.closed ≡ false → is_gone r ≡ false → Ended tty r g
unfolding reader_step
reader-Ended tty opening g c q = by_step tty opening g (testing-Ended tty [] g c)
reader-Ended tty (testing p) g c q = testing-Ended tty p g c
reader-Ended tty (receiving p) g c q = receiving-Ended tty p g c
reader-Ended tty (handling p bytes) g c q = handling-Ended tty p bytes g c
reader-Ended tty (catching e) g c q = catching-Ended tty e g c
reader-Ended tty (noting e) g c q =
    by_step tty (noting e) g (leaving-Ended tty (record g { error = e }) c)
reader-Ended tty leaving g c q = leaving-Ended tty g c
reader-Ended tty marking g c q = marking-Ended tty g c
reader-Ended tty gone g c q = cc q

tty-After :
    (n : ℕ) (s t : Threads) (r : Reader) (g : Guest)
    → After s t
    → runs true n (t.tty, t.guest) ≡ (r, g)
    → After s (record t { guest = g; tty = r })
unfolding runs move_tty
tty-After zero s t r g a e =
    subst (After s) (ap (λ (p : Reader × Guest). record t { guest = p.1; tty = p.0 }) e) a
tty-After (suc n) s t r g a e = tty-After n s (move_tty lost t) r g (later a (of_tty lost)) e

trace-After :
    (n : ℕ) (s t : Threads) (r : Reader) (g : Guest)
    → After s t
    → runs false n (t.trace, t.guest) ≡ (r, g)
    → After s (record t { guest = g; trace = r })
unfolding runs move_trace
trace-After zero s t r g a e =
    subst (After s) (ap (λ (p : Reader × Guest). record t { guest = p.1; trace = p.0 }) e) a
trace-After (suc n) s t r g a e =
    trace-After n s (move_trace lost t) r g (later a (of_trace lost)) e

look-prompted :
    (m : Meets) (o : Owner) (g : Guest)
    → o ≡ looking
    → ltb m.now m.deadline ≡ true
    → prompt_after 0 g ≡ true
    → owner_step m o g ≡ (prompted, g)
unfolding owner_step look wait_for
look-prompted m o g q early seen = rw (q, early, seen)

-- A later state in which both readers are gone and the failure is noted, while `start` is behind its
-- wait; and the state behind the step that `start` makes from it.
pub record Hides (s : Threads) (n : Meets) : Type 0 where
  pub failed : Threads
  pub reached : After s failed
  pub tty : failed.tty ≡ gone
  pub trace : failed.trace ≡ gone
  pub noted : failed.guest.status ≡ disconnected
  pub kept_open : failed.guest.closed ≡ false
  pub behind : (move_owner n failed).owner ≡ started
  pub hidden : (move_owner n failed).guest.status ≡ running
  pub no_tty : (move_owner n failed).tty ≡ gone
  pub no_trace : (move_owner n failed).trace ≡ gone

-- Whenever `start` finds the prompt in time while both readers are at work, wherever they are, the
-- threads can go on so that QEMU closes both channels, both readers note the failure and end, and the
-- next step of `start` returns a guest with the status running: the noted failure is lost, and no
-- reader is left to note it again.
pub lost-running :
    (s : Threads) (m n : Meets)
    → Reached s
    → s.owner ≡ looking
    → is_gone s.tty ≡ false
    → is_gone s.trace ≡ false
    → ltb m.now m.deadline ≡ true
    → prompt_after 0 s.guest ≡ true
    → Hides s n
unfolding move_owner owner_step
lost-running s m n r o p q early seen =
    let c : s.guest.closed ≡ false = (reached-IsSound s r).guest.flag ∙ ap has_closed o in
    let looks : move_owner m s ≡ record s { owner = prompted } =
      ap (λ (x : Owner × Guest). record s { guest = x.1; owner = x.0 })
        (look-prompted m s.owner s.guest o early seen) in
    let a : After s (record s { owner = prompted }) =
      subst (After s) looks (later here (of_owner m)) in
    let d = reader-Ended false s.trace s.guest c q in
    let b = trace-After d.steps s (record s { owner = prompted }) gone d.guest a d.ends in
    let e = reader-Ended true s.tty d.guest d.closed p in
    record {
      failed = record s { guest = e.guest; tty = gone; trace = gone; owner = prompted };
      reached =
          tty-After e.steps s (record s { guest = d.guest; trace = gone; owner = prompted }) gone
            e.guest b e.ends;
      tty = refl;
      trace = refl;
      noted = e.status;
      kept_open = e.closed;
      behind = refl;
      hidden = refl;
      no_tty = refl;
      no_trace = refl;
    }
