-- ===== src/Guest/Threads/Failing.antt =====
-- A guest that has failed: what `start` sees of it, and what it misses.
use mini_linux.Prelude.{
  ℕ, arith, ◌≡◌, refl, sym, ap, ◌∙◌, Bool, true, false, ◌||◌, ◌⊎◌, inl, inr, Option, none, some,
  List, [], ◌∷◌, ltb, Bool-cases,
}
use mini_linux.Prelude.Text.{Text, decode}
use mini_linux.Prelude.Exec.{Exc, Result, ok, err}
use mini_linux.Guest.{Guest, Status, faulted}
use mini_linux.Guest.Session.{wait_for, prompt_after, has_failed}
use mini_linux.Guest.Reader.{Received, chunk, failed, trace_text}
use mini_linux.Guest.Threads.{
  Reader, opening, testing, receiving, handling, catching, noting, leaving, marking, gone, Finds,
  catch, opened, received_at, traced, handle, reader_step, Owner, looking, prompted, started,
  shutting, joining, over, outlived, Meets, look, owner_step, Threads, begun, move_tty, move_trace,
  move_owner, test_child, note_exit,
}
use mini_linux.Guest.Threads.Untouched.{trace_text-SameFront, console_chunk-SameBack}
use mini_linux.Guest.Threads.Kept.{Kept, reader_step-keeps}
use mini_linux.Guest.Threads.Sound.{has_closed, IsSound, Move-IsSound, begun-IsSound}
use mini_linux.Guest.Threads.Steps.{
  Move, of_tty, of_trace, of_owner, tests_child, notes_exit, Reached, After-keeps,
}

-- `has_failed` of the status, which no write of a reader undoes
abbrev Failed : Guest → Type 0
Failed g = has_failed g.status ≡ true

failed_console :
    (s t : Status) → (t ≡ s) ⊎ (t ≡ faulted) → has_failed s ≡ true → has_failed t ≡ true
failed_console s t (inl q) h = ap has_failed q ∙ h
failed_console s t (inr q) h = ap has_failed q

Failed-Kept : Kept Failed
Failed-Kept = record {
  printed = λ bytes g h. failed_console g.status _ (console_chunk-SameBack bytes g).status h;
  traced = λ p t g h. ap has_failed (trace_text-SameFront p t g).status ∙ h;
  noted = λ e g h. h;
  marked = λ g h. refl;
}

abbrev pub is_gone : Reader → Bool
is_gone gone = true
is_gone _ = false

catch-stays : (e : Exc) → is_gone (catch e) ≡ false
unfolding catch
catch-stays e = ground arith

traced-stays : (m : Result Text × Guest) → is_gone (traced m).0 ≡ false
traced-stays (ok p, g) = refl
traced-stays (err e, g) = catch-stays e

handle-stays :
    (tty : Bool) (p : Text) (bytes : List ℕ) (g : Guest) → is_gone (handle tty p bytes g).0 ≡ false
unfolding handle
handle-stays true p bytes g = refl
handle-stays false p bytes g = traced-stays (trace_text p (decode bytes) g)

opened-stays : (e : Option Text) → is_gone (opened e) ≡ false
opened-stays none = refl
opened-stays (some e) = refl

received_at-stays : (p : Text) (r : Received) → is_gone (received_at p r) ≡ false
received_at-stays p (failed e) = refl
received_at-stays p (chunk []) = refl
received_at-stays p (chunk (b ∷ bs)) = refl

-- A reader of an open guest that is gone, and was not before, has failed the guest.
gone-Failed :
    (tty : Bool) (f : Finds) (r : Reader) (g : Guest)
    → g.closed ≡ false
    → (is_gone r ≡ true → Failed g)
    → is_gone (reader_step tty f r g).0 ≡ true
    → Failed (reader_step tty f r g).1
unfolding reader_step
gone-Failed tty f opening g o h q = cc (sym (opened-stays f.refused) ∙ q)
gone-Failed tty f (testing p) g o h q = ground arith
gone-Failed tty f (receiving p) g o h q = cc (sym (received_at-stays p f.received) ∙ q)
gone-Failed tty f (handling p bytes) g o h q = cc (sym (handle-stays tty p bytes g) ∙ q)
gone-Failed tty f (catching e) g o h q = ground arith
gone-Failed tty f (noting e) g o h q = cc
gone-Failed tty f leaving g o h q = ground arith
gone-Failed tty f marking g o h q = refl
gone-Failed tty f gone g o h q = h refl

-- While `start` waits for the prompt, a reader that is gone has left the status faulted or
-- disconnected.
pub record IsWatched (s : Threads) : Type 0 where
  pub sound : IsSound s
  pub seen : s.owner ≡ looking → (is_gone s.tty || is_gone s.trace) ≡ true → Failed s.guest

either : (a b : Bool) → (a || b) ≡ true → (a ≡ true) ⊎ (b ≡ true)
either true b h = inl refl
either false b h = inr h

or_left : (a b : Bool) → a ≡ true → (a || b) ≡ true
or_left a b h = rw h

or_right : (a b : Bool) → b ≡ true → (a || b) ≡ true
or_right true b h = refl
or_right false b h = h

open_while_looking : (s : Threads) → IsSound s → s.owner ≡ looking → s.guest.closed ≡ false
open_while_looking s h q = h.guest.flag ∙ ap has_closed q

reader-seen :
    (tty : Bool) (f : Finds) (r other : Reader) (g : Guest)
    → g.closed ≡ false
    → ((is_gone r || is_gone other) ≡ true → Failed g)
    → (is_gone (reader_step tty f r g).0 || is_gone other) ≡ true
    → Failed (reader_step tty f r g).1
reader-seen tty f r other g o h q = elim (either _ (is_gone other) q) [
  | inl now ↦ gone-Failed tty f r g o (λ was. h (or_left (is_gone r) (is_gone other) was)) now
  | inr was ↦
      reader_step-keeps Failed Failed-Kept tty f r g (h (or_right (is_gone r) (is_gone other) was))
]

swapped : (a b : Bool) → (a || b) ≡ true → (b || a) ≡ true
swapped true b h = or_right b true refl
swapped false b h = or_left b false h

still_looking :
    (m : Meets) (o : Owner) (g : Guest)
    → (owner_step m o g).0 ≡ looking
    → (o ≡ looking) × ((owner_step m o g).1 ≡ g)
unfolding owner_step
still_looking m looking g h = (refl, refl)
still_looking m prompted g h = cc
still_looking m started g h = cc
still_looking m shutting g h = cc
still_looking m joining g h = ground arith
still_looking m over g h = ground arith
still_looking m outlived g h = ground arith

note_exit-seen :
    (s : Threads)
    → (s.owner ≡ looking → (is_gone s.tty || is_gone s.trace) ≡ true → Failed s.guest)
    → (note_exit s).owner ≡ looking
    → (is_gone (note_exit s).tty || is_gone (note_exit s).trace) ≡ true
    → Failed (note_exit s).guest
unfolding note_exit
note_exit-seen s h o q = elim (Bool-cases s.viewing) [
  | inl yes_ ↦ rw yes_
  | inr no_ ↦ rw no_ (h (rw no_ at o) (rw no_ at q))
]

Move-IsWatched : (s t : Threads) → Move s t → IsWatched s → IsWatched t
unfolding move_tty move_trace move_owner test_child
Move-IsWatched s t (of_tty f) h = record {
  sound = Move-IsSound s t (of_tty f) h.sound;
  seen = λ o. reader-seen true f s.tty s.trace s.guest (open_while_looking s h.sound o) (h.seen o);
}
Move-IsWatched s t (of_trace f) h = record {
  sound = Move-IsSound s t (of_trace f) h.sound;
  seen = λ o q.
      reader-seen false f s.trace s.tty s.guest (open_while_looking s h.sound o)
        (λ g. h.seen o (swapped (is_gone s.trace) (is_gone s.tty) g)) (swapped (is_gone s.tty) _ q);
}
Move-IsWatched s t (of_owner m) h = record {
  sound = Move-IsSound s t (of_owner m) h.sound;
  seen = λ o q.
      let (was, same) = still_looking m s.owner s.guest o in
      ap (λ (g : Guest). has_failed g.status) same ∙ h.seen was q;
}
Move-IsWatched s t (tests_child child) h = record {
  sound = Move-IsSound s t (tests_child child) h.sound;
  seen = h.seen;
}
Move-IsWatched s t notes_exit h = record {
  sound = Move-IsSound s t notes_exit h.sound;
  seen = note_exit-seen s h.seen;
}

look-fails : (m : Meets) (g : Guest) → Failed g → prompt_after 0 g ≡ false → look m g ≡ shutting
unfolding look wait_for
look-fails m g bad none_yet = elim (Bool-cases (ltb m.now m.deadline)) [
  | inl early ↦ rw (early, none_yet, bad)
  | inr late ↦ rw late
]

-- While `start` waits, whatever the interleaving so far: once a reader is gone and the prompt is not
-- in the console, the next look ends the wait with an exception and goes on to `close`.
pub gone-shutting :
    (s : Threads) (m : Meets)
    → Reached s
    → s.owner ≡ looking
    → (is_gone s.tty || is_gone s.trace) ≡ true
    → prompt_after 0 s.guest ≡ false
    → ((move_owner m s).owner ≡ shutting) × ((move_owner m s).guest ≡ s.guest)
unfolding move_owner owner_step
gone-shutting s m r o q n =
    let watched =
      After-keeps IsWatched Move-IsWatched begun s r
        (record { sound = begun-IsSound; seen = λ _ b. cc }) in
    rw o (look-fails m s.guest (watched.seen o q) n, refl)
