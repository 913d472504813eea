-- ===== src/Guest/Reader/Stream.antt =====
-- What the reader thread of the trace makes of a stream, and how a reader ends.
use mathlib.Core.Path.{fun_ext}
use mini_linux.Prelude.{
  ◌≤◌, ◌≡◌, ◌≢◌, refl, sym, ap, ◌∙◌, Bool, true, false, List, [], ◌∷◌, ◌++◌, arith, if◌then◌else◌,
  append-nil, append_assoc, length, concat,
}
use mini_linux.Prelude.Text.{Text, decode}
use mini_linux.Prelude.Exec.{os_error, Exec, Result, ok, err, resume, resume-eq-ok, resume-resume}
use mini_linux.Guest.{Guest, disconnected}
use mini_linux.Guest.Lines.{cut}
use mini_linux.Guest.Trace.{event}
use mini_linux.Guest.Lines.Split.{is_line, cut-append, cut-is_line, cut_rest}
use mini_linux.Guest.Reader.{
  pending_limit, events, bounded, trace_text, trace_texts, Recv, Reading, ended, caught, finish,
  take_received, Turn, stop, again, read_once, read_loop, after_trace, note_closing, next_turn,
  Received, chunk, failed,
}

-- Lines in two parts are handled one part after the other, and an exception in the first stops both.
pub events-append :
    (ls ms : List Text) (g : Guest) → events (ls ++ ms) g ≡ resume (λ _. events ms) (events ls g)
unfolding events
events-append [] ms g = refl
events-append (l ∷ ls) ms g =
    ap (λ (k : Exec Guest Unit). resume (λ _. k) (event l g)) (fun_ext (events-append ls ms))
    ∙ resume-resume (λ _. events ls) (λ _. events ms) (event l g)

bounded-eq-ok :
    (rest : Text) (g : Guest) {q : Text} {h : Guest}
    → bounded rest g ≡ (ok q, h)
    → (q ≡ rest) × (h ≡ g) × (length rest ≤ pending_limit)
bounded-eq-ok rest g e = ground arith

trace_text-eq-ok :
    (p t : Text) (g : Guest) {q : Text} {h : Guest}
    → trace_text p t g ≡ (ok q, h)
    → (events (cut (p ++ t)).0 g ≡ (ok tt, h)) × (q ≡ (cut (p ++ t)).1) × (length q ≤ pending_limit)
unfolding trace_text
trace_text-eq-ok p t g e =
    let rest = (cut (p ++ t)).1 in
    let (_, h', done, last) = resume-eq-ok (λ _. bounded rest) (events (cut (p ++ t)).0 g) e in
    let (same, state, short) = bounded-eq-ok rest h' last in (rw state done, same, rw same short)

-- If the reader of the trace takes some chunks with no exception, then it has handled exactly the
-- complete lines of the whole stream, once and in order, whatever the chunks, and keeps the rest.
pub trace_texts-events :
    (p : Text) (ts : List Text) (g : Guest) {q : Text} {h : Guest}
    → is_line p ≡ true
    → trace_texts p ts g ≡ (ok q, h)
    → (events (cut (p ++ concat ts)).0 g ≡ (ok tt, h)) × (q ≡ (cut (p ++ concat ts)).1)
unfolding trace_texts concat
trace_texts-events p [] g whole e =
    rw (append-nil p) (rw (cut_rest p whole) (unfold events in ground arith))
trace_texts-events p (t ∷ ts) g whole e =
    let (p', g', first, later) = resume-eq-ok (λ p'. trace_texts p' ts) (trace_text p t g) e in
    let (done, same, _) = trace_text-eq-ok p t g first in
    let whole' = rw (← same) at (cut-is_line (p ++ t)).1 in
    let (done', same') = trace_texts-events p' ts g' whole' later in
    let after_cut : Text → List Text × Text =
      λ x. ((cut (p ++ t)).0 ++ (cut (x ++ concat ts)).0, (cut (x ++ concat ts)).1) in
    let pieces : cut (p ++ (t ++ concat ts)) ≡ after_cut p' =
      ap cut (sym (append_assoc p t (concat ts)))
      ∙ cut-append (p ++ t) (concat ts)
      ∙ ap after_cut (sym same) in
    rw pieces (
      events-append (cut (p ++ t)).0 (cut (p' ++ concat ts)).0 g
          ∙ ap (resume (λ _. events (cut (p' ++ concat ts)).0)) done
          ∙ done',
      same',
    )

-- What is kept of an unfinished line is never longer than the limit.
pub trace_text-le :
    (p t : Text) (g : Guest) {q : Text} {h : Guest}
    → trace_text p t g ≡ (ok q, h)
    → length q ≤ pending_limit
trace_text-le p t g e = (trace_text-eq-ok p t g e).2

abbrev HasEnded : Guest → Type 0
HasEnded h = h.closed ≡ false → (h.status ≡ disconnected) × (h.error ≢ [])

finish-HasEnded : (g : Guest) → HasEnded (finish g)
unfolding finish
finish-HasEnded g c = ground arith

abbrev Stops : Turn → Type 0
Stops (again p g) = Unit
Stops (stop g) = HasEnded g

after_trace-Stops : (m : Result Text × Guest) → Stops (after_trace m)
after_trace-Stops (ok p, g) = tt
after_trace-Stops (err e, g) = finish-HasEnded (caught e g)

take_received-Stops :
    (tty : Bool) (p : Text) (r : Received) (g : Guest) → Stops (take_received tty p r g)
unfolding take_received
take_received-Stops tty p (failed e) g = finish-HasEnded (caught (os_error e) g)
take_received-Stops tty p (chunk []) g = finish-HasEnded g
take_received-Stops true p (chunk (b ∷ bs)) g = tt
take_received-Stops false p (chunk (b ∷ bs)) g =
    after_trace-Stops (trace_text p (decode (b ∷ bs)) g)

Stops-if : (b : Bool) (t u : Turn) → Stops t → Stops u → Stops (if b then t else u)
Stops-if true t u s k = s
Stops-if false t u s k = k

read_once-Stops : (tty : Bool) (p : Text) (r : Recv) (g : Guest) → Stops (read_once tty p r g)
unfolding read_once
read_once-Stops tty p r g =
    Stops-if g.closed _ _ (finish-HasEnded g)
      (take_received-Stops tty p r.received (note_closing r.closing g))

next_turn-ended :
    (t : Turn) (rest : Text → Guest → Reading) (h : Guest)
    → Stops t
    → ((p : Text) (g : Guest) → rest p g ≡ ended h → HasEnded h)
    → next_turn t rest ≡ ended h
    → HasEnded h
next_turn-ended (again p g) rest h s ih e = ih p g e
next_turn-ended (stop g) rest h s ih e = let same : g ≡ h = cc in rw (← same) s

-- A reader thread that ends while the guest is not closed leaves the status disconnected and says why.
pub read_loop-ended :
    (tty : Bool) (p : Text) (rs : List Recv) (g h : Guest)
    → read_loop tty p rs g ≡ ended h
    → h.closed ≡ false
    → (h.status ≡ disconnected) × (h.error ≢ [])
unfolding read_loop
read_loop-ended tty p [] g h e = cc
read_loop-ended tty p (r ∷ rs) g h e =
    next_turn-ended (read_once tty p r g) (λ p' g'. read_loop tty p' rs g') h
      (read_once-Stops tty p r g) (λ p' g'. read_loop-ended tty p' rs g' h) e
