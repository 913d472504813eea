-- ===== src/Guest/Reader/Bounds.antt =====
-- What the reader of the trace keeps is bounded, whatever the stream.
use mini_linux.Prelude.{◌≤◌, ◌≡◌, refl, ap, List, [], ◌∷◌, ◌++◌, arith, length}
use mini_linux.Prelude.Text.{Text}
use mini_linux.Prelude.Exec.{Exec, Result, ok, err, resume}
use mini_linux.Guest.{Guest}
use mini_linux.Guest.Lines.{cut}
use mini_linux.Guest.Trace.{event_limit}
use mini_linux.Guest.Trace.Log.{IsShort, Extends-IsShort, events-Extends}
use mini_linux.Guest.Reader.{pending_limit, events, bounded, trace_text, trace_texts}
use mini_linux.Guest.Reader.Stream.{trace_text-le}

bounded_keeps : (rest : Text) (g : Guest) → (bounded rest g).1 ≡ g
bounded_keeps rest g = ground arith

trace_text-IsShort : (p t : Text) (g : Guest) → IsShort g → IsShort (trace_text p t g).1
unfolding trace_text
trace_text-IsShort p t g short =
    after (events (cut (p ++ t)).0 g)
      (Extends-IsShort g _ (events-Extends (cut (p ++ t)).0 g short))
  where
    after :
        (m : Result Unit × Guest)
        → IsShort m.1
        → IsShort (resume (λ _. bounded (cut (p ++ t)).1) m).1
    after (ok _, h) s = rw (bounded_keeps (cut (p ++ t)).1 h) s
    after (err e, h) s = s

-- What is bounded of a reader that took some chunks.
abbrev pub Bounded : Result Text × Guest → Type 0
Bounded m = (length m.1.events ≤ event_limit) × ((q : Text) → m.0 ≡ ok q → length q ≤ pending_limit)

ok_inj : {x y : Text} → ok x ≡ ok y → x ≡ y
ok_inj h = cc h

resume-Bounded :
    (f : Text → Exec Guest Text) (m : Result Text × Guest)
    → Bounded m
    → ((q : Text) (h : Guest)
        → length q ≤ pending_limit
        → length h.events ≤ event_limit
        → Bounded (f q h))
    → Bounded (resume f m)
resume-Bounded f (ok q, h) b k = k q h (b.1 q refl) b.0
resume-Bounded f (err e, h) b k = (b.0, λ q x. cc x)

trace_text-Bounded :
    (p t : Text) (g : Guest) → length g.events ≤ event_limit → Bounded (trace_text p t g)
trace_text-Bounded p t g b =
    (trace_text-IsShort p t g b, λ q h. trace_text-le p t g (ap (λ r. (r, (trace_text p t g).1)) h))

-- Any chunks of the trace leave at most 2000 records in the log, also where the reader raises; where
-- it does not, at most 4096 characters of an unfinished line are kept.
pub trace_texts-Bounded :
    (p : Text) (ts : List Text) (g : Guest)
    → length p ≤ pending_limit
    → length g.events ≤ event_limit
    → Bounded (trace_texts p ts g)
unfolding trace_texts
trace_texts-Bounded p [] g a b = (b, λ q h. rw (← ok_inj h) a)
trace_texts-Bounded p (t ∷ ts) g a b =
    resume-Bounded (λ p'. trace_texts p' ts) (trace_text p t g) (trace_text-Bounded p t g b)
      (λ q h. trace_texts-Bounded q ts h)
