-- ===== src/Guest/Threads/Untouched.antt =====
-- The lines of the trace leave the console, the status, the error and `closed` as they are.
use mini_linux.Prelude.{
  ℕ, ◌⊎◌, arith, ◌≡◌, refl, ◌∙◌, Bool, true, false, List, [], ◌∷◌, ◌++◌, if◌then◌else◌,
}
use mini_linux.Prelude.Text.{Text, codes, text_eq}
use mini_linux.Prelude.Int.{ℤ}
use mini_linux.Prelude.Exec.{
  Exec, Result, ok, err, ◌>>=◌, pure, lift, to_int, resume, resume_after_read,
}
use mini_linux.Guest.{Guest, Event, faulted}
use mini_linux.Guest.Console.{console_chunk, console_text, note_panic}
use mini_linux.Guest.Lines.{cut}
use mini_linux.Guest.Trace.{
  Kind, process, mapping, kind_of, interesting, remember, update_process, update_map, update_data,
  update_memory, update_current, update, count_record, note, accept, read_parts, event,
}
use mini_linux.Guest.Trace.Log.{interesting_pure}
use mini_linux.Guest.Reader.{events, bounded, trace_text}

pub record SameFront (g h : Guest) : Type 0 where
  pub console : h.console ≡ g.console
  pub status : h.status ≡ g.status
  pub error : h.error ≡ g.error
  pub closed : h.closed ≡ g.closed

SameFront-refl : (g : Guest) → SameFront g g
SameFront-refl g = record { console = refl; status = refl; error = refl; closed = refl }

SameFront-trans : (f g h : Guest) → SameFront f g → SameFront g h → SameFront f h
SameFront-trans f g h x y = record {
  console = y.console ∙ x.console;
  status = y.status ∙ x.status;
  error = y.error ∙ x.error;
  closed = y.closed ∙ x.closed;
}

update_process-SameFront :
    (fields : List Text) (g : Guest) → SameFront g (update_process fields g).1
unfolding update_process
update_process-SameFront fields g = ground arith

update_map-SameFront : (fields : List Text) (g : Guest) → SameFront g (update_map fields g).1
unfolding update_map
update_map-SameFront fields g = ground arith

update-SameFront : (k : Kind) (fields : List Text) (g : Guest) → SameFront g (update k fields g).1
unfolding update update_data update_memory update_current
update-SameFront process fields g = update_process-SameFront fields g
update-SameFront mapping fields g = update_map-SameFront fields g
update-SameFront k fields g = ground arith

remember-SameFront : (e : Event) (g : Guest) → SameFront g (remember e g)
unfolding remember
remember-SameFront e g = record { console = refl; status = refl; error = refl; closed = refl }

note-SameFront :
    (e : Event) (fields : List Text) (keep : Bool) (g : Guest)
    → SameFront g (note e fields keep g).1
note-SameFront e fields true g =
    SameFront-trans g (remember e g) _ (remember-SameFront e g)
      (update-SameFront (kind_of e.kind) fields (remember e g))
note-SameFront e fields false g = update-SameFront (kind_of e.kind) fields g

count_record-SameFront : (t : ℤ) (g : Guest) → SameFront g (count_record t g)
unfolding count_record
count_record-SameFront t g = record { console = refl; status = refl; error = refl; closed = refl }

accept-SameFront :
    (name : Text) (t : ℤ) (fields : List Text) (g : Guest) → SameFront g (accept name t fields g).1
unfolding accept
accept-SameFront name t fields g =
    resume_after_read (SameFront g)
      (note (record { id = (count_record t g).sequence; kind = name; tick = t; fields = fields })
        fields)
      (interesting (kind_of name) fields (count_record t g)) (count_record t g)
      (interesting_pure (kind_of name) fields (count_record t g)) (count_record-SameFront t g)
      (λ keep. SameFront-trans g (count_record t g) _ (count_record-SameFront t g) (
        note-SameFront
          (record { id = (count_record t g).sequence; kind = name; tick = t; fields = fields })
          fields keep (count_record t g)))

record-SameFront :
    (name : Text) (fields : List Text) (g : Guest) (marked : Bool) (tick : Result ℤ)
    → SameFront g ((if marked then (do t ← lift tick; accept name t fields) else pure tt) g).1
record-SameFront name fields g true (ok t) = accept-SameFront name t fields g
record-SameFront name fields g true (err e) = SameFront-refl g
record-SameFront name fields g false tick = SameFront-refl g

read_parts-SameFront : (parts : List Text) (g : Guest) → SameFront g (read_parts parts g).1
unfolding read_parts
read_parts-SameFront (mark ∷ name ∷ tick ∷ fields) g =
    record-SameFront name fields g (text_eq mark (codes "ML")) (to_int tick)
read_parts-SameFront _ g = SameFront-refl g

event-SameFront : (line : Text) (g : Guest) → SameFront g (event line g).1
unfolding event
event-SameFront line g = read_parts-SameFront _ g

resume-SameFront :
    {A : Type 0} (g : Guest) (k : Exec Guest A) (m : Result Unit × Guest)
    → SameFront g m.1
    → ((h : Guest) → SameFront h (k h).1)
    → SameFront g (resume (λ _. k) m).1
resume-SameFront g k (ok _, h) x f = SameFront-trans g h _ x (f h)
resume-SameFront g k (err e, h) x f = x

events-SameFront : (lines : List Text) (g : Guest) → SameFront g (events lines g).1
unfolding events
events-SameFront [] g = SameFront-refl g
events-SameFront (l ∷ ls) g =
    resume-SameFront g (events ls) (event l g) (event-SameFront l g) (events-SameFront ls)

bounded-SameFront : (rest : Text) (g : Guest) → SameFront g (bounded rest g).1
bounded-SameFront rest g = ground arith

-- Any chunk of the trace, whether it is taken or raises.
pub trace_text-SameFront : (p t : Text) (g : Guest) → SameFront g (trace_text p t g).1
unfolding trace_text
trace_text-SameFront p t g =
    resume-SameFront g (bounded (cut (p ++ t)).1) (events (cut (p ++ t)).0 g)
      (events-SameFront (cut (p ++ t)).0 g) (bounded-SameFront (cut (p ++ t)).1)

-- The parts of a guest that text of the terminal does not change; it may set the status to faulted.
pub record SameBack (g h : Guest) : Type 0 where
  pub events : h.events ≡ g.events
  pub sequence : h.sequence ≡ g.sequence
  pub processes : h.processes ≡ g.processes
  pub closed : h.closed ≡ g.closed
  pub status : (h.status ≡ g.status) ⊎ (h.status ≡ faulted)

pub console_chunk-SameBack : (bytes : List ℕ) (g : Guest) → SameBack g (console_chunk bytes g)
unfolding console_chunk console_text note_panic
console_chunk-SameBack bytes g = record {
  events = ground arith;
  sequence = ground arith;
  processes = ground arith;
  closed = ground arith;
  status = ground arith;
}
