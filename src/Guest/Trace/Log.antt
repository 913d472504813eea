-- ===== src/Guest/Trace/Log.antt =====
-- The kept records: their ids rise, and what one line or many add to them.
use mathlib.Core.Path.{subst}
use native.Mathlib.Decide.{dec_le}
use mini_linux.Prelude.{
  drop-append, drop-append_past, ℕ, zero, suc, ◌+◌, ◌-◌, ◌≤◌, ◌<◌, ◌≡◌, refl, sym, ap, ◌∙◌, Bool,
  true, false, List, [], ◌∷◌, ◌++◌, arith, ltb, if◌then◌else◌, append-nil, append_assoc, length,
  last_n, drop, length-append, length-last_n-le, last_n_short, last_n-last_n-append,
}
use mini_linux.Prelude.Text.{Text, codes, text_eq}
use mini_linux.Prelude.Exec.{
  lift, pure, Exec, Result, ok, err, ◌>>=◌, resume, resume_after_read, to_int,
}
use mini_linux.Prelude.Int.{ℤ}
use mini_linux.Guest.{Guest, Event}
use mini_linux.Guest.Trace.{
  event_limit, Kind, process, mapping, kind_of, interesting, remember, update, update_process,
  update_map, update_data, update_memory, update_current, count_record, accept, read_parts, event,
  note,
}
use mini_linux.Guest.Reader.{events}

-- The parts of a guest that `update` does not write.
pub record SameLog (g h : Guest) : Type 0 where
  pub events : h.events ≡ g.events
  pub sequence : h.sequence ≡ g.sequence
  pub ticks : h.ticks ≡ g.ticks

update_process-SameLog : (fields : List Text) (g : Guest) → SameLog g (update_process fields g).1
unfolding update_process
update_process-SameLog fields g = ground arith

update_map-SameLog : (fields : List Text) (g : Guest) → SameLog g (update_map fields g).1
unfolding update_map
update_map-SameLog fields g = ground arith

update-SameLog : (k : Kind) (fields : List Text) (g : Guest) → SameLog g (update k fields g).1
unfolding update update_data update_memory update_current
update-SameLog process fields g = update_process-SameLog fields g
update-SameLog mapping fields g = update_map-SameLog fields g
update-SameLog k fields g = ground arith

-- `interesting` only reads.
pub interesting_pure : (k : Kind) (fields : List Text) (g : Guest) → (interesting k fields g).1 ≡ g
unfolding interesting
interesting_pure k fields g = ground arith

-- Ids that rise from above `lo` and do not pass `hi`.
abbrev pub Rises : ℕ → ℕ → List Event → Type 0
Rises lo hi [] = lo ≤ hi
Rises lo hi (e ∷ es) = (lo < e.id) × Rises e.id hi es

pub Rises-le : (lo hi : ℕ) (es : List Event) → Rises lo hi es → lo ≤ hi
Rises-le lo hi [] r = r
Rises-le lo hi (e ∷ es) r = omega (arith, Rises-le e.id hi es r.1)

pub Rises-append :
    (lo mid hi : ℕ) (es fs : List Event)
    → Rises lo mid es
    → Rises mid hi fs
    → Rises lo hi (es ++ fs)
Rises-append lo mid hi [] [] r s = omega arith
Rises-append lo mid hi [] (f ∷ fs) r s = (omega arith, s.1)
Rises-append lo mid hi (e ∷ es) fs r s = (r.0, Rises-append e.id mid hi es fs r.1 s)

pub Rises-weaken : (lo lo' hi : ℕ) (es : List Event) → lo ≤ lo' → Rises lo' hi es → Rises lo hi es
Rises-weaken lo lo' hi [] h r = omega arith
Rises-weaken lo lo' hi (e ∷ es) h r = (omega arith, r.1)

pub Rises-drop : (n lo hi : ℕ) (es : List Event) → Rises lo hi es → Rises lo hi (drop n es)
Rises-drop zero lo hi es r = r
Rises-drop (suc n) lo hi [] r = r
Rises-drop (suc n) lo hi (e ∷ es) r =
    Rises-weaken lo e.id hi (drop n es) (omega arith) (Rises-drop n e.id hi es r.1)

-- What a step adds to the log: new records with ids above the old sequence, of which the log keeps
-- the last 2000.
pub record Extends (g h : Guest) : Type 0 where
  pub added : List Event
  pub kept : h.events ≡ last_n event_limit (g.events ++ added)
  pub rises : Rises g.sequence h.sequence added

abbrev pub IsShort : Guest → Type 0
IsShort g = length g.events ≤ event_limit

pub Extends-IsShort : (g h : Guest) → Extends g h → IsShort h
Extends-IsShort g h x =
    omega (arith, ap length x.kept, length-last_n-le event_limit (g.events ++ x.added))

Extends_refl : (g : Guest) → IsShort g → Extends g g
Extends_refl g short = record {
  added = [];
  kept = sym (
      last_n_short event_limit (g.events ++ []) (omega (arith, length-append g.events []))
      ∙ append-nil g.events);
  rises = omega arith;
}

Extends_trans : (f g h : Guest) → Extends f g → Extends g h → Extends f h
Extends_trans f g h x y = record {
  added = x.added ++ y.added;
  kept =
      y.kept
      ∙ ap (λ es. last_n event_limit (es ++ y.added)) x.kept
      ∙ last_n-last_n-append event_limit (f.events ++ x.added) y.added
      ∙ ap (last_n event_limit) (append_assoc f.events x.added y.added);
  rises = Rises-append f.sequence g.sequence h.sequence x.added y.added x.rises y.rises;
}

SameLog-Extends : (f g h : Guest) → SameLog g h → Extends f g → Extends f h
SameLog-Extends f g h s x = record {
  added = x.added;
  kept = s.events ∙ x.kept;
  rises = rw s.sequence x.rises;
}

count_record-Extends : (t : ℤ) (g : Guest) → IsShort g → Extends g (count_record t g)
unfolding count_record Extends_refl
count_record-Extends t g short = record {
  added = [];
  kept = (Extends_refl g short).kept;
  rises = omega arith;
}

-- A record that is kept gets the sequence number that was just counted.
remember-Extends :
    (t : ℤ) (name : Text) (fields : List Text) (g : Guest)
    → Extends g (
        remember
          (record { id = g.sequence + 1; kind = name; tick = t; fields = fields })
          (count_record t g))
unfolding count_record remember
remember-Extends t name fields g = record {
  added = record { id = g.sequence + 1; kind = name; tick = t; fields = fields } ∷ [];
  kept = refl;
  rises = omega arith;
}

note-Extends :
    (t : ℤ) (name : Text) (fields : List Text) (g : Guest) (keep : Bool)
    → IsShort g
    → Extends g
        (note
          (record { id = g.sequence + 1; kind = name; tick = t; fields = fields })
          fields
          keep
          (count_record t g)).1
note-Extends t name fields g true short =
    SameLog-Extends g _ _ (update-SameLog (kind_of name) fields _)
      (remember-Extends t name fields g)
note-Extends t name fields g false short =
    SameLog-Extends g _ _ (update-SameLog (kind_of name) fields _) (count_record-Extends t g short)

accept-Extends :
    (name : Text) (t : ℤ) (fields : List Text) (g : Guest)
    → IsShort g
    → Extends g (accept name t fields g).1
unfolding accept count_record
accept-Extends name t fields g short =
    resume_after_read (Extends g)
      (note (record { id = (count_record t g).sequence; kind = name; tick = t; fields = fields })
        fields)
      (interesting (kind_of name) fields (count_record t g)) (count_record t g)
      (interesting_pure (kind_of name) fields (count_record t g)) (count_record-Extends t g short)
      (λ keep. note-Extends t name fields g keep short)

record-Extends :
    (name : Text) (fields : List Text) (g : Guest) (marked : Bool) (tick : Result ℤ)
    → IsShort g
    → Extends g ((if marked then (do t ← lift tick; accept name t fields) else pure tt) g).1
record-Extends name fields g true (ok t) short = accept-Extends name t fields g short
record-Extends name fields g true (err e) short = Extends_refl g short
record-Extends name fields g false tick short = Extends_refl g short

read_parts-Extends : (parts : List Text) (g : Guest) → IsShort g → Extends g (read_parts parts g).1
unfolding read_parts
read_parts-Extends (mark ∷ name ∷ tick ∷ fields) g short =
    record-Extends name fields g (text_eq mark (codes "ML")) (to_int tick) short
read_parts-Extends _ g short = Extends_refl g short

-- One line of the trace adds to the kept records only records with new, higher ids, also where it
-- raises, and drops only the oldest ones beyond the last 2000.
pub event-Extends :
    (line : Text) (g : Guest) → length g.events ≤ event_limit → Extends g (event line g).1
unfolding event
event-Extends line g short = read_parts-Extends _ g short

resume-Extends_unit :
    (g : Guest) (k : Exec Guest Unit) (m : Result Unit × Guest)
    → Extends g m.1
    → ((h : Guest) → Extends g h → Extends g (k h).1)
    → Extends g (resume (λ _. k) m).1
resume-Extends_unit g k (ok _, h) x f = f h x
resume-Extends_unit g k (err e, h) x f = x

pub events-Extends :
    (lines : List Text) (g : Guest) → length g.events ≤ event_limit → Extends g (events lines g).1
unfolding events
events-Extends [] g short = Extends_refl g short
events-Extends (l ∷ ls) g short =
    resume-Extends_unit g (events ls) (event l g) (event-Extends l g short)
      (λ h x. Extends_trans g h _ x (events-Extends ls h (Extends-IsShort g h x)))

-- `[e for e in events if e["id"] > after]`
unfoldable pub events_after : ℕ → List Event → List Event
events_after after [] = []
events_after after (e ∷ es) =
    let rest = events_after after es in if ltb after e.id then e ∷ rest else rest

events_after-new : (lo hi : ℕ) (es : List Event) → Rises lo hi es → events_after lo es ≡ es
unfolding events_after
events_after-new lo hi [] r = refl
events_after-new lo hi (e ∷ es) r =
    ground (arith, events_after-new lo hi es (Rises-weaken lo e.id hi es (omega arith) r.1))

events_after-old :
    (lo hi : ℕ) (es fs : List Event)
    → Rises lo hi es
    → events_after hi (es ++ fs) ≡ events_after hi fs
unfolding events_after
events_after-old lo hi [] fs r = refl
events_after-old lo hi (e ∷ es) fs r =
    ground (arith, events_after-old e.id hi es fs r.1, Rises-le e.id hi es r.1)

-- The log of a guest: at most 2000 records, with rising ids up to the sequence number.
pub record IsLog (g : Guest) : Type 0 where
  pub short : length g.events ≤ event_limit
  pub rises : Rises 0 g.sequence g.events

pub Extends-IsLog : (g h : Guest) → IsLog g → Extends g h → IsLog h
Extends-IsLog g h l x = record {
  short = Extends-IsShort g h x;
  rises = subst (Rises 0 h.sequence) (sym x.kept) (
      Rises-drop (length (g.events ++ x.added) - event_limit) 0 h.sequence (g.events ++ x.added)
        (Rises-append 0 g.sequence h.sequence g.events x.added l.rises x.rises));
}

-- Whatever the lines, and also where one raises: the kept records are at most 2000, their ids rise
-- strictly, and none is above the sequence number.
pub events-IsLog : (lines : List Text) (g : Guest) → IsLog g → IsLog (events lines g).1
events-IsLog lines g l = Extends-IsLog g _ l (events-Extends lines g l.short)

last_n-after :
    (lo hi : ℕ) (es fs : List Event)
    → Rises 0 lo es
    → Rises lo hi fs
    → length es ≤ event_limit
    → events_after lo (last_n event_limit (es ++ fs)) ≡ last_n event_limit fs
last_n-after lo hi es fs r s short =
    let k = length (es ++ fs) - event_limit in
    elim (dec_le k (length es)) [
      | yes h ↦
          ap (events_after lo) (drop-append k es fs h)
          ∙ events_after-old 0 lo (drop k es) fs (Rises-drop k 0 lo es r)
          ∙ events_after-new lo hi fs s
          ∙ sym (last_n_short event_limit fs (omega (arith, length-append es fs)))
      | no h ↦
          let past : drop k (es ++ fs) ≡ last_n event_limit fs =
            drop-append_past k es fs (omega arith)
            ∙ ap (λ j. drop j fs) (omega (arith, length-append es fs)) in
          ap (events_after lo) past
          ∙ events_after-new lo hi (last_n event_limit fs)
              (Rises-drop (length fs - event_limit) lo hi fs s)
    ]

-- A client that has seen the log up to its sequence number, and asks for the records after it once
-- more lines have come, gets the records added since, each once and in order, or the last 2000 of
-- them if there are more.
pub events_after-events :
    (lines : List Text) (g : Guest)
    → IsLog g
    → (added : List Event) × Rises g.sequence (events lines g).1.sequence added
      × ((events lines g).1.events ≡ last_n event_limit (g.events ++ added))
      × (events_after g.sequence (events lines g).1.events ≡ last_n event_limit added)
events_after-events lines g l =
    let x = events-Extends lines g l.short in
    (
      x.added,
      x.rises,
      x.kept,
      ap (events_after g.sequence) x.kept
          ∙ last_n-after g.sequence (events lines g).1.sequence g.events x.added l.rises x.rises
              l.short,
    )
