-- ===== src/Guest/Trace/Processes.antt =====
-- The table of processes: its keys, its removals, and which process is current.
use mathlib.Core.Path.{subst}
use mini_linux.Prelude.{
  ℕ, ◌≡◌, refl, sym, ◌∙◌, Bool, true, false, List, [], ◌∷◌, arith, if◌then◌else◌, Bool-cases, inl,
  inr, Option, none, some,
}
use mini_linux.Prelude.Text.{Text, codes, text_eq}
use mini_linux.Prelude.Exec.{lift, pure, Result, ok, err, ◌>>=◌, resume_after_read, to_int}
use mini_linux.Prelude.Int.{ℤ, pos, int_eq, int_eq_iff, int_Eq}
use mini_linux.Prelude.Dict
use mini_linux.Prelude.Dict.{Dict, values, get-put, get-pop}
use mini_linux.Guest.Trace.Log.{interesting_pure}
use mini_linux.Guest.{Guest, Event, Process}
use mini_linux.Guest.Trace.{
  Kind, schedule, syscall, process, mapping, kind_of, interesting, int_field, ProcessChange, forget,
  store, process_change, change_process, mark_current, update, update_process, update_map,
  update_data, update_memory, update_current, count_record, remember, accept, note, read_parts,
  event,
}

-- Every process stands under its own pid, and no pid stands twice.
abbrev pub IsKeyed : Dict ℤ Process → Type 0
IsKeyed [] = Unit
IsKeyed ((k, p) ∷ d) = (p.pid ≡ k) × (Dict.get k d ≡ none) × IsKeyed d

fresh_after_put :
    (k j : ℤ) (p : Process) (d : Dict ℤ Process)
    → int_eq j k ≡ false
    → Dict.get j d ≡ none
    → Dict.get j (Dict.put k p d) ≡ none
fresh_after_put k j p d differ h = ground (arith, get-put k j p d, int_eq_iff k j, int_eq_iff j k)

fresh_after_pop :
    (k j : ℤ) (d : Dict ℤ Process) → Dict.get j d ≡ none → Dict.get j (Dict.pop k d) ≡ none
fresh_after_pop k j d h = ground (arith, get-pop k j d)

put-IsKeyed :
    (k : ℤ) (p : Process) (d : Dict ℤ Process) → p.pid ≡ k → IsKeyed d → IsKeyed (Dict.put k p d)
unfolding Dict.put
put-IsKeyed k p [] e h = (e, unfold Dict.get in refl, tt)
put-IsKeyed k p ((j, q) ∷ d) e h = elim (Bool-cases (int_eq j k)) [
  | inl same ↦ rw same (e ∙ sym ((int_eq_iff j k).0 same), h.1, h.2)
  | inr differ ↦ rw differ (h.0, fresh_after_put k j p d differ h.1, put-IsKeyed k p d e h.2)
]

pop-IsKeyed : (k : ℤ) (d : Dict ℤ Process) → IsKeyed d → IsKeyed (Dict.pop k d)
unfolding Dict.pop
pop-IsKeyed k [] h = tt
pop-IsKeyed k ((j, q) ∷ d) h = elim (Bool-cases (int_eq j k)) [
  | inl same ↦ rw same (pop-IsKeyed k d h.2)
  | inr differ ↦ rw differ (h.0, fresh_after_pop k j d h.1, pop-IsKeyed k d h.2)
]

get-mark_current :
    (pid k : ℤ) (d : Dict ℤ Process) → Dict.get k d ≡ none → Dict.get k (mark_current pid d) ≡ none
unfolding mark_current Dict.get
get-mark_current pid k [] h = refl
get-mark_current pid k ((j, p) ∷ d) h = ground (arith, get-mark_current pid k d)

mark_current-IsKeyed : (pid : ℤ) (d : Dict ℤ Process) → IsKeyed d → IsKeyed (mark_current pid d)
unfolding mark_current
mark_current-IsKeyed pid [] h = tt
mark_current-IsKeyed pid ((k, p) ∷ d) h =
    (h.0, get-mark_current pid k d h.1, mark_current-IsKeyed pid d h.2)

-- Reading the fields of a process record changes nothing.
process_change_pure : (fields : List Text) (g : Guest) → (process_change fields g).1 ≡ g
unfolding process_change
process_change_pure fields g = ground arith

abbrev Keyed : Guest → Type 0
Keyed g = IsKeyed g.processes

change_process-Keyed : (c : ProcessChange) (g : Guest) → Keyed g → Keyed (change_process c g)
unfolding change_process
change_process-Keyed (forget pid) g h = pop-IsKeyed pid g.processes h
change_process-Keyed (store p) g h = put-IsKeyed p.pid p g.processes refl h

update_current-Keyed :
    (d : Dict ℤ Process) (fields : List Text) (i : ℕ) (g : Guest)
    → Keyed g
    → Keyed (update_current d fields i g).1
unfolding update_current
update_current-Keyed [] fields i g h = h
update_current-Keyed (_ ∷ _) fields i g h =
    resume_after_read Keyed _ (int_field fields i g) g (ground arith) h
      (λ pid. mark_current-IsKeyed pid g.processes h)

update-Keyed : (k : Kind) (fields : List Text) (g : Guest) → Keyed g → Keyed (update k fields g).1
unfolding update update_map update_data update_memory
update-Keyed process fields g h =
    resume_after_read Keyed _ (process_change fields g) g (process_change_pure fields g) h
      (λ c. change_process-Keyed c g h)
update-Keyed schedule fields g h = update_current-Keyed g.processes fields 1 g h
update-Keyed syscall fields g h = update_current-Keyed g.processes fields 0 g h
update-Keyed mapping fields g h = subst IsKeyed (ground arith) h
update-Keyed k fields g h = subst IsKeyed (ground arith) h

note-Keyed :
    (e : Event) (fields : List Text) (keep : Bool) (g : Guest)
    → Keyed g
    → Keyed (note e fields keep g).1
unfolding remember
note-Keyed e fields true g h = update-Keyed (kind_of e.kind) fields (remember e g) h
note-Keyed e fields false g h = update-Keyed (kind_of e.kind) fields g h

accept-Keyed :
    (name : Text) (t : ℤ) (fields : List Text) (g : Guest)
    → Keyed g
    → Keyed (accept name t fields g).1
unfolding accept count_record
accept-Keyed name t fields g h =
    resume_after_read Keyed _ (interesting (kind_of name) fields (count_record t g))
      (count_record t g) (interesting_pure (kind_of name) fields (count_record t g)) h
      (λ keep. note-Keyed _ fields keep (count_record t g) h)

record-Keyed :
    (name : Text) (fields : List Text) (g : Guest) (marked : Bool) (tick : Result ℤ)
    → Keyed g
    → Keyed ((if marked then (do t ← lift tick; accept name t fields) else pure tt) g).1
record-Keyed name fields g true (ok t) h = accept-Keyed name t fields g h
record-Keyed name fields g true (err e) h = h
record-Keyed name fields g false tick h = h

read_parts-Keyed : (parts : List Text) (g : Guest) → Keyed g → Keyed (read_parts parts g).1
unfolding read_parts
read_parts-Keyed (mark ∷ name ∷ tick ∷ fields) g h =
    record-Keyed name fields g (text_eq mark (codes "ML")) (to_int tick) h
read_parts-Keyed _ g h = h

-- Every line keeps the table of processes keyed by their own pids, each pid at most once, also where
-- it raises.
pub event-IsKeyed :
    (line : Text) (g : Guest) → IsKeyed g.processes → IsKeyed (event line g).1.processes
unfolding event
event-IsKeyed line g h = read_parts-Keyed _ g h

-- the same process, current or not
abbrev pub with_current : Bool → Option Process → Option Process
with_current b none = none
with_current b (some p) = some (record p { current = b })

get-mark_current_lem :
    (pid k : ℤ) (d : Dict ℤ Process)
    → IsKeyed d
    → Dict.get k (mark_current pid d) ≡ with_current (int_eq k pid) (Dict.get k d)
unfolding mark_current Dict.get
get-mark_current_lem pid k [] h = refl
get-mark_current_lem pid k ((j, p) ∷ d) h = elim (Bool-cases (int_eq j k)) [
  | inl same ↦ rw (same, h.0, (int_eq_iff j k).0 same)
  | inr differ ↦ rw differ (get-mark_current_lem pid k d h.2)
]

accepted_current :
    (d : Dict ℤ Process) (fields : List Text) (i : ℕ) (pid : ℤ) (g : Guest)
    → d ≡ g.processes
    → IsKeyed g.processes
    → int_field fields i g ≡ (ok pid, g)
    → (k : ℤ)
    → Dict.get k (update_current d fields i g).1.processes
      ≡ with_current (int_eq k pid) (Dict.get k g.processes)
unfolding update_current
accepted_current [] fields i pid g e h f k = rw (← e) (unfold Dict.get in refl)
accepted_current (_ ∷ _) fields i pid g e h f k = rw f (get-mark_current_lem pid k g.processes h)

-- After a schedule record to process `pid`, exactly that process of the table is current, and no
-- other field of any process has changed.
pub schedule-current :
    (t : ℤ) (from to : Text) (rest : List Text) (pid : ℤ) (g : Guest)
    → IsKeyed g.processes
    → to_int to ≡ ok pid
    → (k : ℤ)
    → Dict.get k (accept (codes "schedule") t (from ∷ to ∷ rest) g).1.processes
      ≡ with_current (int_eq k pid) (Dict.get k g.processes)
unfolding accept kind_of interesting remember update count_record
schedule-current t from to rest pid g h e k =
    accepted_current g.processes (from ∷ to ∷ rest) 1 pid _ refl h (rw e) k

-- After a syscall record of process `pid`, exactly that process of the table is current, and no other
-- field of any process has changed.
pub syscall-current :
    (t : ℤ) (caller : Text) (rest : List Text) (pid : ℤ) (g : Guest)
    → IsKeyed g.processes
    → to_int caller ≡ ok pid
    → (k : ℤ)
    → Dict.get k (accept (codes "syscall") t (caller ∷ rest) g).1.processes
      ≡ with_current (int_eq k pid) (Dict.get k g.processes)
unfolding accept kind_of interesting remember update count_record
syscall-current t caller rest pid g h e k =
    accepted_current g.processes (caller ∷ rest) 0 pid _ refl h (rw e) k

-- A process record of state 0 ends with no exception, keeps the log, and removes exactly its pid from
-- the processes, the maps and the data.
pub process-forgotten :
    (t : ℤ) (a b c d : Text) (rest : List Text) (pid parent program : ℤ) (g : Guest)
    → to_int a ≡ ok pid
    → to_int b ≡ ok parent
    → to_int c ≡ ok program
    → to_int d ≡ ok (pos 0)
    → (h : Guest) × (accept (codes "process") t (a ∷ b ∷ c ∷ d ∷ rest) g ≡ (ok tt, h))
      × (h.events ≡ g.events)
      × ((k : ℤ) → Dict.get k h.processes ≡ (if int_eq pid k then none else Dict.get k g.processes))
      × ((k : ℤ) → Dict.get k h.maps ≡ (if int_eq pid k then none else Dict.get k g.maps))
      × ((k : ℤ) → Dict.get k h.page_data ≡ (if int_eq pid k then none else Dict.get k g.page_data))
unfolding accept kind_of interesting remember update update_process count_record
process-forgotten t a b c d rest pid parent program g ea eb ec ed = (
  change_process (forget pid) (count_record t g),
  rw (ea, eb, ec, ed),
  refl,
  λ k. get-pop pid k g.processes,
  λ k. get-pop pid k g.maps,
  λ k. get-pop pid k g.page_data,
)
