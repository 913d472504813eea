-- ===== src/Guest/Trace.antt =====
-- `Guest._event`: one line of the trace.
pub mod Log
pub mod Processes
use mini_linux.Prelude.{
  ℕ, ◌+◌, Bool, true, false, not, ◌||◌, List, [], ◌∷◌, ◌++◌, Option, none, some, ◌==◌,
  if◌then◌else◌, length, last_n, get_elem?,
}
use mini_linux.Prelude.Text.{Text, codes, text_eq, split, rstrip, text_Eq}
use mini_linux.Prelude.Int.{ℤ, pos, int_eq, max_ℤ, int_Eq}
use mini_linux.Prelude.Dict
use mini_linux.Prelude.Dict.{Dict}
use mini_linux.Prelude.Exec.{
  Exc, value_error, index_error, Result, ok, err, Exec, ◌>>=◌, ◌>>◌, pure, lift, gets, modify, when,
  item, index, to_int,
}
use mini_linux.Guest.{Guest, Event, Process, Mapping, Datum, programs, states}

abbrev pub event_limit : ℕ
event_limit = 2000

-- The kinds of record that `_event` tells apart by their name.
pub data Kind : Type 0 where
  boot spawn schedule syscall wait exit fault memory page_data process mapping other : Kind

unfoldable pub kind_of : Text → Kind
kind_of name =
    if text_eq name (codes "boot")
    then boot
    else if text_eq name (codes "spawn")
    then spawn
    else if text_eq name (codes "schedule")
    then schedule
    else if text_eq name (codes "syscall")
    then syscall
    else if text_eq name (codes "wait")
    then wait
    else if text_eq name (codes "exit")
    then exit
    else if text_eq name (codes "fault")
    then fault
    else if text_eq name (codes "memory")
    then memory
    else if text_eq name (codes "data")
    then page_data
    else if text_eq name (codes "process")
    then process
    else if text_eq name (codes "map")
    then mapping
    else other

-- `int(fields[i])`
abbrev pub int_field : List Text → ℕ → Exec Guest ℤ
int_field fields i = do f ← lift (item fields i); lift (to_int f)

-- one item of `a, b, … = map(int, fields[:n])`: too few of them are a ValueError too
abbrev unpacked : Option Text → Result ℤ
unpacked none = err value_error
unpacked (some f) = to_int f

abbrev pub int_item : List Text → ℕ → Exec Guest ℤ
int_item fields i = lift (unpacked (get_elem? fields i))

-- `not old or old["pa"] != fields[2] or old["marker"] != fields[3]`
unfoldable pub is_new_datum : Option Datum → List Text → Exec Guest Bool
is_new_datum none fields = pure true
is_new_datum (some old) fields = do
  pa ← lift (item fields 2)
  if not (text_eq old.pa pa)
      then pure true
      else do marker ← lift (item fields 3); pure (not (text_eq old.marker marker))

-- the value of `interesting`
unfoldable pub interesting : Kind → List Text → Exec Guest Bool
unfolding is_new_datum
interesting boot fields = pure true
interesting spawn fields = pure true
interesting schedule fields = pure true
interesting syscall fields = pure true
interesting wait fields = pure true
interesting exit fields = pure true
interesting fault fields = pure true
interesting memory fields = do
  free ← int_field fields 1
  old ← gets (λ g. g.free)
  pure (not (int_eq free old))
interesting page_data fields = do
  pid ← int_field fields 0
  old ← gets (λ g. Dict.get pid g.page_data)
  is_new_datum old fields
interesting process fields = pure false
interesting mapping fields = pure false
interesting other fields = pure false

-- `self.events.append(event); self.events = self.events[-2000:]`
unfoldable pub remember : Event → Guest → Guest
remember e g = record g { events = last_n event_limit (g.events ++ e ∷ []) }

-- What a process record does to the tables: a record of state 0 removes its process.
pub data ProcessChange : Type 0 where
  forget : ℤ → ProcessChange
  store : Process → ProcessChange

unfoldable pub process_change : List Text → Exec Guest ProcessChange
process_change fields = do
  pid ← int_item fields 0
  parent ← int_item fields 1
  program ← int_item fields 2
  state ← int_item fields 3
  if int_eq state (pos 0) then pure (forget pid) else do
    program_name ← lift (index programs program)
    state_name ← lift (index states state)
    root ← lift (item fields 4)
    slices ← int_field fields 5
    current ← lift (item fields 6)
    pure (
        store (record {
          pid = pid;
          parent = parent;
          program = program_name;
          state = state_name;
          root = root;
          slices = slices;
          current = text_eq current (codes "1");
        }))

unfoldable pub change_process : ProcessChange → Guest → Guest
change_process (forget pid) g = record g {
  processes = Dict.pop pid g.processes;
  maps = Dict.pop pid g.maps;
  page_data = Dict.pop pid g.page_data;
}
change_process (store p) g = record g { processes = Dict.put p.pid p g.processes }

unfoldable pub update_process : List Text → Exec Guest Unit
unfolding process_change change_process
update_process fields = do change ← process_change fields; modify (change_process change)

-- `d.setdefault(pid, {})`, read
abbrev maps_of : Option (Dict Text Mapping) → Dict Text Mapping
maps_of none = []
maps_of (some m) = m

unfoldable pub update_map : List Text → Exec Guest Unit
update_map fields = do
  pid ← int_field fields 0
  va ← lift (item fields 1)
  pa ← lift (item fields 2)
  flags ← int_field fields 3
  name ← lift (item fields 4)
  modify (λ g. record g {
    maps =
        Dict.put pid
          (Dict.put va (record { va = va; pa = pa; flags = flags; name = name })
            (maps_of (Dict.get pid g.maps)))
          g.maps;
  })

unfoldable pub update_data : List Text → Exec Guest Unit
update_data fields = do
  va ← lift (item fields 1)
  pa ← lift (item fields 2)
  marker ← lift (item fields 3)
  pid ← int_field fields 0
  modify (λ g. record g {
    page_data = Dict.put pid (record { va = va; pa = pa; marker = marker }) g.page_data;
  })

unfoldable pub update_memory : List Text → Exec Guest Unit
update_memory fields = do
  frames ← int_item fields 0
  free ← int_item fields 1
  modify (λ g. record g { frames = frames; free = free })

-- `for process in self.processes.values(): process["current"] = process["pid"] == pid`
unfoldable pub mark_current : ℤ → Dict ℤ Process → Dict ℤ Process
mark_current pid [] = []
mark_current pid ((k, p) ∷ d) = (k, record p { current = int_eq p.pid pid }) ∷ mark_current pid d

-- The loop reads `int(fields[i])` in each round, so not at all where there is no process.
unfoldable pub update_current : Dict ℤ Process → List Text → ℕ → Exec Guest Unit
unfolding mark_current
update_current [] fields i = pure tt
update_current (_ ∷ _) fields i = do
  pid ← int_field fields i
  modify (λ g. record g { processes = mark_current pid g.processes })

unfoldable pub update : Kind → List Text → Exec Guest Unit
unfolding update_process update_map update_data update_memory update_current
update process fields = update_process fields
update mapping fields = update_map fields
update page_data fields = update_data fields
update memory fields = update_memory fields
update schedule fields = do ps ← gets (λ g. g.processes); update_current ps fields 1
update syscall fields = do ps ← gets (λ g. g.processes); update_current ps fields 0
update _ fields = pure tt

-- `self.ticks = max(self.ticks, tick); self.sequence += 1`
unfoldable pub count_record : ℤ → Guest → Guest
count_record tick g = record g { ticks = max_ℤ g.ticks tick; sequence = g.sequence + 1 }

-- `if interesting: …`, and the change of the tables
abbrev pub note : Event → List Text → Bool → Exec Guest Unit
note e fields keep = do when keep (modify (remember e)); update (kind_of e.kind) fields

unfoldable pub accept : Text → ℤ → List Text → Exec Guest Unit
accept name tick fields = do
  modify (count_record tick)
  id ← gets (λ g. g.sequence)
  keep ← interesting (kind_of name) fields
  note (record { id = id; kind = name; tick = tick; fields = fields }) fields keep

-- the guard on `parts`, and the fields of a record
unfoldable pub read_parts : List Text → Exec Guest Unit
read_parts (mark ∷ name ∷ tick ∷ fields) =
    if text_eq mark (codes "ML") then (do t ← lift (to_int tick); accept name t fields) else pure tt
read_parts _ = pure tt

abbrev pub tab : ℕ
tab = 9

unfoldable pub event : Text → Exec Guest Unit
event line = read_parts (split tab (rstrip (λ c. c == 13) line))
