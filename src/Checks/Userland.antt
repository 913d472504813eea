-- ===== src/Checks/Userland.antt =====
-- tools/test-userland.py: the shell answered as it should, and the two counters shared the
-- processor and an address but no page.
pub mod Shell
pub mod Isolation
pub mod Reports
use mini_linux.Prelude.{
  ℕ, zero, suc, Bool, true, false, not, ◌&&◌, ◌||◌, List, [], ◌∷◌, ◌++◌, length,
}
use mini_linux.Prelude.Text.{Text, codes, text_eq, contains}
use mini_linux.Prelude.Int.{ℤ, pos, int_eq, ltb_ℤ}
use mini_linux.Prelude.Exec.{or_value_error, index_error}
use mini_linux.Prelude.Hex.{hex_of}
use mini_linux.Guest.{Event}
use mini_linux.Guest.Session.{Snapshot}
use mini_linux.Guest.Trace.Log.{events_after}
use mini_linux.Checks.{
  Verdict, passed, failed, assertion, from, ◌>>=◌, ◌>>◌, holds, text_at, int_at, and_then, is_from,
  of_kind, select,
}

-- `[int(e["fields"][i]) for e in events]`
unfoldable pub ints : ℕ → List Event → Verdict (List ℤ)
ints i [] = passed []
ints i (e ∷ es) = do n ← int_at i e; ns ← ints i es; passed (n ∷ ns)

-- `(ids[0], ids[1])`, once `len(ids) == 2` is checked
abbrev pub two : List ℤ → Verdict (ℤ × ℤ)
two (a ∷ b ∷ []) = passed (a, b)
two _ = failed (assertion (codes "counter instances were not both created"))

-- `{(int(e["fields"][0]), int(e["fields"][1])) for e in events}`
unfoldable pub pairs : List Event → Verdict (List (ℤ × ℤ))
pairs [] = passed []
pairs (e ∷ es) = do a ← int_at 0 e; b ← int_at 1 e; rest ← pairs es; passed ((a, b) ∷ rest)

-- `(a, b) in transitions`
unfoldable pub switches : ℤ → ℤ → List (ℤ × ℤ) → Bool
switches a b [] = false
switches a b ((c, d) ∷ ps) = (int_eq c a && int_eq d b) || switches a b ps

-- `int(e["fields"][3], 16) != 0`
abbrev pub is_marked : Event → Verdict Bool
is_marked e = do
  marker ← text_at 3 e
  value ← from (or_value_error (hex_of marker))
  passed (not (int_eq value (pos 0)))

abbrev pub marks_of : ℤ → List Event → Verdict (List Event)
marks_of pid = select (λ e. do of_pid ← is_from (codes "data") pid e; and_then of_pid (is_marked e))

-- `data[pid][-1]`, which is there when the list has been checked
unfoldable pub last : Event → List Event → Event
last e [] = e
last e (d ∷ es) = last d es

abbrev pub last_mark : List Event → Verdict Event
last_mark [] = failed (assertion (codes "physical data markers not observed"))
last_mark (e ∷ es) = passed (last e es)

-- `a[i] != b[i]`
abbrev pub differ_at : ℕ → Event → Event → Verdict Bool
differ_at i a b = do x ← text_at i a; y ← text_at i b; passed (not (text_eq x y))

-- `a[1] == b[1] and a[2] != b[2] and a[3] != b[3]`
unfoldable pub are_apart : Event → Event → Verdict Bool
are_apart a b = do
  va ← text_at 1 a
  vb ← text_at 1 b
  and_then (text_eq va vb) (do pages ← differ_at 2 a b; and_then pages (differ_at 3 a b))

-- counter_pids, data_a, data_b
pub record Counters : Type 0 where
  pub ids : ℤ × ℤ
  pub data_a : Event
  pub data_b : Event

-- lines 49 to 59, on the records since the command
unfoldable pub counters : List Event → Verdict Counters
counters events = do
  spawns ← of_kind (codes "spawn") events
  created ← ints 0 spawns
  ids ← two created
  schedules ← of_kind (codes "schedule") events
  transitions ← pairs schedules
  holds (switches ids.0 ids.1 transitions && switches ids.1 ids.0 transitions)
      (codes "timer did not switch between both programs")
  marks_a ← marks_of ids.0 events
  marks_b ← marks_of ids.1 events
  a ← last_mark marks_a
  b ← last_mark marks_b
  apart ← are_apart a b
  holds apart (codes "address isolation witness differs")
  passed record { ids = ids; data_a = a; data_b = b }
