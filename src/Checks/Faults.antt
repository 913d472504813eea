-- ===== src/Checks/Faults.antt =====
-- `mixed_fault` of tools/test-lab-boundaries.py, on the records after its command: which child
-- faulted, which one lived on, and that both ended as they should.
pub mod Witnessed
use mini_linux.Prelude.{ℕ, Bool, true, false, ◌&&◌, ◌==◌, List, [], ◌∷◌, length, some, none}
use mini_linux.Prelude.Text.{Text, codes, text_eq}
use mini_linux.Prelude.Int.{ℤ, pos, int_eq, int_Eq}
use mini_linux.Prelude.Dict
use mini_linux.Prelude.Exec.{index_error}
use mini_linux.Guest.{Event}
use mini_linux.Guest.Trace.Log.{events_after}
use mini_linux.Checks.{
  Verdict, passed, failed, raised, ◌>>=◌, ◌>>◌, holds, text_at, int_at, and_then, is_kind, is_from,
  of_kind, select, exists, table, lookup, found,
}

-- fault_pid, survivor_pid
pub record Pair : Type 0 where
  pub fault_pid : ℤ
  pub survivor_pid : ℤ

-- `by_program[6], by_program[4]`
unfoldable pub children : List Event → Verdict Pair
children events = do
  spawns ← of_kind (codes "spawn") events
  holds (length spawns == 2) (codes "expected exactly two children")
  by_program ← table 2 0 spawns
  fault_pid ← lookup (Dict.get (pos 6) by_program)
  survivor_pid ← lookup (Dict.get (pos 4) by_program)
  passed record { fault_pid = fault_pid; survivor_pid = survivor_pid }

-- `e["fields"][1] == "14" and e["fields"][5] == "3"`
unfoldable pub is_user_page_fault : Event → Verdict Bool
is_user_page_fault e = do
  vector ← text_at 1 e
  and_then (text_eq vector (codes "14"))
      (do level ← text_at 5 e; passed (text_eq level (codes "3")))

-- `len(faults) == 1 and ...`
unfoldable pub is_single : List Event → Verdict Bool
is_single [] = passed false
is_single (e ∷ []) = is_user_page_fault e
is_single (e ∷ f ∷ es) = passed false

-- `faults[0]`
abbrev pub first_fault : List Event → Verdict Event
first_fault [] = failed (raised index_error)
first_fault (e ∷ es) = passed e

unfoldable pub fault_of : ℤ → List Event → Verdict Event
fault_of pid events = do
  faults ← select (is_from (codes "fault") pid) events
  single ← is_single faults
  holds single (codes "expected a single CPL3 page-fault witness")
  first_fault faults

unfoldable pub check_exits : Pair → List Event → Verdict (Unit {0})
check_exits p events = do
  exited ← of_kind (codes "exit") events
  exits ← table 0 1 exited
  holds
      (found (Dict.get p.fault_pid exits) (pos 142)
        && found (Dict.get p.survivor_pid exits) (pos 0))
      (codes "both child exit statuses were not observed")

-- `e["kind"] == "syscall" and int(e["fields"][0]) == pid and int(e["fields"][1]) == 1`
abbrev pub is_write : ℤ → Event → Verdict Bool
is_write pid e = do
  of_pid ← is_from (codes "syscall") pid e
  and_then of_pid (do call ← int_at 1 e; passed (int_eq call (pos 1)))

unfoldable pub check_write : ℤ → List Event → Verdict (Unit {0})
check_write pid events = do
  wrote ← exists (is_write pid) events
  holds wrote (codes "survivor did not issue a write after the other child faulted")

-- lines 55 to 68, on the records since the command
unfoldable pub faulted_pair : List Event → Verdict Pair
faulted_pair events = do
  p ← children events
  fault ← fault_of p.fault_pid events
  check_exits p events
  check_write p.survivor_pid (events_after fault.id events)
  passed p
