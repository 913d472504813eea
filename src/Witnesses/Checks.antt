-- ===== src/Witnesses/Checks.antt =====
-- The theorems of Checks at concrete inputs.
use mini_linux.Prelude.{ℕ, ◌≡◌, refl, false, List, [], ◌∷◌, ◌++◌, none, if◌then◌else◌}
use mini_linux.Prelude.Text.{Text, codes, contains, rstrip}
use mini_linux.Prelude.Int.{pos, int_of}
use mini_linux.Prelude.Hex.{hex_of}
use mini_linux.Prelude.Dict
use mini_linux.Prelude.Exec.{timeout_error, ok, err}
use mini_linux.Guest.{Event, Process, running}
use mini_linux.Guest.Session.{Snapshot}
use mini_linux.Guest.Trace.Log.{events_after}
use mini_linux.Checks.{passed, int_at, select, exists, table_onto}
use mini_linux.Checks.Steps.{Lab, shows_all}
use mini_linux.Checks.Faults.{
  Pair, children, is_user_page_fault, is_single, fault_of, check_exits, check_write, faulted_pair,
}
use mini_linux.Checks.Boundaries
use mini_linux.Checks.Boundaries.{
  Case, faulting, baseline_mode, quiet_baseline, restored, check_mixed_output, mixed_fault,
  run_cases, survivor_steps,
}
use mini_linux.Checks.Boundaries.Sessions.{AllSessions, sessions-AllSessions}
use mini_linux.Checks.Userland.{ints, pairs, switches, last, are_apart, Counters, counters}
use mini_linux.Checks.Userland.Shell
use mini_linux.Checks.Userland.Shell.{
  UserlandReport, reacts, greets, free_pages, returns_to, reuses, keeps_markers, runs_counters,
  has_no_child,
}
use mini_linux.Checks.Userland.Reports.{AllEntries, userland_sessions-AllEntries}

abbrev pub record_of : ℕ → Text → List Text → Event
record_of id kind fields = record { id = id; kind = kind; tick = pos 0; fields = fields }

abbrev fault_record : Event
fault_record =
    record_of 7 (codes "fault")
      (codes "3" ∷ codes "14" ∷ codes "0x400000" ∷ codes "5" ∷ codes "0x401000" ∷ codes "3" ∷ [])

abbrev data_a : Event
data_a =
    record_of 5 (codes "data") (codes "3" ∷ codes "0x400000" ∷ codes "0x1000" ∷ codes "0xa1" ∷ [])

abbrev data_b : Event
data_b =
    record_of 6 (codes "data") (codes "4" ∷ codes "0x400000" ∷ codes "0x2000" ∷ codes "0xb2" ∷ [])

abbrev trace : List Event
trace =
    record_of 1 (codes "spawn") (codes "3" ∷ codes "2" ∷ codes "6" ∷ [])
    ∷ record_of 2 (codes "spawn") (codes "4" ∷ codes "2" ∷ codes "4" ∷ [])
    ∷ record_of 3 (codes "schedule") (codes "3" ∷ codes "4" ∷ [])
    ∷ record_of 4 (codes "schedule") (codes "4" ∷ codes "3" ∷ [])
    ∷ data_a
    ∷ data_b
    ∷ fault_record
    ∷ record_of 8 (codes "syscall") (codes "4" ∷ codes "1" ∷ [])
    ∷ record_of 9 (codes "exit") (codes "3" ∷ codes "142" ∷ [])
    ∷ record_of 10 (codes "exit") (codes "4" ∷ codes "0" ∷ [])
    ∷ []

abbrev both_pids : Pair
both_pids = record { fault_pid = pos 3; survivor_pid = pos 4 }

abbrev pub both_counters : Counters
both_counters = record { ids = (pos 3, pos 4); data_a = data_a; data_b = data_b }

trace_faulted : faulted_pair trace ≡ passed both_pids
unfolding faulted_pair children is_user_page_fault is_single fault_of check_exits check_write select
    exists table_onto int_at int_of rstrip events_after Dict.get Dict.put
trace_faulted = refl

trace_counted : counters trace ≡ passed both_counters
unfolding counters ints pairs switches last are_apart select int_at int_of rstrip hex_of
trace_counted = refl

-- A guest that is always in this state, and answers every command with the same text.
abbrev pub shell_process : Text → Process
shell_process name = record {
  pid = pos 1;
  parent = pos 0;
  program = name;
  state = codes "ready";
  root = codes "0x1000";
  slices = pos 0;
  current = false;
}

abbrev pub seen : Snapshot
seen = record {
  status = running;
  error = [];
  console = codes "PID 1 entered user mode";
  console_base = 0;
  events = trace;
  processes = shell_process (codes "init") ∷ shell_process (codes "shell") ∷ [];
  maps = [];
  page_data = [];
  frames = pos 100;
  free = pos 90;
  ticks = pos 7;
  sequence = 0;
  guest_pid = none;
}

abbrev pub answer : Text
answer =
    codes
      "status 142 step=1 step=2 step=3 step=4 step=5 counter-a pid=3 counter-b hello from ramfs "
    ++ codes "help | ls | cat /hello.txt  17 bytes file not found unknown command unknown embedded "
    ++ codes "line too long too many arguments user boundaries passed hello from user mode "
    ++ codes "process capacity and reclamation passed waiting  init"

abbrev still_lab : Lab Unit
still_lab = record {
  start = λ s. (ok tt, s);
  command = λ text timeout s. (ok answer, s);
  send = λ text s. (ok tt, s);
  wait_for = λ p timeout s. (if p seen then ok tt else err (timeout_error []), s);
  snapshot = λ s. (ok seen, s);
  console = λ s. codes "PID 1 entered user mode";
  close = λ s. (ok tt, s);
  is_running = λ s. false;
}

abbrev boundary_report : List (ℕ × List Case)
boundary_report =
    (
      64,
      faulting (codes "run fault counter-a") both_pids (pos 90)
          ∷ faulting (codes "run counter-a fault") both_pids (pos 90)
          ∷ [],
    )
    ∷ []

boundary_run :
    Boundaries.sessions (λ m. still_lab) baseline_mode (64 ∷ []) tt ≡ (passed boundary_report, tt)
unfolding Boundaries.sessions Boundaries.session Boundaries.attempt quiet_baseline restored
    check_mixed_output mixed_fault run_cases shows_all faulted_pair children is_user_page_fault
    is_single fault_of check_exits check_write select exists table_onto int_at int_of rstrip
    events_after contains Dict.get Dict.put
boundary_run = refl

sessions-AllSessions_example : AllSessions (λ m. still_lab) (64 ∷ []) boundary_report tt tt
sessions-AllSessions_example =
    sessions-AllSessions (λ m. still_lab) (64 ∷ []) tt boundary_report tt boundary_run

abbrev userland_report : List (ℕ × UserlandReport)
userland_report = (64, record { free = pos 90; counters = both_counters }) ∷ []

userland_run : Shell.userland_sessions (λ m. still_lab) (64 ∷ []) tt ≡ (passed userland_report, tt)
unfolding Shell.userland_sessions Shell.userland_session Shell.try_userland reacts greets free_pages
    returns_to reuses keeps_markers runs_counters has_no_child counters ints pairs switches last
    are_apart select int_at int_of rstrip hex_of events_after contains
userland_run = refl

userland_sessions-AllEntries_example : AllEntries (λ m. still_lab) (64 ∷ []) userland_report tt tt
userland_sessions-AllEntries_example =
    userland_sessions-AllEntries (λ m. still_lab) (64 ∷ []) tt userland_report tt userland_run
