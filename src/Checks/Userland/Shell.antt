-- ===== src/Checks/Userland/Shell.antt =====
-- `main` of tools/test-userland.py: the commands, what the shell must answer, and the pages that must
-- come back.
use mini_linux.Prelude.{ℕ, zero, suc, not, ◌&&◌, List, [], ◌∷◌}
use mini_linux.Prelude.Text.{Text, codes, contains}
use mini_linux.Prelude.Int.{ℤ, pos, int_eq, ltb_ℤ}
use mini_linux.Guest.Trace.Log.{events_after}
use mini_linux.Checks.{passed, holds, only_init_and_shell}
use mini_linux.Checks.Steps.{Lab, Step, ◌>>=◌, ◌>>◌, ask, judge, reads, default_timeout}
use mini_linux.Checks.Userland.{Counters, counters}

-- a command, what its output has, and the message when it ask not
abbrev pub Reaction : Type 0
Reaction = Text × Text × Text

-- `"x" * n`
abbrev pub repeat : ℕ → ℕ → Text
repeat c zero = []
repeat c (suc n) = c ∷ repeat c n

abbrev pub reactions : List Reaction
reactions =
    (codes "help", codes "help | ls | cat", codes "help missing")
    ∷ (codes "ls", codes "/hello.txt  17 bytes", codes "file enumeration differs")
    ∷ (codes "cat hello.txt", codes "hello from ramfs", codes "file bytes differ")
    ∷ (codes "cat missing", codes "file not found", codes "missing file did not return")
    ∷ (codes "nonsense", codes "unknown command", codes "unknown command did not return")
    ∷ (codes "run nonexistent", codes "unknown embedded", codes "unknown program accepted")
    ∷ (repeat b'x' 120, codes "line too long", codes "line overflow not rejected")
    ∷ (
      codes "run hello reader fault hello",
      codes "too many arguments",
      codes "extra arguments accepted",
    )
    ∷ (codes "cat hello.txX\u{8}t", codes "hello from ramfs", codes "backspace broke input")
    ∷ []

abbrev pub round_reactions : List Reaction
round_reactions =
    (codes "run hello", codes "hello from user mode", codes "slot reuse failed")
    ∷ (codes "run reader", codes "hello from ramfs", codes "file slot reuse failed")
    ∷ []

abbrev pub fault_reactions : List Reaction
fault_reactions =
    (codes "run fault", codes "status 142", codes "user fault was not contained")
    ∷ (codes "cat hello.txt", codes "hello from ramfs", codes "shell did not retake after fault")
    ∷ []

-- free_before_after, counter_pids, data_a and data_b; the rest of the entry is constant
pub record UserlandReport : Type 0 where
  pub free : ℤ
  pub counters : Counters

module _ {S : Type 0} (lab : Lab S) where
  -- `check(expected in guest.command(command), message)`, one after the other
  unfoldable pub reacts : List Reaction → Step S (Unit {0})
  reacts [] = judge (passed tt)
  reacts ((command, expected, message) ∷ more) = do
    output ← ask (lab.command command default_timeout)
    judge (holds (contains expected output) message)
    reacts more

  -- lines 21 to 34
  unfoldable pub greets : Step S (Unit {0})
  greets = do
    console ← reads lab.console
    judge (
        holds (contains (codes "PID 1 entered user mode") console)
          (codes "init did not reach user mode"))
    reacts reactions
    checked ← ask (lab.command (codes "check") default_timeout)
    judge (
        holds
          (contains (codes "user boundaries passed") checked
            && contains (codes "process capacity and reclamation passed") checked)
          (codes "new syscall boundaries or process capacity differ"))
    reacts ((codes "ps", codes "waiting  init", codes "init is not waiting for shell") ∷ [])

  -- `guest.snapshot()["free"]` after `mem`
  unfoldable pub free_pages : Step S ℤ
  free_pages = do
    ask (lab.command (codes "mem") default_timeout)
    x ← ask lab.snapshot
    judge (passed x.free)

  unfoldable pub returns_to : ℤ → Text → Step S (Unit {0})
  returns_to baseline message = do free ← free_pages; judge (holds (int_eq free baseline) message)

  -- `for _ in range(n)`
  unfoldable pub reuses : ℕ → Step S (Unit {0})
  reuses zero = judge (passed tt)
  reuses (suc n) = do reacts round_reactions; reuses n

  -- lines 46 and 47
  unfoldable pub keeps_markers : Text → Step S (Unit {0})
  keeps_markers pair = judge (
      holds
        ((contains (codes "counter-a") pair && contains (codes "counter-b") pair)
          && not (contains (codes "ISOLATION FAILED") pair))
        (codes "counter markers changed"))

  -- lines 44 to 48, and what they show
  unfoldable pub runs_counters : Step S Counters
  runs_counters = do
    start ← ask lab.snapshot
    pair ← ask (lab.command (codes "run counter-a counter-b") default_timeout)
    keeps_markers pair
    x ← ask lab.snapshot
    judge (counters (events_after start.sequence x.events))

  unfoldable pub has_no_child : Step S (Unit {0})
  has_no_child = do
    x ← ask lab.snapshot
    judge (holds (only_init_and_shell x.processes) (codes "exited process remained after wait"))

  -- the `try` of one memory size
  unfoldable pub try_userland : Step S UserlandReport
  try_userland = do
    ask lab.start
    greets
    baseline ← free_pages
    judge (holds (ltb_ℤ (pos 0) baseline) (codes "no memory observation"))
    reuses 12
    returns_to baseline (codes "sequential programs leaked pages")
    seen ← runs_counters
    returns_to baseline (codes "counter pair leaked pages")
    reacts fault_reactions
    returns_to baseline (codes "fault path leaked pages")
    has_no_child
    judge (passed record { free = baseline; counters = seen })

  -- with its `finally`
  unfoldable pub userland_session : Step S UserlandReport
  userland_session s =
      let (outcome, t) = try_userland s in
      (do
        ask lab.close
        running ← reads lab.is_running
        judge (holds (not running) (codes "QEMU remained running"))
        judge outcome)
        t

-- the loop over the memory sizes; each has a guest of its own
unfoldable pub userland_sessions :
    {S : Type 0} → (ℕ → Lab S) → List ℕ → Step S (List (ℕ × UserlandReport))
userland_sessions labs [] = judge (passed [])
userland_sessions labs (memory ∷ memories) = do
  one ← userland_session (labs memory)
  rest ← userland_sessions labs memories
  judge (passed ((memory, one) ∷ rest))
