-- ===== src/Witnesses/Session.antt =====
-- The theorems of Guest/Session and Guest/Lifecycle at concrete inputs.
use mini_linux.Prelude.{
  ℕ, zero, suc, ◌≡◌, ◌≢◌, ◌≢◌, refl, ap, true, false, List, [], ◌∷◌, arith, length, concat, none,
}
use mini_linux.Prelude.Text.{Text, codes, contains}
use mini_linux.Prelude.Exec.{ok}
use mini_linux.Guest.{Guest, running, stopped, init}
use mini_linux.Guest.Console.{console_texts}
use mini_linux.Guest.Console.Window.{printed}
use mini_linux.Guest.Session.{
  alive, Poll, returned, waiting, wait_for, Socket, send_bytes, send, prompt_after, command,
}
use mini_linux.Guest.Session.Waiting.{wait_for-ends}
use mini_linux.Guest.Session.Commands.{command-full, command-output}
use mini_linux.Guest.Lifecycle.{CloseEnv, Host, Attempt}
use mini_linux.Guest.Lifecycle.Launch.{LaunchEnv}

-- every byte is sent
abbrev wire : Socket
wire sent b = none

abbrev ready : Guest
ready = record init { status = running; console = codes "mini$ " }

abbrev ls_output : List Text
ls_output = codes "ls\r\nhello.txt\r\n" ∷ codes "mini$ " ∷ []

command-output_example :
    command wire ready ready
      (codes "ls")
      8000
      (record { now = 25; guest = console_texts ls_output ready } ∷ [])
      (console_texts ls_output ready)
      []
    ≡ (returned (printed (concat ls_output)), codes "ls\r")
unfolding send send_bytes concat contains
command-output_example =
    command-output wire ready ready (codes "ls") 8000 25 ls_output ls_output [] [] (codes "ls\r")
      refl (omega arith) refl refl (omega arith) (omega arith) refl

abbrev dots : ℕ → Text
dots zero = []
dots (suc n) = b'.' ∷ dots n

length-dots : (n : ℕ) → length (dots n) ≡ n
length-dots zero = refl
length-dots (suc n) = ap suc (length-dots n)

-- a console of 64000 characters
abbrev full_guest : ℕ → Guest
full_guest n = record init { status = running; console = dots n }

command-full_example :
    (command wire
      (full_guest 64000)
      (full_guest 64000)
      (codes "ls")
      8000
      (record { now = 25; guest = full_guest 64000 } ∷ [])
      (full_guest 64000)
      []).0
    ≢ returned []
command-full_example =
    command-full wire (full_guest 64000) (full_guest 64000) (codes "ls") 8000
      (record { now = 25; guest = full_guest 64000 } ∷ []) (full_guest 64000) [] []
      (omega (arith, length-dots 64000)) (omega (arith, length-dots 64000), tt)

abbrev rounds : List Poll
rounds = record { now = 0; guest = init } ∷ record { now = 30; guest = ready } ∷ []

wait_for-ends_example :
    wait_for
      (prompt_after 0)
      20
      (record { now = 0; guest = init } ∷ record { now = 30; guest = init } ∷ [])
    ≢ waiting
wait_for-ends_example =
    wait_for-ends (prompt_after 0) 0 20 (record { now = 0; guest = init })
      (record { now = 30; guest = init } ∷ []) (omega arith, (omega arith, tt)) (omega arith)

-- QEMU has to be killed, and ends then
abbrev slow_end : CloseEnv
slow_end = record {
  sockets = 2;
  threads = 2;
  child = alive 77;
  stops = false;
  dies = true;
  has_log = true;
}

abbrev no_end : CloseEnv
no_end = record slow_end { dies = false }

abbrev host : Host
host = record { steps = []; guest = ready }

abbrev ended_guest : Guest
ended_guest = record ready { closed = true; status = stopped }

abbrev refusal : Attempt
refusal = record { lives = true; connects = false; now = 60 }

abbrev link : List Attempt
link = record refusal { connects = true } ∷ []

abbrev launch_env : LaunchEnv
launch_env = record {
  ports = 4001 ∷ 4001 ∷ 4002 ∷ [];
  qemu = ok (codes "qemu" ∷ []);
  log = ok tt;
  popen = λ args. ok 77;
  memory = 64;
  stops = false;
  dies = true;
  tty_deadline = 10000;
  tty = link;
  trace_deadline = 10000;
  trace = link;
  deadline = 20000;
  polls = rounds;
}

abbrev trace_port : ℕ
trace_port = 4002

ports_differ : trace_port ≢ 4001
ports_differ h = absurd (omega (arith, h))
