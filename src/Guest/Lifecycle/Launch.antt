-- ===== src/Guest/Lifecycle/Launch.antt =====
-- `start` of `Guest` from its first line: the two ports, the command line, the log and the launch of
-- QEMU. What `qemu_command`, the log and `Popen` do is an argument, and so are the ports that the
-- system gives, in their order.
pub mod Ports
use mini_linux.Prelude.{
  ℕ, zero, suc, ◌+◌, Bool, true, false, List, [], ◌∷◌, ◌++◌, Option, none, some, if◌then◌else◌,
  ◌==◌, concat,
}
use mini_linux.Prelude.Text.{Text, codes}
use mini_linux.Prelude.Decimal.{show}
use mini_linux.Prelude.Exec.{Exc, Result, ok, err}
use mini_linux.Guest.{Guest}
use mini_linux.Guest.Session.{Child, absent, alive, Poll, Waited, returned, raised, waiting}
use mini_linux.Guest.Lifecycle.{CloseEnv, Host, Attempt, fail_start, start}

-- `while trace_port == tty_port: trace_port = available_port()`; `none` is a loop that still asks
unfoldable pub other_port : ℕ → List ℕ → Option ℕ
other_port tty_port [] = none
other_port tty_port (port ∷ ports) =
    let rest = other_port tty_port ports in if port == tty_port then rest else some port

-- tty_port, trace_port
unfoldable pub choose_ports : List ℕ → Option (ℕ × ℕ)
choose_ports [] = none
choose_ports (tty_port ∷ ports) = with_tty tty_port (other_port tty_port ports)
  where
    with_tty : ℕ → Option ℕ → Option (ℕ × ℕ)
    with_tty tty_port none = none
    with_tty tty_port (some trace_port) = some (tty_port, trace_port)

-- the socket of a channel
unfoldable pub chardev : Text → ℕ → Text
chardev name port =
    codes "socket,id="
    ++ (name ++ (codes ",host=127.0.0.1,port=" ++ show port (codes ",server=on,wait=on")))

-- what `start` puts behind `qemu_command`
unfoldable pub guest_args : ℕ → ℕ → ℕ → List Text
guest_args memory tty_port trace_port =
    codes "-machine"
    ∷ codes "pc"
    ∷ codes "-m"
    ∷ show memory []
    ∷ codes "-smp"
    ∷ codes "1"
    ∷ codes "-accel"
    ∷ codes "tcg,tb-size=32"
    ∷ codes "-display"
    ∷ codes "none"
    ∷ codes "-monitor"
    ∷ codes "none"
    ∷ codes "-no-reboot"
    ∷ codes "-chardev"
    ∷ chardev (codes "tty") tty_port
    ∷ codes "-serial"
    ∷ codes "chardev:tty"
    ∷ codes "-chardev"
    ∷ chardev (codes "observe") trace_port
    ∷ codes "-serial"
    ∷ codes "chardev:observe"
    ∷ codes "-boot"
    ∷ codes "d"
    ∷ codes "-cdrom"
    ∷ codes "images/minilinux-lab.iso"
    ∷ []

-- What `start` finds: the ports, the command of QEMU, the log, and the launch, which gives a pid; then
-- the deadlines and rounds of the two connections and of the wait for the prompt.
pub record LaunchEnv : Type 0 where
  pub ports : List ℕ
  pub qemu : Result (List Text)
  pub log : Result (Unit {0})
  pub popen : List Text → Result ℕ
  pub memory : ℕ
  pub stops : Bool
  pub dies : Bool
  pub tty_deadline : ℕ
  pub tty : List Attempt
  pub trace_deadline : ℕ
  pub trace : List Attempt
  pub deadline : ℕ
  pub polls : List Poll

-- what `close` would find, with this child
abbrev pub close_env : LaunchEnv → Child → CloseEnv
close_env l child = record {
  sockets = 0;
  threads = 0;
  child = child;
  stops = l.stops;
  dies = l.dies;
  has_log = true;
}

-- the `try` of `start`
unfoldable pub launched : LaunchEnv → Host → Result ℕ → Waited Guest × Host
launched l h (err e) = fail_start (close_env l absent) 0 0 e h
launched l h (ok pid) =
    start (close_env l (alive pid)) h l.tty_deadline l.tty l.trace_deadline l.trace l.deadline
      l.polls

-- with an open log
unfoldable pub with_log : LaunchEnv → Host → List Text → Result (Unit {0}) → Waited Guest × Host
with_log l h args (err e) = (raised e, h)
with_log l h args (ok _) = launched l h (l.popen args)

-- with the ports
unfoldable pub with_ports :
    LaunchEnv → Host → Option (ℕ × ℕ) → Result (List Text) → Waited Guest × Host
with_ports l h none q = (waiting, h)
with_ports l h (some (a, b)) (err e) = (raised e, h)
with_ports l h (some (a, b)) (ok command) = with_log l h (command ++ guest_args l.memory a b) l.log

unfoldable pub launch_guest : LaunchEnv → Host → Waited Guest × Host
launch_guest l h = with_ports l h (choose_ports l.ports) l.qemu
