-- ===== src/Server/Entry.antt =====
-- `create_server` and `main` of tools/lab-server.py, and `main` of tools/desktop-launch.py: the port,
-- the checks of a package, and the life of the server. An interrupt comes while the server serves. Closing
-- the server does not wait for the requests that are still in progress: what these do before
-- `lab.close` and behind it is an argument.
pub mod Ends
use mini_linux.Prelude.{
  ℕ, Bool, true, false, not, List, [], ◌∷◌, ◌++◌, Option, none, some, ltb, if◌then◌else◌,
}
use mini_linux.Prelude.Text.{Text, codes, text_eq}
use mini_linux.Prelude.Int.{ℤ, pos, negsuc}
use mini_linux.Prelude.Decimal.{show}
use mini_linux.Prelude.Exec.{
  Exc, index_error, attribute_error, bad_value, runtime_error, os_error, Result, ok, err, Exec,
}

-- `0 <= port <= 65535`
abbrev pub is_port : ℤ → Bool
is_port (pos n) = ltb n 65536
is_port (negsuc n) = false

-- What binding the loopback port gives: a server, EADDRINUSE, or another OSError.
pub data Bind : Type 0 where
  bound in_use : Bind
  refused : Text → Bind

-- How a program ends: as meant, by SystemExit with a message, or by an exception.
pub data Exit : Type 0 where
  ended : Exit
  exits : Text → Exit
  raises : Exc → Exit

abbrev pub bad_port : Text
bad_port = codes "--port must be between 0 and 65535"

abbrev pub port_in_use : ℕ → Text
port_in_use n =
    codes "Port "
    ++ show n (
        codes " is already in use; no guest started. "
        ++ codes "Retry with --port 0 to choose a free loopback port.")

abbrev pub bind_result : ℕ → Bind → Option Exit
bind_result n bound = none
bind_result n in_use = some (exits (port_in_use n))
bind_result n (refused e) = some (raises (os_error e))

-- Nothing stands for a server; else how the program ends.
unfoldable pub create_server : ℤ → Bind → Option Exit
create_server (pos n) bind =
    if is_port (pos n) then bind_result n bind else some (raises (bad_value bad_port))
create_server (negsuc n) bind = some (raises (bad_value bad_port))

-- What the launcher of a Linux package finds: whether its Python is older than 3.10, whether the image
-- has the digest of package.json, and what `check_qemu` returned or raised.
pub record Package : Type 0 where
  pub is_linux : Bool
  pub is_old_python : Bool
  pub is_same_image : Bool
  pub qemu : Result (Unit {0})

abbrev pub old_python : Text
old_python = codes "Use Python 3.10 or newer; see READ-ME.txt"

abbrev pub image_differs : Text
image_differs = codes "LAB image differs from package.json; unpack the original package again."

abbrev pub qemu_exit : Result (Unit {0}) → Option Exit
qemu_exit (ok _) = none
qemu_exit (err e) = some (raises e)

unfoldable pub check_package : Package → Option Exit
check_package p =
    if not p.is_linux
    then none
    else if p.is_old_python
    then some (exits old_python)
    else if not p.is_same_image
    then some (exits image_differs)
    else qemu_exit p.qemu

-- `except (OSError, RuntimeError, ValueError, subprocess.SubprocessError)`: the message without the
-- text of the exception
abbrev pub could_not_start : Text
could_not_start = codes "LAB could not start: "

unfoldable pub launch_exit : Exit → Exit
launch_exit (raises index_error) = raises index_error
launch_exit (raises attribute_error) = raises attribute_error
launch_exit (raises _) = exits could_not_start
launch_exit e = e

-- How `serve_forever` ends.
pub data Served : Type 0 where
  interrupted : Served
  failed : Exc → Served

-- The server's socket and the laboratory.
pub record Running (S : Type 0) : Type 0 where
  pub listening : Bool
  pub lab : S

-- `server.server_close()`
abbrev pub server_close : {S : Type 0} → Running S → Running S
server_close r = record r { listening = false }

module _ {S : Type 0} (restart : Exec S (Unit {0})) (serve : S → Served × S) (between late : S → S)
    (close : Exec S (Unit {0})) where
  abbrev pub serve_restarted : Result (Unit {0}) × S → Served × S
  serve_restarted (ok _, s) = serve s
  serve_restarted (err e, s) = (failed e, s)

  abbrev pub exit_of : Served → Result (Unit {0}) → Exit
  exit_of served (err e) = raises e
  exit_of interrupted (ok _) = ended
  exit_of (failed e) (ok _) = raises e

  -- the `finally`, with a server that listens
  abbrev pub close_all : Served × S → Exit × Running S
  close_all (served, s) =
      let r : Running S = server_close (record { listening = true; lab = s }) in
      let (closed, t) = close (between r.lab) in (exit_of served closed, record r { lab = late t })

  -- `try: restart; serve … finally: server_close; lab.close`
  unfoldable pub serve_lab : S → Exit × Running S
  serve_lab s = close_all (serve_restarted (restart s))

  abbrev pub started : Option Exit → S → Exit × Running S
  started (some e) s = (e, record { listening = false; lab = s })
  started none s = serve_lab s

  -- `main` of lab-server.py: `parser.error` for a port that does not fit
  unfoldable pub main_server : ℤ → Bind → S → Exit × Running S
  main_server port bind s =
      if is_port port
      then started (create_server port bind) s
      else (exits bad_port, record { listening = false; lab = s })

  abbrev pub handled : Exit × Running S → Exit × Running S
  handled (e, r) = (launch_exit e, r)

  abbrev pub checked : Option Exit → ℤ → Bind → S → Exit × Running S
  checked (some e) port bind s = (e, record { listening = false; lab = s })
  checked none port bind s = started (create_server port bind) s

  -- `main` of desktop-launch.py
  unfoldable pub launch : Package → ℤ → Bind → S → Exit × Running S
  launch p port bind s = handled (checked (check_package p) port bind s)
