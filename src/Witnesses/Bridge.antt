-- ===== src/Witnesses/Bridge.antt =====
-- The theorems of the bridge at concrete inputs.
use mini_linux.Prelude.{
  ℕ, ◌≤◌, ◌≡◌, ◌↔◌, refl, true, false, List, [], ◌∷◌, ◌++◌, arith, length, last_n, all,
  if◌then◌else◌, Option, none, some,
}
use mini_linux.Prelude.Text.{Text, codes, text_eq, text_eq_iff, split, rstrip}
use mini_linux.Prelude.Int.{pos, int_of}
use mini_linux.Prelude.Exec.{Exec, modify, timeout_expired, Result, ok, err}
use mini_linux.Guest.{Event, running, init}
use mini_linux.Guest.Trace.{event_limit}
use mini_linux.Guest.Trace.Log.{Rises, IsLog}
use mini_linux.Guest.Reader.{events}
use mini_linux.Guest.Session
use mini_linux.Guest.Session.{alive, Snapshot, Socket, snapshot, notice_exit, view, send_bytes}
use mini_linux.Server.Static.{static_path, resolve, is_relative_to}
use mini_linux.Guest.Lifecycle.{CloseEnv, Host}
use mini_linux.Guest.Lifecycle.Closing.{socket_steps, child_steps}
use mini_linux.Server.{
  Json, string, object, end, field, Request, Response, okay, respond, local_request, Laboratory,
}
use mini_linux.Server.Entry.{bound, Served, interrupted, main_server}
use mini_linux.Server.Entry.Ends.{IsLeft, main_server-IsStopped}
use mini_linux.Server.Get.{Site, Url, do_get, get_file}
use mini_linux.Server.Get.Files.{IsBelow, get_file-IsBelow}
use mini_linux.Server.Get.Polling.{Answers, poll-events}
use mini_linux.Server.Post.{terminal_text, do_post, read_fields, operate, get_text}
use mini_linux.Server.Post.Input.{is_terminal_char, terminal_text_iff}
use mini_linux.Server.Post.Answers.{IsForeign, InputOutcome, input_outcome}
use mini_linux.Server.Lab.{
  LabState, close_lab, restart_lab, send_guest, snapshot_guest, guest_laboratory,
}
use mini_linux.Server.Lab.Restart.{restart_outlived}

terminal_text_iff_example : (terminal_text (some (string (codes "ls\r"))) ≡ ok (codes "ls\r")) ↔ (
    (codes "ls\r" ≡ codes "ls\r")
    × (1 ≤ length (codes "ls\r"))
    × (length (codes "ls\r") ≤ 256)
    × (all is_terminal_char (codes "ls\r") ≡ true))
terminal_text_iff_example = terminal_text_iff (codes "ls\r") (codes "ls\r")

abbrev wire : Socket
wire sent b = none

abbrev pub qemu : CloseEnv
qemu = record {
  sockets = 2;
  threads = 2;
  child = alive 77;
  stops = true;
  dies = true;
  has_log = true;
}

abbrev stuck : CloseEnv
stuck = record qemu { stops = false; dies = false }

-- a start that succeeds at once
abbrev quick_start : Exec Host (Unit {0})
quick_start = modify (λ h. record h { guest = record h.guest { status = running } })

abbrev old_host : Host
old_host = record { steps = []; guest = record init { status = running; console = codes "mini$ " } }

abbrev pub lab_state : LabState
lab_state = record {
  guest = some old_host;
  sent = codes "ls\r";
  epoch = codes "a1";
  tokens = codes "b2" ∷ [];
  memory = 64;
}

abbrev pub laboratory : CloseEnv → Laboratory LabState
laboratory env = guest_laboratory env quick_start wire (alive 77)

-- a parser that finds {"text": "ps\r"} in any body
abbrev loads : List ℕ → Result Json
loads bytes = ok (object (field (codes "text") (string (codes "ps\r")) end))

abbrev request : Text → Request
request path = record {
  path = path;
  host = some (codes "127.0.0.1:8080");
  origin = some (codes "http://127.0.0.1:8080");
  content_length = some (codes "4");
  content_type = some (codes "application/json");
  stream = codes "....";
}

abbrev foreign : Request
foreign = record (request (codes "/api/stop")) { host = some (codes "evil") }

evil-IsForeign : IsForeign (codes "8080") (codes "evil")
evil-IsForeign = (
  λ h. ground (arith, (text_eq_iff (codes "evil") (codes "127.0.0.1:8080")).1 h),
  λ h. ground (arith, (text_eq_iff (codes "evil") (codes "localhost:8080")).1 h),
)

input_outcome_example :
    InputOutcome
      (laboratory qemu)
      lab_state
      (do_post (laboratory qemu) loads (codes "8080") (request (codes "/api/input")) lab_state).1
      200
unfolding do_post read_fields operate get_text terminal_text send_guest Session.send send_bytes
    local_request int_of rstrip split
input_outcome_example =
    input_outcome (laboratory qemu) loads (codes "8080") (request (codes "/api/input")) lab_state
      (respond 200 okay) refl refl

restart_outlived_example :
    do_post (laboratory stuck) loads (codes "8080") (request (codes "/api/restart")) lab_state ≡ (
      err timeout_expired,
      record lab_state {
        guest = some (record {
          steps =
              old_host.steps
              ++ (socket_steps 0 stuck.sockets ++ child_steps stuck.child stuck.stops);
          guest = record old_host.guest { closed = true };
        });
      },
    )
unfolding read_fields local_request int_of rstrip split
restart_outlived_example =
    restart_outlived stuck quick_start wire (alive 77) loads (codes "8080")
      (request (codes "/api/restart")) (field (codes "text") (string (codes "ps\r")) end) lab_state
      old_host refl refl refl refl refl

-- the page index.html, and a file beside the web folder
abbrev web_file : List Text → Option (List ℕ)
web_file (_ ∷ name ∷ []) = if text_eq name (codes "app.js") then some (codes "x") else none
web_file _ = none

abbrev parse_url : Text → Url
parse_url path = record { path = path; after = some (codes "0") }

abbrev pub site : Site
site = record {
  urlparse = parse_url;
  manual = none;
  web = codes "web" ∷ [];
  files = web_file;
  guess_type = λ path. some (codes "text/javascript");
}

get_file-IsBelow_example : IsBelow site (codes "x")
unfolding get_file static_path resolve is_relative_to split
get_file-IsBelow_example = get_file-IsBelow site (codes "/app.js") (codes "x") refl refl

-- the guest has read `boot_line` since the browser last asked
abbrev boot_lines : List Text
boot_lines = codes "ML\tboot\t1" ∷ []

abbrev booted : LabState
booted = record lab_state {
  guest = some (record { steps = []; guest = (events boot_lines init).1 });
}

init-IsLog : IsLog init
init-IsLog = record { short = omega arith; rises = omega arith }

poll-events_example :
    (a : Response) × (added : List Event) × (do_get
        (laboratory qemu)
        site
        (codes "8080")
        (request (codes "/api/state"))
        booted
      ≡ (ok a, booted))
    × Rises init.sequence (events boot_lines init).1.sequence added
    × ((events boot_lines init).1.events ≡ last_n event_limit (init.events ++ added))
    × Answers a (last_n event_limit added)
unfolding snapshot_guest Session.snapshot notice_exit int_of rstrip local_request
poll-events_example =
    poll-events (laboratory qemu) site (codes "8080") (request (codes "/api/state")) (codes "0")
      init boot_lines (view (alive 77) (events boot_lines init).1) booted booted init-IsLog refl
      refl refl refl refl

-- an interrupt at once
abbrev interrupt : LabState → Served × LabState
interrupt l = (interrupted, l)

abbrev empty_lab : LabState
empty_lab = record lab_state { guest = none }

-- a request in progress that does nothing more
abbrev answered : LabState → LabState
answered l = l

main_server-IsStopped_example :
    IsLeft answered
      (main_server
        (restart_lab qemu quick_start)
        interrupt
        answered
        answered
        (close_lab qemu quick_start)
        (pos 8080)
        bound
        empty_lab).1
main_server-IsStopped_example =
    main_server-IsStopped qemu quick_start interrupt answered answered (pos 8080) bound empty_lab
      refl refl
