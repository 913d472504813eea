-- ===== src/Recording/Clips.antt =====
-- `record` of tools/record-demo.py: one clip for each command, and the checks of the recording. The
-- digests and the file of the recording are not modelled.
pub mod Written
use mini_linux.Prelude.{
  ℕ, Bool, true, false, List, [], ◌∷◌, ◌++◌, Option, none, some, length, get_elem?, if◌then◌else◌,
  ◌||◌, ◌&&◌,
}
use mini_linux.Prelude.Text.{Text, codes, contains, text_eq}
use mini_linux.Prelude.Exec.{Exc, index_error, Result, ok, err}
use mini_linux.Guest.{Guest, Event}
use mini_linux.Guest.Session.{Child, Snapshot, Waited, returned, raised, waiting}
use mini_linux.Recording.{Frame, demo_snapshot, DemoRound, add_frame, record_loop}

pub record Clip : Type 0 where
  pub command : Text
  pub frames : List Frame

abbrev pub demo_commands : List Text
demo_commands =
    codes "help"
    ∷ codes "ls"
    ∷ codes "cat hello.txt"
    ∷ codes "ps"
    ∷ codes "run hello"
    ∷ codes "run reader"
    ∷ codes "run counter-a counter-b"
    ∷ codes "run fault"
    ∷ codes "check"
    ∷ codes "mem"
    ∷ []

-- What a clip finds: the guest at its first frame, the console when its length is read, what `send`
-- does, and the rounds of its loop.
pub record ClipEnv : Type 0 where
  pub child : Child
  pub guest : Guest
  pub console : Text
  pub sent : Result (Unit {0})
  pub rounds : List DemoRound

abbrev pub first_frame : Child → Guest → Frame
first_frame child g = record { at = 0; state = demo_snapshot 0 child g }

abbrev pub behind_send : Result (Unit {0}) → Waited (List Frame) → Waited (List Frame)
behind_send (ok _) w = w
behind_send (err e) w = raised e

unfoldable pub record_clip : Text → ClipEnv → Waited (List Frame)
record_clip command env =
    let first = first_frame env.child env.guest in
    behind_send env.sent
      (add_frame first (record_loop command (length env.console) first.state.sequence env.rounds))

abbrev pub add_clip : Clip → Waited (List Clip) → Waited (List Clip)
add_clip c (returned cs) = returned (c ∷ cs)
add_clip c (raised e) = raised e
add_clip c waiting = waiting

abbrev pub next_clip : Text → Waited (List Frame) → Waited (List Clip) → Waited (List Clip)
next_clip command (returned fs) rest = add_clip (record { command = command; frames = fs }) rest
next_clip command (raised e) rest = raised e
next_clip command waiting rest = waiting

-- `for command in commands`
unfoldable pub record_clips : List Text → List ClipEnv → Waited (List Clip)
record_clips [] envs = returned []
record_clips (c ∷ cs) [] = waiting
record_clips (c ∷ cs) (env ∷ envs) =
    let rest = record_clips cs envs in next_clip c (record_clip c env) rest

-- the `try`, with what `guest.start()` does and the guest that it leaves
unfoldable pub record_guest : Child → Waited Guest → List ClipEnv → Waited (List Clip)
record_guest child (returned g) envs =
    add_clip (record { command = codes "boot"; frames = first_frame child g ∷ [] })
      (record_clips demo_commands envs)
record_guest child (raised e) envs = raised e
record_guest child waiting envs = waiting

-- How `record` ends: what it raised, an assertion that failed, or the clips that are written.
pub data Recorded : Type 0 where
  unfinished unwitnessed : Recorded
  broken : Exc → Recorded
  written : List Clip → Recorded

abbrev pub last_of : List Frame → Option Frame
last_of [] = none
last_of (f ∷ []) = some f
last_of (f ∷ g ∷ fs) = last_of (g ∷ fs)

abbrev pub frames_of : Option Clip → List Frame
frames_of none = []
frames_of (some c) = c.frames

abbrev pub shows_text : Text → Option Frame → Bool
shows_text t none = false
shows_text t (some f) = contains t f.state.console

-- `any(e["kind"] == "fault" for frame in frames for e in frame["state"]["events"])`
abbrev pub has_fault : List Event → Bool
has_fault [] = false
has_fault (e ∷ es) = text_eq e.kind (codes "fault") || has_fault es

abbrev pub any_fault : List Frame → Bool
any_fault [] = false
any_fault (f ∷ fs) = has_fault f.state.events || any_fault fs

-- the two assertions; each clip that was recorded has a frame, and there are eleven
unfoldable pub is_witnessed : List Clip → Bool
is_witnessed clips =
    shows_text (codes "hello from ramfs") (last_of (frames_of (get_elem? clips 3)))
    && any_fault (frames_of (get_elem? clips 8))

unfoldable pub judge_clips : Waited (List Clip) → Result (Unit {0}) → Recorded
judge_clips waiting closed = unfinished
judge_clips w (err e) = broken e
judge_clips (raised e) (ok _) = broken e
judge_clips (returned clips) (ok _) = if is_witnessed clips then written clips else unwitnessed

-- `closed`: what the `close` of the `finally` does
unfoldable pub record_demo : Child → Waited Guest → List ClipEnv → Result (Unit {0}) → Recorded
record_demo child started envs closed = judge_clips (record_guest child started envs) closed
