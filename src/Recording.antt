-- ===== src/Recording.antt =====
-- tools/record-demo.py: the frames of one clip, from the rounds of its loop.
pub mod Frames
pub mod Clips
use mini_linux.Prelude.{
  ℕ, Bool, true, false, not, ◌||◌, List, [], ◌∷◌, ◌++◌, Option, none, some, if◌then◌else◌, length,
  last_n, drop, ltb,
}
use mini_linux.Prelude.Text.{Text, codes, contains}
use mini_linux.Prelude.Int.{pos}
use mini_linux.Prelude.Exec.{Exc, runtime_error}
use mini_linux.Guest.{Guest}
use mini_linux.Guest.Session.{
  Child, Snapshot, notice_exit, view, is_running, prompt, Waited, returned, raised, waiting,
}
use mini_linux.Server.Get.{events_since}

-- A frame: when it was taken, in milliseconds, and the state without `guest_pid`.
pub record Frame : Type 0 where
  pub at : ℕ
  pub state : Snapshot

-- `snapshot(after)`
unfoldable pub demo_snapshot : ℕ → Child → Guest → Snapshot
unfolding notice_exit
demo_snapshot after child g =
    let snap = view child (notice_exit child g) in
    record snap { events = events_since (pos after) snap.events; guest_pid = none }

-- One round: the guest as the snapshot finds it, the clock behind it, and the clock of the last test.
pub record DemoRound : Type 0 where
  pub child : Child
  pub guest : Guest
  pub at : ℕ
  pub checked : ℕ

abbrev pub recording_failed : Text → Text → Exc
recording_failed command console =
    runtime_error (codes "Recording failed at " ++ (command ++ (codes ": " ++ last_n 1500 console)))

abbrev pub add_frame : Frame → Waited (List Frame) → Waited (List Frame)
add_frame f (returned fs) = returned (f ∷ fs)
add_frame f (raised e) = raised e
add_frame f waiting = waiting

-- `while True`, from a cursor
unfoldable pub record_loop : Text → ℕ → ℕ → List DemoRound → Waited (List Frame)
record_loop command before cursor [] = waiting
record_loop command before cursor (r ∷ rs) =
    let state = demo_snapshot cursor r.child r.guest in
    let rest = record_loop command before state.sequence rs in
    if contains prompt (drop before state.console)
    then returned (record { at = r.at; state = state } ∷ [])
    else if not (is_running state.status) || ltb 20000 r.checked
    then raised (recording_failed command state.console)
    else add_frame (record { at = r.at; state = state }) rest
