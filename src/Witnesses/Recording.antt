-- ===== src/Witnesses/Recording.antt =====
-- The theorem on recordings at a concrete input.
use mini_linux.Prelude.{◌≡◌, refl, List, [], ◌∷◌, map}
use mini_linux.Prelude.Text.{Text, codes, contains}
use mini_linux.Prelude.Int.{pos}
use mini_linux.Prelude.Exec.{Result, ok}
use mini_linux.Guest.{Guest, Event, init, running}
use mini_linux.Guest.Session.{alive, returned, notice_exit}
use mini_linux.Server.Get.{events_since}
use mini_linux.Recording.{demo_snapshot, record_loop}
use mini_linux.Recording.Clips.{
  Clip, ClipEnv, demo_commands, first_frame, record_clip, record_clips, record_guest, is_witnessed,
  judge_clips, record_demo, written,
}
use mini_linux.Recording.Clips.Written.{IsRecording, record_demo-IsRecording}

abbrev fault_event : Event
fault_event = record { id = 1; kind = codes "fault"; tick = pos 3; fields = [] }

abbrev still_guest : Guest
still_guest = record init {
  status = running;
  console = codes "hello from ramfs\nmini$ ";
  events = fault_event ∷ [];
}

abbrev still_env : ClipEnv
still_env = record {
  child = alive 7;
  guest = still_guest;
  console = [];
  sent = ok tt;
  rounds = record { child = alive 7; guest = still_guest; at = 5; checked = 6 } ∷ [];
}

abbrev clip_of : Text → Clip
clip_of command = record {
  command = command;
  frames =
      first_frame (alive 7) still_guest
      ∷ record { at = 5; state = demo_snapshot 0 (alive 7) still_guest }
      ∷ [];
}

abbrev ten_envs : List ClipEnv
ten_envs =
    still_env ∷ still_env ∷ still_env ∷ still_env ∷ still_env ∷ still_env ∷ still_env ∷ still_env
    ∷ still_env ∷ still_env ∷ []

abbrev eleven_clips : List Clip
eleven_clips =
    record { command = codes "boot"; frames = first_frame (alive 7) still_guest ∷ [] }
    ∷ map clip_of demo_commands

demo_written : record_demo (alive 7) (returned still_guest) ten_envs (ok tt) ≡ written eleven_clips
unfolding record_demo judge_clips is_witnessed record_guest record_clips record_clip record_loop
    demo_snapshot notice_exit events_since contains
demo_written = refl

abbrev good_close : Result (Unit {0})
good_close = ok tt

record_demo-IsRecording_example : IsRecording ten_envs eleven_clips × (good_close ≡ ok tt)
record_demo-IsRecording_example =
    record_demo-IsRecording (alive 7) (returned still_guest) ten_envs good_close eleven_clips
      demo_written
