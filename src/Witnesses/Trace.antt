-- ===== src/Witnesses/Trace.antt =====
-- The theorems of Guest/Trace at concrete inputs.
use mini_linux.Prelude.{ℕ, refl, Bool, true, false, List, [], ◌∷◌, arith}
use mini_linux.Prelude.Text.{Text, codes}
use mini_linux.Prelude.Int.{pos, int_Eq}
use mini_linux.Prelude.Dict
use mini_linux.Prelude.Dict.{Dict}
use mini_linux.Guest.{Guest, Process, running, init}
use mini_linux.Guest.Trace.Log.{IsLog, events-IsLog}
use mini_linux.Guest.Trace.Processes.{IsKeyed}
use mini_linux.Guest.Reader.{events}
use mini_linux.Guest.Session.{alive}
use mini_linux.Recording.{DemoRound}

abbrev lines : List Text
lines =
    codes "ML\tboot\t1"
    ∷ codes "ML\tprocess\t2\t1\t0\t1\t1\t0x5000\t3\t1"
    ∷ codes "ML\tspawn\t3\t1\t2"
    ∷ []

abbrev init-IsLog : IsLog init
init-IsLog = record { short = omega arith; rises = omega arith }

events-IsLog_example : IsLog (events lines init).1
events-IsLog_example = events-IsLog lines init init-IsLog

abbrev shell : ℕ → Bool → Process
shell n current = record {
  pid = pos n;
  parent = pos 0;
  program = codes "shell";
  state = codes "ready";
  root = codes "0x5000";
  slices = pos 3;
  current = current;
}

abbrev two_shells : Guest
two_shells = record init { processes = (pos 1, shell 1 true) ∷ (pos 2, shell 2 false) ∷ [] }

abbrev two_shells-IsKeyed : IsKeyed two_shells.processes
unfolding Dict.get
two_shells-IsKeyed = (refl, refl, (refl, refl, tt))

abbrev seen : Guest
seen = record (events lines init).1 { status = running; console = codes "mini$ " }

abbrev demo_round : DemoRound
demo_round = record { child = alive 77; guest = seen; at = 120; checked = 121 }
