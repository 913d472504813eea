-- ===== src/Witnesses/Play.antt =====
-- The theorems of Clients/Play at concrete inputs: a package whose guest answers every input with one
-- text.
use mini_linux.Prelude.{
  ℕ, ◌≡◌, refl, Bool, true, false, List, [], ◌∷◌, ◌++◌, Option, none, some, if◌then◌else◌,
}
use mini_linux.Prelude.Text.{Text, codes, text_eq, contains, split}
use mini_linux.Prelude.Int.{pos}
use mini_linux.Prelude.Exec.{Result, ok}
use mini_linux.Server.{Json, Body, okay, manual, state, State}
use mini_linux.Checks.{passed}
use mini_linux.Clients.{Web}
use mini_linux.Clients.Play.{
  Play, is_unexpected, count_from, link_tools, prepare, await_address, wait_for_address, fetch,
  fetch_json, fetch_state, await_prompt, play_command, shows_manual, plays, shuts_down, try_play,
  end_launcher, clean_up, session, play_package,
}
use mini_linux.Clients.Play.Address.{find_address}
use mini_linux.Clients.Play.Done.{IsDone, play_package-IsDone}
use mini_linux.Witnesses.Checks.{seen}

-- Whether the guest has input to answer, and whether the launcher has ended.
pub record Launched : Type 0 where
  pub typed : Bool
  pub ended : Bool

abbrev output : Text
output =
    codes "hello from ramfs step=5 exited status 0 step=5 exited status 0 exited status 142 "
    ++ codes "/hello.txt mini$ "

abbrev console_at : Bool → Text
console_at true = output
console_at false = []

abbrev answer : Option Json → Text → Launched → List ℕ × Launched
answer (some body) target w = ([], record w { typed = true })
answer none target w =
    if text_eq target (codes "/")
    then (codes "<title>MiniLinux Console</title>", w)
    else if text_eq target (codes "/api/manual")
    then (1 ∷ [], w)
    else ((if w.typed then 2 ∷ [] else 3 ∷ []), record w { typed = false })

abbrev state_with : Bool → State
state_with typed = record {
  snapshot = record seen { console = console_at typed };
  epoch = [];
  guest_memory = 64;
}

abbrev loads : List ℕ → Result Body
loads content =
    if text_eq content (1 ∷ [])
    then ok (manual (codes "# Manual"))
    else if text_eq content (2 ∷ [])
    then ok (state (state_with true))
    else if text_eq content (3 ∷ [])
    then ok (state (state_with false))
    else ok okay

abbrev page_web : Web Launched
page_web = record {
  urlopen = λ q w. (
    ok (record { status = 200; content = (answer q.body q.target w).0 }),
    (answer q.body q.target w).1,
  );
  rounds = λ w. 3;
}

abbrev small_play : Play Launched
small_play = record {
  members = record { name = codes "MiniLinux-LAB/Start.sh"; is_file = true; is_dir = false } ∷ [];
  extract = λ w. (ok tt, w);
  read_source = λ w. (ok (codes "abc"), w);
  which = λ name. some (codes "/usr/bin/" ++ name);
  link_tool = λ name path w. (ok tt, w);
  launch = λ w. (ok tt, w);
  read_log = λ w. (ok (codes "MiniLinux LAB: http://127.0.0.1:8123/\n"), w);
  has_ended = λ w. (ok w.ended, w);
  web = λ address. page_web;
  rounds = λ w. 3;
  read_manual = λ w. (ok (codes "# Manual"), w);
  interrupt = λ w. (ok true, record w { ended = true });
  kill = λ w. (ok false, w);
  wait = λ timeout w. (ok (pos 0), w);
  is_listening = λ address w. (ok false, w);
  find_process = λ pid w. (ok false, w);
}

abbrev fresh : Launched
fresh = record { typed = false; ended = false }

abbrev ended : Launched
ended = record { typed = false; ended = true }

play_run :
    play_package small_play loads true fresh ≡ (passed (state_with false, state_with true), ended)
unfolding play_package session try_play prepare link_tools wait_for_address await_address
    find_address shows_manual plays play_command await_prompt fetch fetch_json fetch_state
    shuts_down clean_up end_launcher is_unexpected count_from contains split
play_run = refl

play_package-IsDone_example : IsDone small_play loads true (state_with false, state_with true) ended
play_package-IsDone_example =
    play_package-IsDone small_play loads true fresh (state_with false, state_with true) ended
      play_run
