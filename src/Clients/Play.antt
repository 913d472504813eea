-- ===== src/Clients/Play.antt =====
-- `main` of tools/test-linux-package.py: a Linux package, or the LAB entry of the sources, is launched
-- and played over the address that it prints.
pub mod Address
pub mod Printed
pub mod Played
pub mod Done
use mini_linux.Prelude.{
  ℕ, zero, suc, ◌+◌, Bool, true, false, not, ◌&&◌, ◌||◌, List, [], ◌∷◌, ◌++◌, Option, none, some,
  ◌==◌, if◌then◌else◌, any, length, leb, ltb, drop,
}
use mini_linux.Prelude.Text.{Text, codes, text_eq, starts_with, contains, split}
use mini_linux.Prelude.Int.{ℤ, pos, int_eq}
use mini_linux.Prelude.Exec.{Exc, runtime_error, os_error, timeout_expired, Result, ok, err, Exec}
use mini_linux.Server.{is_one_of, Body, manual, State}
use mini_linux.Checks.{Verdict, passed, failed, key_error, raised, from}
use mini_linux.Checks.Steps.{Step, ◌>>=◌, ◌>>◌, ask, judge, reads}
use mini_linux.Clients.{Query, Reply, Web, get, post, text_body, state_of, new_text, is_prompted}
use mini_linux.Clients.Play.Address.{find_address, has_no_port}

-- a member of the archive, by `isfile` and `isdir`
pub record Member : Type 0 where
  pub name : Text
  pub is_file : Bool
  pub is_dir : Bool

-- What the script calls, over the state `S` of the world: the archive, the files, the process group of
-- the launcher and the sockets. A signal gives false for a ProcessLookupError.
pub record Play (S : Type 0) : Type 0 where
  pub members : List Member
  pub extract : Exec S (Unit {0})
  pub read_source : Exec S Text
  pub which : Text → Option Text
  pub link_tool : Text → Text → Exec S (Unit {0})
  pub launch : Exec S (Unit {0})
  pub read_log : Exec S Text
  pub has_ended : Exec S Bool
  pub web : Text → Web S
  pub rounds : S → ℕ
  pub read_manual : Exec S Text
  pub interrupt : Exec S Bool
  pub kill : Exec S Bool
  pub wait : ℕ → Exec S ℤ
  pub is_listening : Text → Exec S Bool
  pub find_process : Option ℕ → Exec S Bool

-- `if not b: raise e`
abbrev pub demands : Bool → Exc → Verdict (Unit {0})
demands true e = passed tt
demands false e = failed (raised e)

unfoldable pub is_unexpected : Member → Bool
is_unexpected m =
    starts_with (codes "/") m.name
    || (is_one_of (codes "..") (split b'/' m.name) || not (m.is_file || m.is_dir))

abbrev pub runtime_tools : List Text
runtime_tools = codes "python3" ∷ codes "qemu-system-x86_64" ∷ codes "dirname" ∷ codes "sh" ∷ []

-- `text.count(needle)`, with `skip` characters of the last hit to pass
unfoldable pub count_from : Text → ℕ → Text → ℕ
count_from needle skip [] = 0
count_from needle (suc skip) (c ∷ cs) = count_from needle skip cs
count_from needle zero (c ∷ cs) = elim (starts_with needle (c ∷ cs)) [
  | true ↦ 1 + count_from needle (length (drop 1 needle)) cs
  | false ↦ count_from needle 0 cs
]

abbrev pub count : Text → Text → ℕ
count text needle = count_from needle 0 text

abbrev pub message : Text → Exc
message = runtime_error

abbrev pub text_of : Body → Verdict Text
text_of (manual t) = passed t
text_of _ = failed key_error

abbrev pub found : Option Text → Exc → Verdict Text
found none e = failed (raised e)
found (some t) e = passed t

-- the expected exit of the launcher: Start.sh ends with 0, an interrupted tools/linux.py with 130
abbrev pub expected_exit : Bool → ℤ
expected_exit true = pos 0
expected_exit false = pos 130

module _ {S : Type 0} (play : Play S) (loads : List ℕ → Result Body) where
  -- `for name in (…)`: each tool is found and linked
  unfoldable pub link_tools : List Text → Step S (Unit {0})
  link_tools [] = judge (passed tt)
  link_tools (name ∷ names) = do
    executable ←
        judge (found (play.which name) (message (codes "Missing runtime test tool: " ++ name)))
    ask (play.link_tool name executable)
    link_tools names

  -- lines 26 to 50, with or without an archive: the source that is printed in the end
  unfoldable pub prepare : Bool → Step S Text
  prepare true = do
    judge (
        demands (not (any is_unexpected play.members))
          (message (codes "Unexpected package member")))
    ask play.extract
    source ← ask play.read_source
    link_tools runtime_tools
    judge (passed source)
  prepare false = ask play.read_source

  -- `if match: address = match[1]; break`
  abbrev pub or_wait : Option Text → Step S Text → Step S Text
  or_wait none rest = rest
  or_wait (some address) rest = judge (passed address)

  -- the loop that waits for the address, with `n` more rounds before the deadline
  unfoldable pub await_address : ℕ → Step S Text
  await_address zero = judge (failed (raised (message (codes "LAB startup timed out"))))
  await_address (suc n) = do
    text ← ask play.read_log
    or_wait (find_address text)
        (do ended ← ask play.has_ended; judge (demands (not ended) (message text)); await_address n)

  -- lines 57 to 65
  unfoldable pub wait_for_address : Step S Text
  wait_for_address = do
    n ← reads play.rounds
    address ← await_address n
    judge (
        demands (not (has_no_port address))
          (message (codes "Printed URL contains port 0: " ++ address)))
    judge (passed address)

  module _ (address : Text) where
    -- `request`: every status but those from 200 to 299 is an HTTPError, which is an OSError
    unfoldable pub fetch : Query → Step S (List ℕ)
    fetch q = do
      reply ← ask (let web = play.web address in web.urlopen (record q { is_json = true }))
      judge (demands (leb 200 reply.status && ltb reply.status 300) (os_error []))
      judge (passed reply.content)

    unfoldable pub fetch_json : Query → Step S Body
    fetch_json q = do content ← fetch q; judge (from (loads content))

    unfoldable pub fetch_state : Step S State
    fetch_state = do body ← fetch_json (get (codes "/api/state")); judge (state_of body)

    -- the loop of `command`
    unfoldable pub await_prompt : Text → Text → ℕ → ℕ → Step S (State × Text)
    await_prompt text expected zero before =
        judge (failed (raised (message (codes "LAB command timed out: " ++ text))))
    await_prompt text expected (suc n) before = do
      x ← fetch_state
      if is_prompted before x
          then (do
            judge (demands (contains expected (new_text before x)) (message (new_text before x)))
            judge (passed (x, new_text before x)))
          else await_prompt text expected n before

    -- `command`
    unfoldable pub play_command : Text → Text → Step S (State × Text)
    play_command text expected = do
      x ← fetch_state
      fetch_json (post (codes "/api/input") (text_body (text ++ 13 ∷ [])))
      n ← reads play.rounds
      await_prompt text expected n (length x.snapshot.console)

    -- lines 88 to 90
    unfoldable pub shows_manual : Step S (Unit {0})
    shows_manual = do
      page ← fetch (get (codes "/"))
      judge (
          demands (contains (codes "MiniLinux Console") page)
            (message (codes "Printed URL did not serve LAB")))
      body ← fetch_json (get (codes "/api/manual"))
      served ← judge (text_of body)
      included ← ask play.read_manual
      judge (
          demands (text_eq served included)
            (message (codes "Manual response differs from the included manual")))

    -- lines 91 to 98: the state before, and the one behind `run fault`
    unfoldable pub plays : Step S (State × State)
    plays = do
      baseline ← fetch_state
      play_command (codes "cat hello.txt") (codes "hello from ramfs")
      counted ← play_command (codes "run counter-a counter-b") (codes "exited status 0")
      judge (
          demands
            (count counted.1 (codes "step=5") == 2
              && count counted.1 (codes "exited status 0") == 2)
            (message counted.1))
      last ← play_command (codes "run fault") (codes "exited status 142")
      play_command (codes "ls") (codes "/hello.txt")
      judge (
          demands (int_eq last.0.snapshot.free baseline.snapshot.free)
            (message (codes "Package did not restore free pages")))
      judge (passed (baseline, last.0))

    -- a signal that must find its group
    abbrev pub must_find : Bool → Verdict (Unit {0})
    must_find b = demands b (os_error (codes "No such process"))

    -- lines 99 to 107
    unfoldable pub shuts_down : Bool → Option ℕ → Step S (Unit {0})
    shuts_down archive guest_pid = do
      signalled ← ask play.interrupt
      judge (must_find signalled)
      status ← ask (play.wait 10)
      judge (
          demands (int_eq status (expected_exit archive))
            (message (codes "LAB did not close normally")))
      listening ← ask (play.is_listening address)
      judge (demands (not listening) (message (codes "Package listener survived shutdown")))
      survives ← ask (play.find_process guest_pid)
      judge (demands (not survives) (message (codes "Package QEMU survived launcher shutdown")))

  -- the `try`
  unfoldable pub try_play : Bool → Step S (State × State)
  try_play archive = do
    address ← wait_for_address
    shows_manual address
    states ← plays address
    shuts_down address archive states.1.snapshot.guest_pid
    judge (passed states)

  abbrev pub or_kill : Result ℤ × S → Verdict (Unit {0}) × S
  or_kill (ok status, s) = (passed tt, s)
  or_kill (err timeout_expired, s) =
      (do
        found' ← ask play.kill
        judge (demands found' (os_error (codes "No such process")))
        ask (play.wait 5)
        judge (passed tt))
        s
  or_kill (err e, s) = (failed (raised e), s)

  -- the first statement of the `finally`
  unfoldable pub end_launcher : Bool → Step S (Unit {0})
  end_launcher true = judge (passed tt)
  end_launcher false = do
    signalled ← ask play.interrupt
    judge (demands signalled (os_error (codes "No such process")))
    λ s. or_kill (play.wait 10 s)

  -- the `finally`
  unfoldable pub clean_up : Step S (Unit {0})
  clean_up = do
    ended ← ask play.has_ended
    end_launcher ended
    ask play.kill
    ask play.read_log
    judge (passed tt)

  -- with its `finally`
  unfoldable pub session : Bool → Step S (State × State)
  session archive s = let (outcome, t) = try_play archive s in (do clean_up; judge outcome) t

  -- `main`
  unfoldable pub play_package : Bool → Step S (State × State)
  play_package archive = do prepare archive; ask play.launch; session archive
