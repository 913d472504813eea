-- ===== src/Clients/Play/Done.antt =====
-- A run of tools/test-linux-package.py that passes.
use mathlib.Core.Path.{subst}
use mini_linux.Prelude.{ℕ, ◌≡◌, ap, ◌∙◌, Bool, true, false, List, any}
use mini_linux.Prelude.Exec.{Result}
use mini_linux.Server.{Body, State}
use mini_linux.Checks.{passed}
use mini_linux.Checks.Search.{passed_inj}
use mini_linux.Checks.Steps.{ask}
use mini_linux.Checks.Steps.Passing.{follow_passed, fst_eq, snd_eq}
use mini_linux.Clients.Play.{
  Play, is_unexpected, prepare, wait_for_address, shows_manual, fetch_state, plays, shuts_down,
  try_play, clean_up, session, play_package,
}
use mini_linux.Clients.Play.Played.{
  IsPlayed, IsKilled, prepare-members, wait_for_address_seen, plays-baseline, plays-restored,
  shuts_down-IsShut, session-IsKilled,
}

-- The two states of a run that passes, and what it leaves.
pub record IsDone {S : Type 0} (play : Play S) (loads : List ℕ → Result Body) (archive : Bool)
    (states : State × State) (t : S) : Type 0 where
  pub played : IsPlayed play loads archive states.0 states.1
  pub killed : IsKilled play t

module _ {S : Type 0} (play : Play S) (loads : List ℕ → Result Body) where
  try_play-seen :
      (archive : Bool) (s : S) (r : State × State) (t : S)
      → try_play play loads archive s ≡ (passed r, t)
      → (archive ≡ true → any is_unexpected play.members ≡ false)
      → IsPlayed play loads archive r.0 r.1
  unfolding try_play
  try_play-seen archive s r t h members =
      let (address, s1, e1, h1) = follow_passed _ (wait_for_address play loads s) r t h in
      let (u, s2, e2, h2) = follow_passed _ (shows_manual play loads address s1) r t h1 in
      let (states, s3, e3, h3) = follow_passed _ (plays play loads address s2) r t h2 in
      let pid = states.1.snapshot.guest_pid in
      let (v, s4, e4, h4) = follow_passed _ (shuts_down play loads address archive pid s3) r t h3 in
      let (found, port) = wait_for_address_seen play loads s address s1 e1 in
      subst (λ (z : State × State). IsPlayed play loads archive z.0 z.1) (passed_inj (fst_eq h4))
        record {
          members = members;
          asked_at = found.asked_at;
          log = found.log;
          answered_at = found.answered_at;
          read = found.read;
          address = address;
          printed = found.printed;
          port = port;
          begun = s2;
          first = (fetch_state play loads address s2).1;
          state_before = plays-baseline play loads address s2 states s3 e3;
          played = s3;
          plays_here = e3;
          restored = plays-restored play loads address s2 states s3 e3;
          shut = shuts_down-IsShut play loads address archive pid s3 v s4 e4;
        }

  -- A run of the script that passes, with an archive or from the sources: the archive had no absolute
  -- name, no name with `..` and nothing but files and folders; the address at which the
  -- laboratory was played stood in the log of the launcher as it was read, behind a title of the
  -- laboratory and with a port that is not 0; there were as many free pages behind `run fault` as in
  -- the state fetched from this address at the beginning; the launcher, interrupted then, ended with the expected status, and
  -- then nothing listened at the port and the guest's process was gone; and at last the process group
  -- was killed.
  pub play_package-IsDone :
      (archive : Bool) (s : S) (r : State × State) (t : S)
      → play_package play loads archive s ≡ (passed r, t)
      → IsDone play loads archive r t
  unfolding play_package session
  play_package-IsDone archive s r t h =
      let (source, s1, e1, h1) = follow_passed _ (prepare play loads archive s) r t h in
      let (u, s2, e2, h2) = follow_passed _ (ask play.launch s1) r t h1 in
      let m = try_play play loads archive s2 in
      let (v, s3, e3, h3) = follow_passed _ (clean_up play loads m.1) r t h2 in
      record {
        played =
            try_play-seen archive s2 r m.1 (ap (λ z. (z, m.1)) (fst_eq h3))
              (prepare-members play loads archive s source s1 e1);
        killed =
            (session-IsKilled play loads archive s2 v t
              (e3 ∙ ap (λ z. (passed v, z)) (snd_eq h3))).1;
      }
