-- ===== src/Clients/Play/Played.antt =====
-- What a run of tools/test-linux-package.py that passes has seen, and what its `finally` does.
use mathlib.Core.Path.{subst}
use mini_linux.Prelude.{
  ℕ, zero, suc, ◌≡◌, refl, ap, ◌∙◌, Bool, true, false, not, ◌&&◌, List, Option, none, some, ◌==◌,
  any,
}
use mini_linux.Prelude.Text.{Text, codes}
use mini_linux.Prelude.Int.{int_eq, int_eq_iff}
use mini_linux.Prelude.Exec.{Exc, os_error, Result, ok}
use mini_linux.Server.{Body, State}
use mini_linux.Checks.{Verdict, passed}
use mini_linux.Checks.Search.{passed_inj}
use mini_linux.Checks.Steps.{Step, follow, ask, judge}
use mini_linux.Checks.Steps.Passing.{follow_passed, fst_eq, snd_eq, negated, asked}
use mini_linux.Clients.Play.{
  Play, demands, is_unexpected, message, count, expected_exit, prepare, or_wait, await_address,
  wait_for_address, fetch_state, play_command, plays, shuts_down, try_play, end_launcher, clean_up,
  session,
}
use mini_linux.Clients.Play.Address.{find_address, has_no_port}
use mini_linux.Clients.Play.Printed.{IsPrinted, find_address-IsPrinted}

module _ {S B : Type 0} where
  -- a demand, and what comes behind it
  pub demanded :
      (b : Bool) (e : Exc) (n : Step S B) (s : S) (r : B) (t : S)
      → follow (λ _. n) (judge (demands b e) s) ≡ (passed r, t)
      → (b ≡ true) × (n s ≡ (passed r, t))
  demanded true e n s r t h = (refl, h)
  demanded false e n s r t h = cc (ap (λ (m : Verdict B × S). m.0) h)

demands-true : (b : Bool) (e : Exc) (u : Unit {0}) → demands b e ≡ passed u → b ≡ true
demands-true true e u h = refl
demands-true false e u h = cc h

-- The launcher was interrupted and ended as it should; the port and the guest were gone then.
pub record IsShut {S : Type 0} (play : Play S) (archive : Bool) (address : Text) (pid : Option ℕ)
    (s : S) : Type 0 where
  pub waits : S
  pub signalled : play.interrupt s ≡ (ok true, waits)
  pub ended : S
  pub exit : play.wait 10 waits ≡ (ok (expected_exit archive), ended)
  pub probed : S
  pub silent : play.is_listening address ended ≡ (ok false, probed)
  pub last : S
  pub gone : play.find_process pid probed ≡ (ok false, last)

-- The process group was killed, and then only the log was read.
pub record IsKilled {S : Type 0} (play : Play S) (t : S) : Type 0 where
  pub before : S
  pub found : Bool
  pub after : S
  pub killed : play.kill before ≡ (ok found, after)
  pub log : Text
  pub read : play.read_log after ≡ (ok log, t)

-- The log of the launcher was read; the requests went to the address in it, and the launcher that was
-- interrupted behind them is the one that left this port and this guest.
pub record IsPlayed {S : Type 0} (play : Play S) (loads : List ℕ → Result Body) (archive : Bool)
    (baseline last : State) : Type 0 where
  pub members : archive ≡ true → any is_unexpected play.members ≡ false
  pub asked_at : S
  pub log : Text
  pub answered_at : S
  pub read : play.read_log asked_at ≡ (ok log, answered_at)
  pub address : Text
  pub printed : IsPrinted log address
  pub port : has_no_port address ≡ false
  pub begun : S
  pub first : S
  pub state_before : fetch_state play loads address begun ≡ (passed baseline, first)
  pub played : S
  pub plays_here : plays play loads address begun ≡ (passed (baseline, last), played)
  pub restored : last.snapshot.free ≡ baseline.snapshot.free
  pub shut : IsShut play archive address last.snapshot.guest_pid played

module _ {S : Type 0} (play : Play S) (loads : List ℕ → Result Body) where
  -- a log that was read, with this address in it
  pub record Read (address : Text) : Type 0 where
    pub asked_at : S
    pub log : Text
    pub answered_at : S
    pub read : play.read_log asked_at ≡ (ok log, answered_at)
    pub printed : IsPrinted log address

  pub prepare-members :
      (archive : Bool) (s : S) (source : Text) (t : S)
      → prepare play loads archive s ≡ (passed source, t)
      → archive ≡ true
      → any is_unexpected play.members ≡ false
  unfolding prepare
  prepare-members true s source t h yes_ = negated (
      (demanded (not (any is_unexpected play.members)) (message (codes "Unexpected package member"))
        _ s source t h).0)
  prepare-members false s source t h yes_ = cc yes_

  judge_address :
      (o : Option Text) (text : Text) (rest : Step S Text) (r s : S) (address : Text) (t : S)
      → play.read_log r ≡ (ok text, s)
      → find_address text ≡ o
      → or_wait play loads o rest s ≡ (passed address, t)
      → (rest s ≡ (passed address, t) → Read address)
      → Read address
  judge_address none text rest r s address t l q h k = k h
  judge_address (some a) text rest r s address t l q h k = record {
    asked_at = r;
    log = text;
    answered_at = s;
    read = l;
    printed = find_address-IsPrinted text address (q ∙ ap some (passed_inj (fst_eq h)));
  }

  await_address-Read :
      (n : ℕ) (s : S) (address : Text) (t : S)
      → await_address play loads n s ≡ (passed address, t)
      → Read address
  unfolding await_address
  await_address-Read zero s address t h = cc (fst_eq h)
  await_address-Read (suc n) s address t h =
      let (text, s1, e1, h1) = follow_passed _ (ask play.read_log s) address t h in
      judge_address (find_address text) text _ s s1 address t (asked (play.read_log s) s text s1 e1)
        refl h1
        (λ g.
          let (ended, s2, e2, h2) = follow_passed _ (ask play.has_ended s1) address t g in
          let (fine, h3) = demanded (not ended) (message text) _ s2 address t h2 in
          await_address-Read n s2 address t h3)

  pub wait_for_address_seen :
      (s : S) (address : Text) (t : S)
      → wait_for_address play loads s ≡ (passed address, t)
      → Read address × (has_no_port address ≡ false)
  unfolding wait_for_address
  wait_for_address_seen s address t h =
      let (a, s1, e1, h1) =
        follow_passed _ (await_address play loads (play.rounds s) s) address t h in
      let (good, h2) = demanded (not (has_no_port a)) _ _ s1 address t h1 in
      let same : a ≡ address = passed_inj (fst_eq h2) in
      (
        subst Read same (await_address-Read (play.rounds s) s a s1 e1),
        subst (λ b. has_no_port b ≡ false) same (negated good),
      )

  pub plays-baseline :
      (address : Text) (s : S) (r : State × State) (t : S)
      → plays play loads address s ≡ (passed r, t)
      → fetch_state play loads address s ≡ (passed r.0, (fetch_state play loads address s).1)
  unfolding plays
  plays-baseline address s r t h =
      let command = play_command play loads address in
      let (baseline, s1, e1, h1) = follow_passed _ (fetch_state play loads address s) r t h in
      let (a, s2, e2, h2) =
        follow_passed _ (command (codes "cat hello.txt") (codes "hello from ramfs") s1) r t h1 in
      let (counted, s3, e3, h3) =
        follow_passed _ (command (codes "run counter-a counter-b") (codes "exited status 0") s2) r t
          h2 in
      let (twice, h4) =
        demanded
          (count counted.1 (codes "step=5") == 2 && count counted.1 (codes "exited status 0") == 2)
          (message counted.1) _ s3 r t h3 in
      let (last, s4, e4, h5) =
        follow_passed _ (command (codes "run fault") (codes "exited status 142") s3) r t h4 in
      let (b, s5, e5, h6) = follow_passed _ (command (codes "ls") (codes "/hello.txt") s4) r t h5 in
      let (same, h7) =
        demanded (int_eq last.0.snapshot.free baseline.snapshot.free) _ _ s5 r t h6 in
      let of_pair : baseline ≡ r.0 = ap (λ (z : State × State). z.0) (passed_inj (fst_eq h7)) in
      ap (λ z. (z, (fetch_state play loads address s).1)) (fst_eq e1 ∙ ap passed of_pair)

  pub plays-restored :
      (address : Text) (s : S) (r : State × State) (t : S)
      → plays play loads address s ≡ (passed r, t)
      → r.1.snapshot.free ≡ r.0.snapshot.free
  unfolding plays
  plays-restored address s r t h =
      let command = play_command play loads address in
      let (baseline, s1, e1, h1) = follow_passed _ (fetch_state play loads address s) r t h in
      let (a, s2, e2, h2) =
        follow_passed _ (command (codes "cat hello.txt") (codes "hello from ramfs") s1) r t h1 in
      let (counted, s3, e3, h3) =
        follow_passed _ (command (codes "run counter-a counter-b") (codes "exited status 0") s2) r t
          h2 in
      let (twice, h4) =
        demanded
          (count counted.1 (codes "step=5") == 2 && count counted.1 (codes "exited status 0") == 2)
          (message counted.1) _ s3 r t h3 in
      let (last, s4, e4, h5) =
        follow_passed _ (command (codes "run fault") (codes "exited status 142") s3) r t h4 in
      let (b, s5, e5, h6) = follow_passed _ (command (codes "ls") (codes "/hello.txt") s4) r t h5 in
      let (same, h7) =
        demanded (int_eq last.0.snapshot.free baseline.snapshot.free) _ _ s5 r t h6 in
      subst (λ (z : State × State). z.1.snapshot.free ≡ z.0.snapshot.free) (passed_inj (fst_eq h7))
        (((int_eq_iff last.0.snapshot.free baseline.snapshot.free).0) same)

  pub shuts_down-IsShut :
      (address : Text) (archive : Bool) (pid : Option ℕ) (s : S) (u : Unit {0}) (t : S)
      → shuts_down play loads address archive pid s ≡ (passed u, t)
      → IsShut play archive address pid s
  unfolding shuts_down
  shuts_down-IsShut address archive pid s u t h =
      let (signalled, s1, e1, h1) = follow_passed _ (ask play.interrupt s) u t h in
      let (was, h2) = demanded signalled (os_error (codes "No such process")) _ s1 u t h1 in
      let (status, s2, e2, h3) = follow_passed _ (ask (play.wait 10) s1) u t h2 in
      let (same, h4) = demanded (int_eq status (expected_exit archive)) _ _ s2 u t h3 in
      let (listening, s3, e3, h5) = follow_passed _ (ask (play.is_listening address) s2) u t h4 in
      let (quiet, h6) = demanded (not listening) _ _ s3 u t h5 in
      let (survives, s4, e4, h7) = follow_passed _ (ask (play.find_process pid) s3) u t h6 in
      let dead = demands-true (not survives) _ u (fst_eq h7) in
      record {
        waits = s1;
        signalled = asked (play.interrupt s) s signalled s1 e1 ∙ ap (λ z. (ok z, s1)) was;
        ended = s2;
        exit =
            asked (play.wait 10 s1) s1 status s2 e2
            ∙ ap (λ z. (ok z, s2)) (((int_eq_iff status (expected_exit archive)).0) same);
        probed = s3;
        silent =
            asked (play.is_listening address s2) s2 listening s3 e3
            ∙ ap (λ z. (ok z, s3)) (negated quiet);
        last = s4;
        gone =
            asked (play.find_process pid s3) s3 survives s4 e4
            ∙ ap (λ z. (ok z, s4)) (negated dead);
      }

  -- The `finally` of a session, whatever its `try` has come to: unless it raises itself, the session
  -- ends as the `try` did, with the same states or the same failure, and the process group of the
  -- launcher has been killed.
  pub session-IsKilled :
      (archive : Bool) (s : S) (u : Unit {0}) (t : S)
      → clean_up play loads (try_play play loads archive s).1 ≡ (passed u, t)
      → (session play loads archive s ≡ ((try_play play loads archive s).0, t)) × IsKilled play t
  unfolding session clean_up
  session-IsKilled archive s u t h =
      let m = try_play play loads archive s in
      let (ended, s1, e1, h1) = follow_passed _ (ask play.has_ended m.1) u t h in
      let (a, s2, e2, h2) = follow_passed _ (end_launcher play loads ended s1) u t h1 in
      let (found, s3, e3, h3) = follow_passed _ (ask play.kill s2) u t h2 in
      let (log, s4, e4, h4) = follow_passed _ (ask play.read_log s3) u t h3 in
      (
        ap (follow (λ _. judge m.0)) h,
        record {
          before = s2;
          found = found;
          after = s3;
          killed = asked (play.kill s2) s2 found s3 e3;
          log = log;
          read = asked (play.read_log s3) s3 log s4 e4 ∙ ap (λ z. (ok log, z)) (snd_eq h4);
        },
      )
