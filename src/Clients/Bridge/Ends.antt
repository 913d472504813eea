-- ===== src/Clients/Bridge/Ends.antt =====
-- A run of tools/test-lab-bridge.py that passes, with its `finally`.
use mini_linux.Prelude.{◌≡◌, true, all}
use mini_linux.Prelude.Exec.{ok}
use mini_linux.Server.{State}
use mini_linux.Clients.Bridge.{Bench, Run}

-- The three states that a run shows.
abbrev pub Shown : Type 0
Shown = State × (State × State)

-- What a run that passes leaves: no guest of it runs after the `close` of the laboratory.
pub record IsLeft {S : Type 0} (bench : Bench S) (t : Run S) : Type 0 where
  pub before : S
  pub closed : bench.close before ≡ (ok tt, t.world)
  pub ended : all (λ g. bench.has_ended g t.world) t.guests ≡ true
