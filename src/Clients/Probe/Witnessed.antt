-- ===== src/Clients/Probe/Witnessed.antt =====
-- What a session of the probe that passes has seen.
use mini_linux.Prelude.{ℕ, ◌≡◌, true, List, [], ◌∷◌, ◌++◌}
use mini_linux.Prelude.Text.{codes}
use mini_linux.Prelude.Exec.{Result}
use mini_linux.Guest.Session.{is_running}
use mini_linux.Server.{Body}
use mini_linux.Checks.{passed, only_init_and_shell}
use mini_linux.Clients.{Web}
use mini_linux.Clients.Probe.{
  Session, is_stopped, probe_commands, late_commands, Probed, probe_all, opens, finishes,
}
use mini_linux.Clients.Probe.Kept.{Wanted, wanted, all_wanted}
use mini_linux.Clients.Probe.Parts.{counter_command, mem_command, IsCounted, IsRefused, IsFresh}

-- The entries of a session that passes, in their order, with the texts in their outputs.
abbrev pub probe_report : List Wanted
probe_report =
    ((codes "initial", []) ∷ all_wanted probe_commands)
    ++ ((wanted counter_command ∷ all_wanted late_commands)
        ++ (wanted mem_command ∷ (codes "stopped", []) ∷ (codes "restarted-fresh", []) ∷ []))

-- What the session from `s` has seen, in its order.
pub record IsProbed {S : Type 0} (web : Web S) (loads : List ℕ → Result Body) (r : Probed)
    (s : Session S) : Type 0 where
  pub running : is_running r.initial.snapshot.status ≡ true
  pub opened : Session S
  pub opens_here : opens web loads s ≡ (passed r.initial, opened)
  pub early : Session S
  pub first_commands : probe_all web loads probe_commands opened ≡ (passed tt, early)
  pub late : Session S
  pub counted : IsCounted web loads r.counted early.world late.world
  pub more : Session S
  pub more_commands : probe_all web loads late_commands late ≡ (passed tt, more)
  pub at : Session S
  pub finishes_here : finishes web loads more ≡ (passed r.finished, at)
  pub only_shell : only_init_and_shell r.finished.snapshot.processes ≡ true
  pub stopped : is_stopped r.ended.snapshot.status ≡ true
  pub refused : IsRefused web loads r.ended at.world
  pub fresh : IsFresh r.initial r.fresh
