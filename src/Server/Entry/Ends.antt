-- ===== src/Server/Entry/Ends.antt =====
-- However the bridge ends, its guest has been closed, as long as no request in progress restarts it.
use mini_linux.Prelude.{◌≡◌, refl, true, false, Option, none, some, Bool-cases, ◌⊎◌, inl, inr}
use mini_linux.Prelude.Int.{ℤ}
use mini_linux.Prelude.Exec.{Exec}
use mini_linux.Guest.{stopped}
use mini_linux.Guest.Lifecycle.{CloseEnv, Host}
use mini_linux.Guest.Lifecycle.Closing.{ends_child, close_lem}
use mini_linux.Server.Lab.{LabState, close_lab, restart_lab}
use mini_linux.Server.Entry.{
  is_port, Bind, Exit, Served, Running, create_server, serve_lab, started, main_server,
}

-- The guest, if there is one, is closed and stopped.
abbrev pub IsStopped : Option Host → Type 0
IsStopped none = Unit
IsStopped (some h) = (h.guest.closed ≡ true) × (h.guest.status ≡ stopped)

close_lab-IsStopped :
    (env : CloseEnv) (start : Exec Host (Unit {0})) (l : LabState) (o : Option Host)
    → l.guest ≡ o
    → ends_child env.child env.stops env.dies ≡ true
    → IsStopped (close_lab env start l).1.guest
unfolding close_lab
close_lab-IsStopped env start l none e d = rw e tt
close_lab-IsStopped env start l (some h) e d = rw (e, close_lem env h d) (refl, refl)

-- The server does not listen, and a guest was closed and stopped in the state that is left, up to what
-- the requests in progress did then.
abbrev pub IsLeft : (LabState → LabState) → Running LabState → Type 0
IsLeft late r =
    (r.listening ≡ false) × ((x : LabState) × IsStopped x.guest × ((r.lab ≡ x) ⊎ (r.lab ≡ late x)))

module _ (env : CloseEnv) (start : Exec Host (Unit {0})) (serve : LabState → Served × LabState)
    (between late : LabState → LabState) where
  started-IsLeft :
      (c : Option Exit) (l : LabState)
      → ends_child env.child env.stops env.dies ≡ true
      → l.guest ≡ none
      → IsLeft late (started (restart_lab env start) serve between late (close_lab env start) c l).1
  unfolding serve_lab
  started-IsLeft (some x) l d e = (refl, (l, rw e tt, inl refl))
  started-IsLeft none l d e = (refl, (_, close_lab-IsStopped env start _ _ refl d, inr refl))

  -- If QEMU can be ended: however the bridge ends, whether its port does not fit or is in use, its
  -- guest cannot be started, it is interrupted, or serving raises, it does not listen any more; and
  -- whatever the requests in progress did before, a guest is closed and stopped in the state that
  -- `lab.close` leaves, which only the requests still in progress can change then.
  pub main_server-IsStopped :
      (port : ℤ) (bind : Bind) (l : LabState)
      → ends_child env.child env.stops env.dies ≡ true
      → l.guest ≡ none
      → IsLeft late
          (main_server
            (restart_lab env start)
            serve
            between
            late
            (close_lab env start)
            port
            bind
            l).1
  unfolding main_server
  main_server-IsStopped port bind l d e = elim (Bool-cases (is_port port)) [
    | inr wide ↦ rw wide (refl, (l, rw e tt, inl refl))
    | inl fits ↦ rw fits (started-IsLeft (create_server port bind) l d e)
  ]
