-- ===== src/Guest/Lifecycle/Closing.antt =====
-- `close` on every branch, and what can change the guest afterwards.
use mini_linux.Prelude.{
  ℕ, zero, suc, ◌≡◌, refl, ◌∙◌, Bool, true, false, List, [], ◌∷◌, ◌++◌, arith, append-nil,
  append_assoc,
}
use mini_linux.Prelude.Exec.{Exc, timeout_expired, Result, ok, err, when, modify, ◌>>◌}
use mini_linux.Guest.{Guest, stopped}
use mini_linux.Guest.Reader.{caught, finish}
use mini_linux.Guest.Session.{Child, absent, alive, exited, notice_exit}
use mini_linux.Guest.Lifecycle.{
  CloseStep, shutdown, close_socket, join_thread, terminate, wait_child, kill, close_log, CloseEnv,
  Host, close_sockets, join_threads, stop_child, close, does, set_stopped,
}

abbrev pub socket_steps : ℕ → ℕ → List CloseStep
socket_steps i zero = []
socket_steps i (suc n) = shutdown i ∷ close_socket i ∷ socket_steps (suc i) n

abbrev pub thread_steps : ℕ → ℕ → List CloseStep
thread_steps i zero = []
thread_steps i (suc n) = join_thread i ∷ thread_steps (suc i) n

-- A live child is terminated, and killed if it has not ended in time.
abbrev pub child_steps : Child → Bool → List CloseStep
child_steps (alive pid) true = terminate ∷ wait_child ∷ []
child_steps (alive pid) false = terminate ∷ wait_child ∷ kill ∷ wait_child ∷ []
child_steps _ stops = []

-- The child ends by itself, by `terminate` or by `kill`.
abbrev pub ends_child : Child → Bool → Bool → Bool
ends_child (alive pid) false false = false
ends_child _ _ _ = true

abbrev after : List CloseStep → Host → Host
after s h = record h { steps = h.steps ++ s }

close_sockets_lem : (i n : ℕ) (h : Host) → close_sockets i n h ≡ (ok tt, after (socket_steps i n) h)
unfolding close_sockets
close_sockets_lem i zero h = rw append-nil
close_sockets_lem i (suc n) h = close_sockets_lem (suc i) n _ ∙ simp append_assoc

join_threads_lem : (i n : ℕ) (h : Host) → join_threads i n h ≡ (ok tt, after (thread_steps i n) h)
unfolding join_threads
join_threads_lem i zero h = rw append-nil
join_threads_lem i (suc n) h = join_threads_lem (suc i) n _ ∙ simp append_assoc

abbrev outcome : Bool → Result (Unit {0})
outcome true = ok tt
outcome false = err timeout_expired

stop_child_lem :
    (c : Child) (stops dies : Bool) (h : Host)
    → stop_child c stops dies h ≡ (outcome (ends_child c stops dies), after (child_steps c stops) h)
unfolding stop_child
stop_child_lem absent stops dies h = rw append-nil
stop_child_lem (exited pid) stops dies h = rw append-nil
stop_child_lem (alive pid) true dies h = simp append_assoc
stop_child_lem (alive pid) false true h = simp append_assoc
stop_child_lem (alive pid) false false h = simp append_assoc

abbrev pub log_steps : Bool → List CloseStep
log_steps true = close_log ∷ []
log_steps false = []

end_lem :
    (b : Bool) (h : Host)
    → (do when b (does close_log); modify set_stopped) h
      ≡ (ok tt, set_stopped (after (log_steps b) h))
end_lem true h = refl
end_lem false h = rw append-nil

abbrev pub all_steps : CloseEnv → List CloseStep
all_steps env =
    socket_steps 0 env.sockets
    ++ (child_steps env.child env.stops ++ (thread_steps 0 env.threads ++ log_steps env.has_log))

-- `close`, unless the child outlives `kill`: every socket is shut down and closed, a live child is
-- terminated and, if it lives on, killed, the threads are joined and the log is closed, in this
-- order; then the guest is closed and stopped.
pub close_lem :
    (env : CloseEnv) (h : Host)
    → ends_child env.child env.stops env.dies ≡ true
    → close env h ≡ (
      ok tt,
      record {
        steps = h.steps ++ all_steps env;
        guest = record h.guest { closed = true; status = stopped };
      },
    )
unfolding close
close_lem env h e =
    simp (close_sockets_lem, stop_child_lem, e, join_threads_lem, end_lem, append_assoc)

-- A child that outlives `kill` makes `close` raise TimeoutExpired: the guest is closed, but its status
-- is not `stopped`.
pub close_outlived :
    (env : CloseEnv) (h : Host)
    → ends_child env.child env.stops env.dies ≡ false
    → close env h ≡ (
      err timeout_expired,
      record {
        steps = h.steps ++ (socket_steps 0 env.sockets ++ child_steps env.child env.stops);
        guest = record h.guest { closed = true };
      },
    )
unfolding close
close_outlived env h e = simp (close_sockets_lem, stop_child_lem, e, append_assoc)

-- After a close, the end of a reader thread and a snapshot leave the guest as it is.
pub close_final :
    (g : Guest) (e : Exc) (child : Child)
    → g.closed ≡ true
    → (finish (caught e g) ≡ g) × (notice_exit child g ≡ g)
unfolding finish caught notice_exit
close_final g e child c = ground arith
