-- ===== src/Guest/Lifecycle/Starting.antt =====
-- `start` either leaves a running guest, or closes what it opened.
use mini_linux.Prelude.{
  ℕ, ◌+◌, ◌*◌, ◌≤◌, ◌≡◌, ◌≢◌, refl, true, List, [], ◌∷◌, ◌++◌, arith, length, ◌⊎◌, inl, inr,
}
use mini_linux.Prelude.Exec.{Exc}
use mini_linux.Guest.{Guest, running, stopped}
use mini_linux.Guest.Session.{Waited, returned, raised, waiting, Poll, wait_for, prompt_after}
use mini_linux.Guest.Lifecycle.{
  CloseEnv, Host, Attempt, connect, fail_start, await_prompt, connect_second, connect_first, start,
}
use mini_linux.Guest.Lifecycle.Closing.{ends_child, all_steps, close_lem}

-- The rounds of a connection loop are at least 50 ms apart.
abbrev pub SpacedAttempts : ℕ → List Attempt → Type 0
SpacedAttempts begin [] = Unit
SpacedAttempts begin (a ∷ as') = (begin ≤ a.now) × SpacedAttempts (a.now + 50) as'

-- A connection loop whose rounds are at least 50 ms apart ends by the first round after its deadline.
pub connect-ends :
    (begin deadline : ℕ) (a : Attempt) (as' : List Attempt)
    → SpacedAttempts begin (a ∷ as')
    → deadline ≤ begin + 50 * length as'
    → connect deadline (a ∷ as') ≢ waiting
unfolding connect
connect-ends begin deadline a [] s d = ground arith
connect-ends begin deadline a (b ∷ bs) s d =
    ground (arith, connect-ends (a.now + 50) deadline b bs s.1)

-- A raised start: the guest is closed and stopped, and the host has closed `n` sockets and `m` threads
-- and stopped the child.
pub record CleansUp (env : CloseEnv) (h : Host) (n m : ℕ) (e : Exc) (r : Waited Guest × Host)
    : Type 0 where
  pub raises : r.0 ≡ raised e
  pub steps : r.1.steps ≡ h.steps ++ all_steps (record env { sockets = n; threads = m })
  pub closed : r.1.guest.closed ≡ true
  pub status : r.1.guest.status ≡ stopped

-- What was open when this exception came, by the results of the two connections and of the wait for
-- the prompt: `n` sockets and `m` threads.
abbrev pub Opened : Waited (Unit {0}) → Waited (Unit {0}) → Waited Guest → Exc → ℕ → ℕ → Type 0
Opened b c w e n m =
    ((b ≡ raised e) × (n ≡ 0) × (m ≡ 0))
    ⊎ ((b ≡ returned tt) × (c ≡ raised e) × (n ≡ 1) × (m ≡ 0))
    ⊎ ((b ≡ returned tt) × (c ≡ returned tt) × (w ≡ raised e) × (n ≡ 2) × (m ≡ 2))

-- How a start can end, with what was open when it raised.
abbrev pub Ends : CloseEnv → Host → (Exc → ℕ → ℕ → Type 0) → Waited Guest × Host → Type 0
Ends env h o (returned g, h') = (g.status ≡ running) × (h'.guest ≡ g) × (h'.steps ≡ h.steps)
Ends env h o (raised e, h') = (n : ℕ) × (m : ℕ) × o e n m × CleansUp env h n m e (raised e, h')
Ends env h o (waiting, h') = h' ≡ h

pub fail_start-CleansUp :
    (env : CloseEnv) (h : Host) (n m : ℕ) (e : Exc)
    → ends_child env.child env.stops env.dies ≡ true
    → CleansUp env h n m e (fail_start env n m e h)
unfolding fail_start
fail_start-CleansUp env h n m e d =
    rw (close_lem (record env { sockets = n; threads = m }) h d)
      record { raises = refl; steps = refl; closed = refl; status = refl }

fail_start-Ends :
    (env : CloseEnv) (h : Host) (n m : ℕ) (e : Exc) (o : Exc → ℕ → ℕ → Type 0)
    → o e n m
    → ends_child env.child env.stops env.dies ≡ true
    → Ends env h o (fail_start env n m e h)
unfolding fail_start
fail_start-Ends env h n m e o k d =
    rw (close_lem (record env { sockets = n; threads = m }) h d)
      (n, m, k, record { raises = refl; steps = refl; closed = refl; status = refl })

await_prompt-Ends :
    (env : CloseEnv) (h : Host) (w : Waited Guest)
    → ends_child env.child env.stops env.dies ≡ true
    → Ends env h (Opened (returned tt) (returned tt) w) (await_prompt env h w)
unfolding await_prompt
await_prompt-Ends env h (returned g) d = (refl, refl, refl)
await_prompt-Ends env h (raised e) d =
    fail_start-Ends env h 2 2 e (Opened (returned tt) (returned tt) (raised e))
      (inr (inr (refl, refl, refl, refl, refl))) d
await_prompt-Ends env h waiting d = refl

connect_second-Ends :
    (env : CloseEnv) (h : Host) (c : Waited (Unit {0})) (w : Waited Guest)
    → ends_child env.child env.stops env.dies ≡ true
    → Ends env h (Opened (returned tt) c w) (connect_second env h c w)
unfolding connect_second
connect_second-Ends env h (returned _) w d = await_prompt-Ends env h w d
connect_second-Ends env h (raised e) w d =
    fail_start-Ends env h 1 0 e (Opened (returned tt) (raised e) w)
      (inr (inl (refl, refl, refl, refl))) d
connect_second-Ends env h waiting w d = refl

connect_first-Ends :
    (env : CloseEnv) (h : Host) (b c : Waited (Unit {0})) (w : Waited Guest)
    → ends_child env.child env.stops env.dies ≡ true
    → Ends env h (Opened b c w) (connect_first env h b c w)
unfolding connect_first
connect_first-Ends env h (returned _) c w d = connect_second-Ends env h c w d
connect_first-Ends env h (raised e) c w d =
    fail_start-Ends env h 0 0 e (Opened (raised e) c w) (inl (refl, refl, refl)) d
connect_first-Ends env h waiting c w d = refl

-- If QEMU can be ended, a start that returns leaves the guest running and has closed nothing; one that
-- raises has ended QEMU, closed every socket it had opened, joined its threads, and left the guest
-- closed and stopped. What was open follows from which of its three waits has raised.
pub start-Ends :
    (env : CloseEnv) (h : Host) (tty_deadline : ℕ) (tty : List Attempt) (trace_deadline : ℕ)
    (trace : List Attempt) (deadline : ℕ) (polls : List Poll)
    → ends_child env.child env.stops env.dies ≡ true
    → Ends env h
        (Opened
          (connect tty_deadline tty)
          (connect trace_deadline trace)
          (wait_for (prompt_after 0) deadline polls))
        (start env h tty_deadline tty trace_deadline trace deadline polls)
unfolding start
start-Ends env h tty_deadline tty trace_deadline trace deadline polls d =
    connect_first-Ends env h _ _ _ d
