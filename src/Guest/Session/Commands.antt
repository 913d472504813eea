-- ===== src/Guest/Session/Commands.antt =====
-- What `command` returns, and when it cannot return.
use mini_linux.Prelude.{
  ℕ, ◌+◌, ◌≤◌, ◌<◌, ◌≡◌, ◌≢◌, refl, sym, ap, ◌∙◌, true, false, List, [], ◌∷◌, ◌++◌, arith, length,
  lt→ltb, drop, drop_all, drop-length-append, last_n_short, length-append, concat,
}
use mini_linux.Prelude.Text.{Text, contains}
use mini_linux.Prelude.Exec.{Result, ok, err}
use mini_linux.Guest.{Guest}
use mini_linux.Guest.Console.{console_limit, console_texts}
use mini_linux.Guest.Console.Window.{printed, all_plain, IsTail, console_texts-IsTail}
use mini_linux.Guest.Session.{
  Poll, Waited, returned, raised, waiting, wait_for, Socket, send, prompt, prompt_after, after_send,
  output_after, command,
}

-- No round finds more than the window.
abbrev pub AllWithin : List Poll → Type 0
AllWithin [] = Unit
AllWithin (p ∷ ps) = (length p.guest.console ≤ console_limit) × AllWithin ps

prompt_after_full :
    (before : ℕ) (g : Guest)
    → console_limit ≤ before
    → length g.console ≤ console_limit
    → prompt_after before g ≡ false
unfolding prompt_after contains
prompt_after_full before g full within = rw (drop_all before g.console (omega arith))

wait_for_full :
    (before deadline : ℕ) (polls : List Poll) (g : Guest)
    → console_limit ≤ before
    → AllWithin polls
    → wait_for (prompt_after before) deadline polls ≢ returned g
unfolding wait_for
wait_for_full before deadline [] g full within e = cc
wait_for_full before deadline (p ∷ ps) g full within e = ground (
  arith,
  prompt_after_full before p.guest full within.0,
  wait_for_full before deadline ps g full within.1,
)

output_after-returned :
    (before : ℕ) (later : Guest) (w : Waited Guest) (out : Text)
    → output_after before later w ≡ returned out
    → (g : Guest) × (w ≡ returned g)
output_after-returned before later (returned g) out e = (g, refl)
output_after-returned before later (raised x) out e = cc
output_after-returned before later waiting out e = cc

after_send_full :
    (before deadline : ℕ) (polls : List Poll) (later : Guest) (m : Result (Unit {0}) × List ℕ)
    (out : Text)
    → console_limit ≤ before
    → AllWithin polls
    → (after_send before deadline polls later m).0 ≢ returned out
after_send_full before deadline polls later (ok _, sent) out full within e =
    let (g, seen) = output_after-returned before later _ out e in
    wait_for_full before deadline polls g full within seen
after_send_full before deadline polls later (err x, sent) out full within e = cc

-- Once the console is full, `command` never returns its output, whatever the guest prints: it looks
-- for the prompt behind the 64000 characters that it counted before, and the console keeps no more.
pub command-full :
    (socket : Socket) (g sender : Guest) (text : Text) (deadline : ℕ) (polls : List Poll)
    (later : Guest) (sent : List ℕ) (out : Text)
    → console_limit ≤ length g.console
    → AllWithin polls
    → (command socket g sender text deadline polls later sent).0 ≢ returned out
unfolding command
command-full socket g sender text deadline polls later sent out full within =
    after_send_full (length g.console) deadline polls later
      (send socket sender (text ++ 13 ∷ []) sent) out full within

-- what the console shows behind `before`, while nothing has fallen out of the window
drop-console_texts :
    (ts : List Text) (g : Guest)
    → all_plain ts ≡ true
    → length g.console + length (printed (concat ts)) ≤ console_limit
    → drop (length g.console) (console_texts ts g).console ≡ printed (concat ts)
drop-console_texts ts g plain room =
    let full = g.console ++ printed (concat ts) in
    let start : IsTail g.console_base g.console g = record {
      console = sym (last_n_short console_limit g.console (omega arith));
      base = omega arith;
    } in
    ap (drop (length g.console)) (
      (console_texts-IsTail g.console_base g.console ts g plain start).console
      ∙ last_n_short console_limit full
          (omega (arith, length-append g.console (printed (concat ts)))))
    ∙ drop-length-append g.console (printed (concat ts))

-- While the window has room for what the guest prints, and no backspace comes: if the bytes were sent
-- and the first round, in time, finds the prompt in the new text, then `command` returns exactly the
-- text printed since it began.
pub command-output :
    (socket : Socket) (g sender : Guest) (text : Text) (deadline now : ℕ) (ts us : List Text)
    (polls : List Poll) (sent sent' : List ℕ)
    → send socket sender (text ++ 13 ∷ []) sent ≡ (ok tt, sent')
    → now < deadline
    → all_plain ts ≡ true
    → all_plain us ≡ true
    → length g.console + length (printed (concat ts)) ≤ console_limit
    → length g.console + length (printed (concat us)) ≤ console_limit
    → contains prompt (printed (concat ts)) ≡ true
    → command socket g sender text deadline
        (record { now = now; guest = console_texts ts g } ∷ polls)
        (console_texts us g)
        sent
      ≡ (returned (printed (concat us)), sent')
unfolding command wait_for prompt_after
command-output socket g sender text deadline now ts us polls sent sent' good early pt pu rt ru
      seen =
    rw (
      good,
      lt→ltb now deadline early,
      drop-console_texts ts g pt rt,
      seen,
      drop-console_texts us g pu ru,
    )
