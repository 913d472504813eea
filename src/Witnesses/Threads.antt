-- ===== src/Witnesses/Threads.antt =====
-- The theorems of Guest/Threads at concrete inputs.
use mini_linux.Prelude.{◌≤◌, ◌≡◌, refl, true, false, [], none}
use mini_linux.Prelude.Text.{codes, contains}
use mini_linux.Prelude.Exec.{err}
use mini_linux.Guest.{stopped, init}
use mini_linux.Guest.Reader.{chunk}
use mini_linux.Guest.Session.{Socket, send, not_running, wait_for, prompt_after}
use mini_linux.Guest.Threads.{
  Finds, gone, testing, mark, started, shutting, over, Meets, Threads, begun, move_tty, move_trace,
  move_owner, reader_step, owner_step, look, handle,
}
use mini_linux.Guest.Threads.Steps.{of_tty, of_trace, of_owner, After, here, later, Reached}
use mini_linux.Guest.Threads.Sound.{IsSound, reached-IsSound}
use mini_linux.Guest.Threads.Failing.{gone-shutting}
use mini_linux.Guest.Threads.Overwritten.{idle-not_running}
use mini_linux.Guest.Threads.Hidden.{Hides, lost-running}
use mini_linux.Guest.Console.{console_chunk}
use mini_linux.Guest.Threads.Ending.{closed-gone}
use mini_linux.Guest.Threads.Settled.{StoppedOnly, settled-final}

-- the channel is closed
abbrev nothing : Finds
nothing = record { refused = none; received = chunk [] }

abbrev in_time : Meets
in_time = record { now = 5; deadline = 20000; outlives = false; again = false }

abbrev too_late : Meets
too_late = record { now = 20000; deadline = 20000; outlives = false; again = false }

-- the reader of the terminal finds its channel closed
abbrev tty_ends : Reached (
    move_tty nothing
      (move_tty nothing (move_tty nothing (move_tty nothing (move_tty nothing begun)))))
tty_ends =
    later
      (later (later (later (later here (of_tty nothing)) (of_tty nothing)) (of_tty nothing))
        (of_tty nothing))
      (of_tty nothing)

abbrev tty_ended : Threads
tty_ended = record begun { guest = mark init; tty = gone }

tty_ended_reached : Reached tty_ended
unfolding move_tty reader_step
tty_ended_reached = tty_ends

reached-IsSound_example : IsSound tty_ended
reached-IsSound_example = reached-IsSound tty_ended tty_ended_reached

gone-shutting_example :
    ((move_owner in_time tty_ended).owner ≡ shutting)
    × ((move_owner in_time tty_ended).guest ≡ mark init)
unfolding contains prompt_after
gone-shutting_example = gone-shutting tty_ended in_time tty_ended_reached refl refl refl

-- a guest that has printed its prompt while its readers wait for more
abbrev prompt_chunk : Finds
prompt_chunk = record { refused = none; received = chunk (codes "mini$ ") }

abbrev at_prompt : Threads
at_prompt = record begun { guest = record init { console = codes "mini$ " }; tty = testing [] }

at_prompt_reached : Reached at_prompt
unfolding move_tty reader_step handle console_chunk contains
at_prompt_reached =
    later
      (later (later (later here (of_tty prompt_chunk)) (of_tty prompt_chunk)) (of_tty prompt_chunk))
      (of_tty prompt_chunk)

lost-running_example : Hides at_prompt in_time
unfolding contains prompt_after
lost-running_example =
    lost-running at_prompt in_time in_time at_prompt_reached refl refl refl refl refl

abbrev every_byte : Socket
every_byte sent b = none

abbrev failed_guest : Threads
failed_guest = record tty_ended { owner = started }

idle-not_running_example :
    send every_byte (move_owner in_time failed_guest).guest (codes "ls") [] ≡ (err not_running, [])
idle-not_running_example =
    idle-not_running failed_guest (move_owner in_time failed_guest) every_byte (codes "ls") []
      (later here (of_owner in_time)) refl refl

abbrev closed_guest : Threads
closed_guest = record begun { guest = record init { closed = true } }

abbrev four_moves :
    After closed_guest
      (move_tty nothing (move_tty nothing (move_tty nothing (move_tty nothing closed_guest))))
four_moves =
    later (later (later (later here (of_tty nothing)) (of_tty nothing)) (of_tty nothing))
      (of_tty nothing)

closed-gone_example :
    (4 ≤ 4
      → (move_tty nothing (move_tty nothing (move_tty nothing (move_tty nothing closed_guest)))).tty
        ≡ gone)
    × (4 ≤ 0
        → (move_tty nothing
            (move_tty nothing (move_tty nothing (move_tty nothing closed_guest)))).trace
          ≡ gone)
closed-gone_example = closed-gone closed_guest _ four_moves refl

-- the deadline passes, `close` sets the flag, both readers end, and `close` comes to its end
abbrev given_up : Threads
given_up = record begun {
  guest = record init { closed = true; status = stopped };
  tty = gone;
  trace = gone;
  owner = over;
}

given_up_reached : Reached given_up
unfolding move_tty move_trace move_owner reader_step owner_step look wait_for
given_up_reached =
    later
      (later
        (later
          (later
            (later
              (later
                (later (later (later here (of_owner too_late)) (of_owner too_late))
                  (of_tty nothing))
                (of_tty nothing))
              (of_tty nothing))
            (of_trace nothing))
          (of_trace nothing))
        (of_trace nothing))
      (of_owner too_late)

-- the bridge closes its guest once more
abbrev closes_again : Meets
closes_again = record in_time { again = true }

settled-final_example :
    ((move_owner closes_again given_up).tty ≡ gone)
    × ((move_owner closes_again given_up).trace ≡ gone)
    × ((move_owner closes_again given_up).guest.closed ≡ true)
    × StoppedOnly given_up.guest (move_owner closes_again given_up).guest
settled-final_example =
    settled-final given_up (move_owner closes_again given_up) given_up_reached refl refl refl refl
      (later here (of_owner closes_again))
