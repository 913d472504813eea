-- ===== src/Guest/Threads/Steps.antt =====
-- The interleavings of the threads of a guest.
use mini_linux.Guest.Session.{Child}
use mini_linux.Guest.Threads.{
  Threads, begun, Finds, Meets, move_tty, move_trace, move_owner, test_child, note_exit,
}

-- One atomic step of one thread.
pub data Move (s : Threads) : Threads → Type 0 where
  of_tty : (f : Finds) → Move s (move_tty f s)
  of_trace : (f : Finds) → Move s (move_trace f s)
  of_owner : (m : Meets) → Move s (move_owner m s)
  tests_child : (child : Child) → Move s (test_child child s)
  notes_exit : Move s (note_exit s)

-- The states behind `s`, in every order of the steps.
pub data After (s : Threads) : Threads → Type 0 where
  here : After s s
  later : {t u : Threads} → After s t → Move t u → After s u

abbrev pub Reached : Threads → Type 0
Reached = After begun

-- A property that every step keeps holds in every later state.
pub After-keeps :
    (P : Threads → Type 0)
    → ((s t : Threads) → Move s t → P s → P t)
    → (s t : Threads) → After s t
    → P s
    → P t
After-keeps P keep s t here p = p
After-keeps P keep s t (later {t = u} a m) p = keep u t m (After-keeps P keep s u a p)
