-- ===== src/Guest/Threads/Overwritten.antt =====
-- The write of `running` at the end of `start` is the last one.
use mini_linux.Prelude.{
  ℕ, ◌≡◌, refl, ap, ◌∙◌, Bool, true, false, not, ◌||◌, ◌⊎◌, inl, inr, List, Bool-cases,
}
use mini_linux.Prelude.Text.{Text}
use mini_linux.Prelude.Exec.{err}
use mini_linux.Guest.{Guest, Status, faulted}
use mini_linux.Guest.Session.{is_running, Socket, send, not_running}
use mini_linux.Guest.Session.Waiting.{send_branches}
use mini_linux.Guest.Threads.{
  Owner, looking, prompted, started, shutting, joining, over, outlived, Meets, close_again,
  end_close, owner_step, Threads, move_tty, move_trace, move_owner, test_child, note_exit,
}
use mini_linux.Guest.Threads.Untouched.{trace_text-SameFront, console_chunk-SameBack}
use mini_linux.Guest.Threads.Kept.{Kept, reader_step-keeps}
use mini_linux.Guest.Threads.Steps.{
  Move, of_tty, of_trace, of_owner, tests_child, notes_exit, After, After-keeps,
}

note_exit-owner : (s : Threads) → (note_exit s).owner ≡ s.owner
unfolding note_exit
note_exit-owner s = elim (Bool-cases s.viewing) [ inl yes_ ↦ rw yes_ | inr no_ ↦ rw no_ ]

-- Behind the end of `start`.
abbrev pub has_started : Owner → Bool
has_started looking = false
has_started prompted = false
has_started _ = true

abbrev IsIdle : Guest → Type 0
IsIdle g = is_running g.status ≡ false

idle_console :
    (s t : Status) → (t ≡ s) ⊎ (t ≡ faulted) → is_running s ≡ false → is_running t ≡ false
idle_console s t (inl q) h = ap is_running q ∙ h
idle_console s t (inr q) h = ap is_running q

IsIdle-Kept : Kept IsIdle
IsIdle-Kept = record {
  printed = λ bytes g h. idle_console g.status _ (console_chunk-SameBack bytes g).status h;
  traced = λ p t g h. ap is_running (trace_text-SameFront p t g).status ∙ h;
  noted = λ e g h. h;
  marked = λ g h. refl;
}

pub record IsOver (s : Threads) : Type 0 where
  pub owner : has_started s.owner ≡ true
  pub guest : IsIdle s.guest

end_close-IsIdle :
    (b : Bool) (g : Guest)
    → IsIdle g
    → (has_started (end_close b g).0 ≡ true) × IsIdle (end_close b g).1
end_close-IsIdle true g h = (refl, h)
end_close-IsIdle false g h = (refl, refl)

close_again-IsIdle :
    (b : Bool) (o : Owner) (g : Guest)
    → has_started o ≡ true
    → IsIdle g
    → (has_started (close_again b o g).0 ≡ true) × IsIdle (close_again b o g).1
close_again-IsIdle true o g k h = (refl, h)
close_again-IsIdle false o g k h = (k, h)

owner_step-IsIdle :
    (m : Meets) (o : Owner) (g : Guest)
    → has_started o ≡ true
    → IsIdle g
    → (has_started (owner_step m o g).0 ≡ true) × IsIdle (owner_step m o g).1
unfolding owner_step
owner_step-IsIdle m looking g o h = cc
owner_step-IsIdle m prompted g o h = cc
owner_step-IsIdle m started g o h = (refl, h)
owner_step-IsIdle m shutting g o h = (refl, h)
owner_step-IsIdle m joining g o h = end_close-IsIdle m.outlives g h
owner_step-IsIdle m over g o h = close_again-IsIdle m.again over g o h
owner_step-IsIdle m outlived g o h = close_again-IsIdle m.again outlived g o h

note_exit-IsIdle : (s : Threads) → IsIdle s.guest → IsIdle (note_exit s).guest
unfolding note_exit
note_exit-IsIdle s h = elim (Bool-cases s.viewing) [ inl yes_ ↦ rw yes_ | inr no_ ↦ rw no_ h ]

Move-IsOver : (s t : Threads) → Move s t → IsOver s → IsOver t
unfolding move_tty move_trace move_owner test_child
Move-IsOver s t (of_tty f) h = record {
  owner = h.owner;
  guest = reader_step-keeps IsIdle IsIdle-Kept true f s.tty s.guest h.guest;
}
Move-IsOver s t (of_trace f) h = record {
  owner = h.owner;
  guest = reader_step-keeps IsIdle IsIdle-Kept false f s.trace s.guest h.guest;
}
Move-IsOver s t (of_owner m) h =
    let (o, g) = owner_step-IsIdle m s.owner s.guest h.owner h.guest in
    record { owner = o; guest = g }
Move-IsOver s t (tests_child child) h = record { owner = h.owner; guest = h.guest }
Move-IsOver s t notes_exit h = record {
  owner = ap has_started (note_exit-owner s) ∙ h.owner;
  guest = note_exit-IsIdle s h.guest;
}

refuses : (a b : Bool) → b ≡ false → (a || not b) ≡ true
refuses true b h = refl
refuses false b h = ap not h

-- Once `start` has returned, a guest that is not running any more never runs again: in every later
-- state, by any interleaving, also through `close`, `send` refuses every text and sends nothing.
pub idle-not_running :
    (s t : Threads) (socket : Socket) (text : Text) (sent : List ℕ)
    → After s t
    → has_started s.owner ≡ true
    → is_running s.guest.status ≡ false
    → send socket t.guest text sent ≡ (err not_running, sent)
idle-not_running s t socket text sent a o h = (send_branches socket t.guest text sent).0 (
    refuses t.guest.closed (is_running t.guest.status)
      ((After-keeps IsOver Move-IsOver s t a (record { owner = o; guest = h })).guest))
