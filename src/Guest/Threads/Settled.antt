-- ===== src/Guest/Threads/Settled.antt =====
-- What can still change in a guest that is closed, when its readers are gone.
use mathlib.Core.Path.{subst}
use mini_linux.Prelude.{◌≡◌, refl, sym, ap, ◌∙◌, Bool, true, false, not, ◌&&◌, ◌||◌, ◌⊎◌, inl, inr}
use mini_linux.Guest.{Guest, stopped}
use mini_linux.Guest.Session.{has_exited}
use mini_linux.Guest.Threads.{
  Reader, gone, Finds, reader_step, Owner, looking, prompted, started, shutting, joining, over,
  outlived, Meets, end_close, close_again, owner_step, Threads, move_tty, move_trace, move_owner,
  test_child, note_exit,
}
use mini_linux.Guest.Threads.Sound.{has_closed, reached-IsSound}
use mini_linux.Guest.Threads.Steps.{
  Move, of_tty, of_trace, of_owner, tests_child, notes_exit, After, Reached, After-keeps,
}

-- This guest, or this guest with the status `stopped`.
abbrev pub StoppedOnly : Guest → Guest → Type 0
StoppedOnly g h = (h ≡ g) ⊎ (h ≡ record g { status = stopped })

-- `close` has set its flag, and no other thread is left that is about to write.
record IsSettled (g : Guest) (s : Threads) : Type 0 where
  owner : has_closed s.owner ≡ true
  tty : s.tty ≡ gone
  trace : s.trace ≡ gone
  quiet : s.viewing ≡ false
  flag : s.guest.closed ≡ true
  guest : StoppedOnly g s.guest

gone_step :
    (tty : Bool) (f : Finds) (r : Reader) (g : Guest) → r ≡ gone → reader_step tty f r g ≡ (gone, g)
unfolding reader_step
gone_step tty f r g q = rw q

stops : (g h : Guest) → StoppedOnly g h → StoppedOnly g (record h { status = stopped })
stops g h (inl e) = inr (ap (λ (x : Guest). record x { status = stopped }) e)
stops g h (inr e) = inr (ap (λ (x : Guest). record x { status = stopped }) e)

-- what a step of the owner keeps
record OwnerSettled (g : Guest) (m : Owner × Guest) : Type 0 where
  owner : has_closed m.0 ≡ true
  flag : m.1.closed ≡ true
  guest : StoppedOnly g m.1

end_close-OwnerSettled :
    (b : Bool) (g h : Guest) → h.closed ≡ true → StoppedOnly g h → OwnerSettled g (end_close b h)
end_close-OwnerSettled true g h c k = record { owner = refl; flag = c; guest = k }
end_close-OwnerSettled false g h c k = record { owner = refl; flag = c; guest = stops g h k }

closed_same : (h : Guest) → h.closed ≡ true → record h { closed = true } ≡ h
closed_same h c = ap (λ b. record h { closed = b }) (sym c)

close_again-OwnerSettled :
    (b : Bool) (o : Owner) (g h : Guest)
    → has_closed o ≡ true
    → h.closed ≡ true
    → StoppedOnly g h
    → OwnerSettled g (close_again b o h)
close_again-OwnerSettled true o g h q c (inl k) = record {
  owner = refl;
  flag = refl;
  guest = inl (closed_same h c ∙ k);
}
close_again-OwnerSettled true o g h q c (inr k) = record {
  owner = refl;
  flag = refl;
  guest = inr (closed_same h c ∙ k);
}
close_again-OwnerSettled false o g h q c k = record { owner = q; flag = c; guest = k }

owner_step-OwnerSettled :
    (m : Meets) (o : Owner) (g h : Guest)
    → has_closed o ≡ true
    → h.closed ≡ true
    → StoppedOnly g h
    → OwnerSettled g (owner_step m o h)
unfolding owner_step
owner_step-OwnerSettled m looking g h q c k = cc q
owner_step-OwnerSettled m prompted g h q c k = cc q
owner_step-OwnerSettled m started g h q c k = cc q
owner_step-OwnerSettled m shutting g h q c k = cc q
owner_step-OwnerSettled m joining g h q c k = end_close-OwnerSettled m.outlives g h c k
owner_step-OwnerSettled m over g h q c k = close_again-OwnerSettled m.again over g h q c k
owner_step-OwnerSettled m outlived g h q c k = close_again-OwnerSettled m.again outlived g h q c k

no_test : (v b c : Bool) → v ≡ false → c ≡ true → (v || (b && not c)) ≡ false
no_test v true c h k = rw (h, k)
no_test v false c h k = rw h

tty-settled : (s : Threads) (f : Finds) → s.tty ≡ gone → move_tty f s ≡ s
unfolding move_tty
tty-settled s f q =
    ap (λ (m : Reader × Guest). record s { guest = m.1; tty = m.0 })
      (gone_step true f s.tty s.guest q)
    ∙ ap (λ r. record s { tty = r }) (sym q)

trace-settled : (s : Threads) (f : Finds) → s.trace ≡ gone → move_trace f s ≡ s
unfolding move_trace
trace-settled s f q =
    ap (λ (m : Reader × Guest). record s { guest = m.1; trace = m.0 })
      (gone_step false f s.trace s.guest q)
    ∙ ap (λ r. record s { trace = r }) (sym q)

note-settled : (s : Threads) → s.viewing ≡ false → note_exit s ≡ s
unfolding note_exit
note-settled s q = rw q

Move-IsSettled : (g : Guest) (s t : Threads) → Move s t → IsSettled g s → IsSettled g t
unfolding move_owner test_child
Move-IsSettled g s t (of_tty f) h = subst (IsSettled g) (sym (tty-settled s f h.tty)) h
Move-IsSettled g s t (of_trace f) h = subst (IsSettled g) (sym (trace-settled s f h.trace)) h
Move-IsSettled g s t (of_owner m) h =
    let k = owner_step-OwnerSettled m s.owner g s.guest h.owner h.flag h.guest in
    record {
      owner = k.owner;
      tty = h.tty;
      trace = h.trace;
      quiet = h.quiet;
      flag = k.flag;
      guest = k.guest;
    }
Move-IsSettled g s t (tests_child child) h = record {
  owner = h.owner;
  tty = h.tty;
  trace = h.trace;
  quiet = no_test s.viewing (has_exited child) s.guest.closed h.quiet h.flag;
  flag = h.flag;
  guest = h.guest;
}
Move-IsSettled g s t notes_exit h = subst (IsSettled g) (sym (note-settled s h.quiet)) h

-- When `close` has set its flag, both readers are gone and no snapshot is about to write, then
-- whatever the threads do, `close` once more included, both readers stay gone, the flag stays set, and
-- the only change that the guest can still have is that its status becomes `stopped`: its console, its
-- log, its processes and its error are final.
pub settled-final :
    (s t : Threads)
    → Reached s
    → has_closed s.owner ≡ true
    → s.tty ≡ gone
    → s.trace ≡ gone
    → s.viewing ≡ false
    → After s t
    → (t.tty ≡ gone) × (t.trace ≡ gone) × (t.guest.closed ≡ true) × StoppedOnly s.guest t.guest
settled-final s t r o p q v a =
    let settled : IsSettled s.guest s = record {
      owner = o;
      tty = p;
      trace = q;
      quiet = v;
      flag = (reached-IsSound s r).guest.flag ∙ o;
      guest = inl refl;
    } in
    let h = After-keeps (IsSettled s.guest) (Move-IsSettled s.guest) s t a settled in
    (h.tty, h.trace, h.flag, h.guest)
