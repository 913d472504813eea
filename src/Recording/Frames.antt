-- ===== src/Recording/Frames.antt =====
-- The frames of a clip hold each record of the trace once, in order.
use mini_linux.Prelude.{
  ℕ, ◌≡◌, refl, sym, ap, ◌∙◌, true, false, not, ◌||◌, List, [], ◌∷◌, ◌++◌, arith, last_n, drop, ltb,
  Bool-cases, inl, inr,
}
use mini_linux.Prelude.Text.{Text, contains}
use mini_linux.Prelude.Int.{pos}
use mini_linux.Guest.{Guest, Event}
use mini_linux.Guest.Trace.{event_limit}
use mini_linux.Guest.Trace.Log.{Rises, events-Extends, IsLog, Extends-IsLog, events_after-events}
use mini_linux.Guest.Reader.{events}
use mini_linux.Guest.Session.{
  Child, notice_exit, is_running, prompt, Waited, returned, raised, waiting,
}
use mini_linux.Server.Get.{events_since}
use mini_linux.Server.Get.Polling.{events_since-pos}
use mini_linux.Recording.{Frame, demo_snapshot, DemoRound, add_frame, record_loop}

-- Between two rounds the guest has handled some lines of the trace; the rest of it may have changed.
abbrev pub Reads : Guest → List DemoRound → Type 0
Reads g [] = Unit
Reads g (r ∷ rs) =
    ((lines : List Text) × (r.guest.events ≡ (events lines g).1.events)
      × (r.guest.sequence ≡ (events lines g).1.sequence))
    × Reads r.guest rs

-- Each frame holds the records that were added since the frame before it, or the last 2000 of them.
abbrev pub HoldsNew : Guest → List DemoRound → List Frame → Type 0
HoldsNew g rs [] = Unit
HoldsNew g [] (f ∷ fs) = true ≡ false
HoldsNew g (r ∷ rs) (f ∷ fs) =
    ((added : List Event) × Rises g.sequence r.guest.sequence added
      × (r.guest.events ≡ last_n event_limit (g.events ++ added))
      × (f.state.events ≡ last_n event_limit added))
    × HoldsNew r.guest rs fs

snapshot_fields :
    (after : ℕ) (child : Child) (g : Guest)
    → ((demo_snapshot after child g).sequence ≡ g.sequence)
      × ((demo_snapshot after child g).events ≡ events_since (pos after) g.events)
unfolding demo_snapshot notice_exit
snapshot_fields after child g = ground arith

add_frame-returned :
    (f : Frame) (w : Waited (List Frame)) (fs : List Frame)
    → add_frame f w ≡ returned fs
    → (gs : List Frame) × (w ≡ returned gs) × (fs ≡ f ∷ gs)
add_frame-returned f (returned gs) fs e = (gs, refl, cc e)
add_frame-returned f (raised x) fs e = cc e
add_frame-returned f waiting fs e = cc e

new_records :
    (g : Guest) (r : DemoRound) (lines : List Text)
    → IsLog g
    → r.guest.events ≡ (events lines g).1.events
    → r.guest.sequence ≡ (events lines g).1.sequence
    → (added : List Event) × Rises g.sequence r.guest.sequence added
      × (r.guest.events ≡ last_n event_limit (g.events ++ added))
      × ((demo_snapshot g.sequence r.child r.guest).events ≡ last_n event_limit added)
new_records g r lines l e s =
    let (added, rises, kept, new) = events_after-events lines g l in
    (
      added,
      rw s rises,
      e ∙ kept,
      (snapshot_fields g.sequence r.child r.guest).1
          ∙ ap (events_since (pos g.sequence)) e
          ∙ events_since-pos g.sequence (events lines g).1.events
          ∙ new,
    )

round-IsLog :
    (g : Guest) (r : DemoRound) (lines : List Text)
    → IsLog g
    → r.guest.events ≡ (events lines g).1.events
    → r.guest.sequence ≡ (events lines g).1.sequence
    → IsLog r.guest
round-IsLog g r lines l e s =
    let x = events-Extends lines g l.short in
    Extends-IsLog g r.guest l (record { added = x.added; kept = e ∙ x.kept; rises = rw s x.rises })

-- A clip that is recorded from the sequence number of a guest with a well-formed log, while the guest
-- handles any lines of the trace between the rounds: each frame holds exactly the records that were
-- added since the frame before it, each once and in order, or the last 2000 of them.
pub clip-HoldsNew :
    (command : Text) (before : ℕ) (g : Guest) (rs : List DemoRound) (fs : List Frame)
    → IsLog g
    → Reads g rs
    → record_loop command before g.sequence rs ≡ returned fs
    → HoldsNew g rs fs
unfolding record_loop
clip-HoldsNew command before g [] fs l x e = cc e
clip-HoldsNew command before g (r ∷ rs) fs l ((lines, old, seq), later) e =
    let state = demo_snapshot g.sequence r.child r.guest in
    elim (Bool-cases (contains prompt (drop before state.console))) [
      | inl shown ↦
          let same : record { at = r.at; state = state } ∷ [] ≡ fs = cc (rw shown at e) in
          rw (← same) (new_records g r lines l old seq, tt)
      | inr hidden ↦ elim (Bool-cases (not (is_running state.status) || ltb 20000 r.checked)) [
        | inl bad ↦ cc (rw (hidden, bad) at e)
        | inr fine ↦
            let (gs, rest, split) = add_frame-returned _ _ fs (rw (hidden, fine) at e) in
            rw split (
              new_records g r lines l old seq,
              clip-HoldsNew command before r.guest rs gs (round-IsLog g r lines l old seq) later (
                  ap (λ n. record_loop command before n rs)
                    (sym (snapshot_fields g.sequence r.child r.guest).0)
                  ∙ rest),
            )
      ]
    ]
