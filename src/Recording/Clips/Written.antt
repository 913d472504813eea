-- ===== src/Recording/Clips/Written.antt =====
-- What a recording that is written holds.
use mathlib.Core.Path.{subst}
use mini_linux.Prelude.{
  ℕ, zero, suc, ◌≡◌, refl, sym, ap, ◌∙◌, true, false, List, [], ◌∷◌, some, length, drop, Bool-cases,
  inl, inr, ◌||◌, not, ltb, get_elem?, Option, none, Option-cases,
}
use mini_linux.Prelude.Text.{Text, codes, contains, text_eq}
use mini_linux.Prelude.Exec.{Result, ok, err}
use mini_linux.Guest.{Guest, Event}
use mini_linux.Guest.Session.{Child, Waited, returned, raised, waiting, prompt, is_running}
use mini_linux.Checks.Search.{and_true}
use mini_linux.Recording.{Frame, demo_snapshot, DemoRound, add_frame, record_loop}
use mini_linux.Recording.Clips.{
  Clip, demo_commands, ClipEnv, first_frame, record_clip, record_clips, record_guest, written,
  last_of, frames_of, shows_text, has_fault, any_fault, is_witnessed, judge_clips, record_demo,
  behind_send, next_clip, add_clip,
}

-- A clip of this command, which was sent and whose last frame shows the prompt behind what the console
-- held when its length was read before.
pub record IsClip (command : Text) (env : ClipEnv) (c : Clip) : Type 0 where
  pub of_command : c.command ≡ command
  pub sent : env.sent ≡ ok tt
  pub last : Frame
  pub ends : last_of c.frames ≡ some last
  pub prompted : contains prompt (drop (length env.console) last.state.console) ≡ true

abbrev pub AllClips : List Text → List ClipEnv → List Clip → Type 0
AllClips [] envs [] = Unit {0}
AllClips [] envs (c ∷ cs) = true ≡ false
AllClips (t ∷ ts) envs [] = true ≡ false
AllClips (t ∷ ts) [] (c ∷ cs) = true ≡ false
AllClips (t ∷ ts) (env ∷ envs) (c ∷ cs) = IsClip t env c × AllClips ts envs cs

AllClips-command :
    (ts : List Text) (envs : List ClipEnv) (cs : List Clip) (n : ℕ) (t : Text) (c : Clip)
    → AllClips ts envs cs
    → get_elem? ts n ≡ some t
    → get_elem? cs n ≡ some c
    → c.command ≡ t
AllClips-command [] envs [] n t c a p q = cc p
AllClips-command [] envs (d ∷ cs) n t c a p q = cc a
AllClips-command (x ∷ ts) envs [] n t c a p q = cc a
AllClips-command (x ∷ ts) [] (d ∷ cs) n t c a p q = cc a
AllClips-command (x ∷ ts) (env ∷ envs) (d ∷ cs) zero t c a p q =
    let same : d ≡ c = cc q in
    let of_text : x ≡ t = cc p in
    ap (λ (z : Clip). z.command) (sym same) ∙ (a.0.of_command ∙ of_text)
AllClips-command (x ∷ ts) (env ∷ envs) (d ∷ cs) (suc n) t c a p q =
    AllClips-command ts envs cs n t c a.1 p q

-- The frames of a loop that returns end with the prompt.
abbrev Prompted : ℕ → List Frame → Type 0
Prompted before fs =
    (f : Frame) × (last_of fs ≡ some f) × (contains prompt (drop before f.state.console) ≡ true)

Prompted-cons :
    (before : ℕ) (f : Frame) (fs : List Frame) → Prompted before fs → Prompted before (f ∷ fs)
Prompted-cons before f [] (l, e, p) = cc e
Prompted-cons before f (g ∷ fs) (l, e, p) = (l, e, p)

returned_inj : {fs gs : List Frame} → returned fs ≡ returned gs → fs ≡ gs
returned_inj h = cc h

add_frame-Prompted :
    (before : ℕ) (f : Frame) (w : Waited (List Frame)) (fs : List Frame)
    → ((gs : List Frame) → w ≡ returned gs → Prompted before gs)
    → add_frame f w ≡ returned fs
    → Prompted before fs
add_frame-Prompted before f (returned gs) fs k h =
    subst (Prompted before) (returned_inj h) (Prompted-cons before f gs (k gs refl))
add_frame-Prompted before f (raised e) fs k h = cc h
add_frame-Prompted before f waiting fs k h = cc h

record_loop-Prompted :
    (command : Text) (before cursor : ℕ) (rs : List DemoRound) (fs : List Frame)
    → record_loop command before cursor rs ≡ returned fs
    → Prompted before fs
unfolding record_loop
record_loop-Prompted command before cursor [] fs h = cc h
record_loop-Prompted command before cursor (r ∷ rs) fs h =
    let state = demo_snapshot cursor r.child r.guest in
    elim (Bool-cases (contains prompt (drop before state.console))) [
      | inl shown ↦
          subst (Prompted before) (returned_inj (rw shown at h))
            (record { at = r.at; state = state }, refl, shown)
      | inr hidden ↦ elim (Bool-cases (not (is_running state.status) || ltb 20000 r.checked)) [
        | inl bad ↦ cc (rw (hidden, bad) at h)
        | inr fine ↦
            add_frame-Prompted before _ (record_loop command before state.sequence rs) fs
              (record_loop-Prompted command before state.sequence rs) (rw (hidden, fine) at h)
      ]
    ]

behind_send-sent :
    (sent : Result (Unit {0})) (w : Waited (List Frame)) (fs : List Frame)
    → behind_send sent w ≡ returned fs
    → (sent ≡ ok tt) × (w ≡ returned fs)
behind_send-sent (ok _) w fs h = (refl, h)
behind_send-sent (err e) w fs h = cc h

record_clip-IsClip :
    (command : Text) (env : ClipEnv) (fs : List Frame)
    → record_clip command env ≡ returned fs
    → IsClip command env (record { command = command; frames = fs })
unfolding record_clip
record_clip-IsClip command env fs h =
    let first = first_frame env.child env.guest in
    let n = length env.console in
    let w = record_loop command n first.state.sequence env.rounds in
    let (sent, e) = behind_send-sent env.sent (add_frame first w) fs h in
    let (last, ends, shown) =
      add_frame-Prompted n first w fs
        (record_loop-Prompted command n first.state.sequence env.rounds) e in
    record { of_command = refl; sent = sent; last = last; ends = ends; prompted = shown }

clips_inj : {cs ds : List Clip} → returned cs ≡ returned ds → cs ≡ ds
clips_inj h = cc h

add_clip-returned :
    (c : Clip) (w : Waited (List Clip)) (cs : List Clip)
    → add_clip c w ≡ returned cs
    → (ds : List Clip) × (w ≡ returned ds) × (c ∷ ds ≡ cs)
add_clip-returned c (returned ds) cs h = (ds, refl, clips_inj h)
add_clip-returned c (raised e) cs h = cc h
add_clip-returned c waiting cs h = cc h

next_clip-AllClips :
    (t : Text) (ts : List Text) (env : ClipEnv) (envs : List ClipEnv) (w : Waited (List Frame))
    (rest : Waited (List Clip)) (cs : List Clip)
    → ((fs : List Frame) → w ≡ returned fs → IsClip t env (record { command = t; frames = fs }))
    → ((ds : List Clip) → rest ≡ returned ds → AllClips ts envs ds)
    → next_clip t w rest ≡ returned cs
    → AllClips (t ∷ ts) (env ∷ envs) cs
next_clip-AllClips t ts env envs (returned fs) rest cs k l h =
    let (ds, e, same) = add_clip-returned _ rest cs h in
    subst (AllClips (t ∷ ts) (env ∷ envs)) same (k fs refl, l ds e)
next_clip-AllClips t ts env envs (raised e) rest cs k l h = cc h
next_clip-AllClips t ts env envs waiting rest cs k l h = cc h

record_clips-AllClips :
    (ts : List Text) (envs : List ClipEnv) (cs : List Clip)
    → record_clips ts envs ≡ returned cs
    → AllClips ts envs cs
unfolding record_clips
record_clips-AllClips [] envs cs h = subst (AllClips [] envs) (clips_inj h) tt
record_clips-AllClips (t ∷ ts) [] cs h = cc h
record_clips-AllClips (t ∷ ts) (env ∷ envs) cs h =
    next_clip-AllClips t ts env envs (record_clip t env) (record_clips ts envs) cs
      (record_clip-IsClip t env) (record_clips-AllClips ts envs) h

-- The last frame of this clip shows the text.
pub record Shows (t : Text) (c : Option Clip) : Type 0 where
  pub clip : Clip
  pub is_clip : c ≡ some clip
  pub last : Frame
  pub ends : last_of clip.frames ≡ some last
  pub shown : contains t last.state.console ≡ true

-- A frame of this clip has the record of a fault.
pub record Faults (c : Option Clip) : Type 0 where
  pub clip : Clip
  pub is_clip : c ≡ some clip
  pub frame : Frame
  pub place : ℕ
  pub of_clip : get_elem? clip.frames place ≡ some frame
  pub event : Event
  pub number : ℕ
  pub of_frame : get_elem? frame.state.events number ≡ some event
  pub of_kind : text_eq event.kind (codes "fault") ≡ true

shows_text-Shows :
    (t : Text) (c : Option Clip) → shows_text t (last_of (frames_of c)) ≡ true → Shows t c
shows_text-Shows t none h = cc h
shows_text-Shows t (some c) h = elim (Option-cases (last_of c.frames)) [
  | inl e ↦ cc (rw e at h)
  | inr (f, e) ↦ record {
    clip = c;
    is_clip = refl;
    last = f;
    ends = e;
    shown = ap (shows_text t) (sym e) ∙ h;
  }
]

has_fault_lem :
    (es : List Event)
    → has_fault es ≡ true
    → (e : Event) × (n : ℕ) × (get_elem? es n ≡ some e) × (text_eq e.kind (codes "fault") ≡ true)
has_fault_lem [] h = cc h
has_fault_lem (e ∷ es) h = elim (Bool-cases (text_eq e.kind (codes "fault"))) [
  | inl seen ↦ (e, 0, refl, seen)
  | inr unseen ↦ let (d, n, m, q) = has_fault_lem es (rw unseen at h) in (d, suc n, m, q)
]

any_fault_lem :
    (fs : List Frame)
    → any_fault fs ≡ true
    → (f : Frame) × (n : ℕ) × (get_elem? fs n ≡ some f) × (has_fault f.state.events ≡ true)
any_fault_lem [] h = cc h
any_fault_lem (f ∷ fs) h = elim (Bool-cases (has_fault f.state.events)) [
  | inl seen ↦ (f, 0, refl, seen)
  | inr unseen ↦ let (g, n, m, q) = any_fault_lem fs (rw unseen at h) in (g, suc n, m, q)
]

any_fault-Faults : (c : Option Clip) → any_fault (frames_of c) ≡ true → Faults c
any_fault-Faults none h = cc h
any_fault-Faults (some c) h =
    let (f, i, m, q) = any_fault_lem c.frames h in
    let (e, j, n, r) = has_fault_lem f.state.events q in
    record {
      clip = c;
      is_clip = refl;
      frame = f;
      place = i;
      of_clip = m;
      event = e;
      number = j;
      of_frame = n;
      of_kind = r;
    }

-- The eleven clips in their order; the clip of `cat hello.txt` ends with the bytes of the file, and that
-- of `run fault` has a fault.
pub record IsRecording (envs : List ClipEnv) (clips : List Clip) : Type 0 where
  pub boot : Clip
  pub rest : List Clip
  pub all : clips ≡ (boot ∷ rest)
  pub is_boot : boot.command ≡ codes "boot"
  pub commands : AllClips demo_commands envs rest
  pub file : Shows (codes "hello from ramfs") (get_elem? rest 2)
  pub of_file : file.clip.command ≡ codes "cat hello.txt"
  pub fault : Faults (get_elem? rest 7)
  pub of_fault : fault.clip.command ≡ codes "run fault"

seen_both :
    (clips : List Clip)
    → is_witnessed clips ≡ true
    → Shows (codes "hello from ramfs") (get_elem? clips 3) × Faults (get_elem? clips 8)
unfolding is_witnessed
seen_both clips h =
    let (a, b) = and_true h in
    (shows_text-Shows _ (get_elem? clips 3) a, any_fault-Faults (get_elem? clips 8) b)

written_inj : {cs ds : List Clip} → written cs ≡ written ds → cs ≡ ds
written_inj h = cc h

judge_clips-written :
    (w : Waited (List Clip)) (closed : Result (Unit {0})) (clips : List Clip)
    → judge_clips w closed ≡ written clips
    → (w ≡ returned clips) × (closed ≡ ok tt) × (is_witnessed clips ≡ true)
unfolding judge_clips
judge_clips-written waiting closed clips h = cc h
judge_clips-written (raised e) (ok _) clips h = cc h
judge_clips-written (raised e) (err x) clips h = cc h
judge_clips-written (returned cs) (err x) clips h = cc h
judge_clips-written (returned cs) (ok _) clips h = elim (Bool-cases (is_witnessed cs)) [
  | inl seen ↦
      let same : cs ≡ clips = written_inj (rw seen at h) in
      (ap returned same, refl, ap is_witnessed (sym same) ∙ seen)
  | inr unseen ↦ cc (rw unseen at h)
]

record_guest-AllClips :
    (child : Child) (started : Waited Guest) (envs : List ClipEnv) (clips : List Clip)
    → record_guest child started envs ≡ returned clips
    → (boot : Clip) × (rest : List Clip) × (clips ≡ (boot ∷ rest))
      × (boot.command ≡ codes "boot")
      × AllClips demo_commands envs rest
unfolding record_guest
record_guest-AllClips child (returned g) envs clips h =
    let (rest, e, same) = add_clip-returned _ (record_clips demo_commands envs) clips h in
    (_, rest, sym same, refl, record_clips-AllClips demo_commands envs rest e)
record_guest-AllClips child (raised e) envs clips h = cc h
record_guest-AllClips child waiting envs clips h = cc h

-- A recording that is written has the clip of the start and one clip for each of the ten commands, in
-- order. Each command was sent, and its clip ends with a frame that shows the prompt behind what the
-- console held when its length was read before. The clip of `cat hello.txt` ends with the bytes of the
-- file, a frame of the clip of `run fault` has the record of a fault, and the guest is closed.
pub record_demo-IsRecording :
    (child : Child) (started : Waited Guest) (envs : List ClipEnv) (closed : Result (Unit {0}))
    (clips : List Clip)
    → record_demo child started envs closed ≡ written clips
    → IsRecording envs clips × (closed ≡ ok tt)
unfolding record_demo
record_demo-IsRecording child started envs closed clips h =
    let (e, ended, seen) = judge_clips-written (record_guest child started envs) closed clips h in
    let (boot, rest, all_, named, each_) = record_guest-AllClips child started envs clips e in
    let (file, fault) = seen_both (boot ∷ rest) (ap is_witnessed (sym all_) ∙ seen) in
    (
      record {
        boot = boot;
        rest = rest;
        all = all_;
        is_boot = named;
        commands = each_;
        file = file;
        of_file = AllClips-command demo_commands envs rest 2 _ file.clip each_ refl file.is_clip;
        fault = fault;
        of_fault = AllClips-command demo_commands envs rest 7 _ fault.clip each_ refl fault.is_clip;
      },
      ended,
    )
