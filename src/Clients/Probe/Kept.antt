-- ===== src/Clients/Probe/Kept.antt =====
-- What the entries hold that a session of the probe keeps.
use mathlib.Core.Path.{subst}
use mini_linux.Prelude.{
  if◌then◌else◌, ℕ, zero, suc, ◌≡◌, refl, sym, ap, ◌∙◌, Bool, true, false, List, [], ◌∷◌, ◌++◌, all,
  append-nil, append_assoc, length,
}
use mini_linux.Prelude.Text.{Text, codes, contains}
use mini_linux.Prelude.Exec.{Result}
use mini_linux.Guest.Session.{prompt, is_running}
use mini_linux.Server.{Body, State}
use mini_linux.Checks.{Verdict, passed}
use mini_linux.Checks.Search.{passed_inj}
use mini_linux.Checks.Steps.{Step, ◌>>◌, judge}
use mini_linux.Checks.Steps.Passing.{follow_passed, fst_eq, snd_eq}
use mini_linux.Clients.{
  Web, post, text_body, asserts, new_text, is_prompted, request_json, read_state,
}
use mini_linux.Clients.Passing.{asserted}
use mini_linux.Clients.Probe.{Entry, Session, within, keep, await_output, probe_command, probe_all}

-- a label, and the texts that the output has
abbrev pub Wanted : Type 0
Wanted = Text × List Text

abbrev Fits : Wanted → Entry → Type 0
Fits (label, texts) e = (e.label ≡ label) × (all (λ t. contains t e.output) texts ≡ true)

-- The entries are the wanted ones, in this order.
abbrev pub AllFit : List Wanted → List Entry → Type 0
AllFit [] [] = Unit {0}
AllFit [] (e ∷ es) = true ≡ false
AllFit (w ∷ ws) [] = true ≡ false
AllFit (w ∷ ws) (e ∷ es) = Fits w e × AllFit ws es

AllFit-append :
    (ws vs : List Wanted) (es fs : List Entry)
    → AllFit ws es
    → AllFit vs fs
    → AllFit (ws ++ vs) (es ++ fs)
AllFit-append [] vs [] fs h k = k
AllFit-append [] vs (e ∷ es) fs h k = cc h
AllFit-append (w ∷ ws) vs [] fs h k = cc h
AllFit-append (w ∷ ws) vs (e ∷ es) fs h k = (h.0, AllFit-append ws vs es fs h.1 k)

-- Between the two states the wanted entries were added.
pub record Adds {S : Type 0} (ws : List Wanted) (s t : Session S) : Type 0 where
  pub added : List Entry
  pub kept : t.kept ≡ s.kept ++ added
  pub fit : AllFit ws added

-- an entry of `command`
abbrev pub wanted : Text × Text → Wanted
wanted (text, expected) = (text, prompt ∷ expected ∷ [])

abbrev pub all_wanted : List (Text × Text) → List Wanted
all_wanted [] = []
all_wanted (c ∷ cs) = wanted c ∷ all_wanted cs

module _ {S : Type 0} where
  pub Adds-none : (s t : Session S) → t.kept ≡ s.kept → Adds [] s t
  Adds-none s t q = record { added = []; kept = q ∙ sym (append-nil s.kept); fit = tt }

  pub Adds-trans :
      (ws vs : List Wanted) (s t u : Session S) → Adds ws s t → Adds vs t u → Adds (ws ++ vs) s u
  Adds-trans ws vs s t u a b = record {
    added = a.added ++ b.added;
    kept = b.kept ∙ ap (λ es. es ++ b.added) a.kept ∙ append_assoc s.kept a.added b.added;
    fit = AllFit-append ws vs a.added b.added a.fit b.fit;
  }

  pub within-kept :
      {A : Type 0} (m : Step S A) (s : Session S) (a : A) (t : Session S)
      → within m s ≡ (passed a, t)
      → t.kept ≡ s.kept
  within-kept m s a t h = ap (λ (u : Session S). u.kept) (sym (snd_eq h))

  pub within-world :
      {A : Type 0} (m : Step S A) (s : Session S) (a : A) (t : Session S)
      → within m s ≡ (passed a, t)
      → m s.world ≡ (passed a, t.world)
  within-world m s a t h = ap (λ (v : Verdict _ × Session S). (v.0, v.1.world)) h

  pub keep-world :
      (label : Text) (x : State) (output : Text) (s : Session S) (u : Unit {0}) (t : Session S)
      → keep label x output s ≡ (passed u, t)
      → s.world ≡ t.world
  unfolding keep
  keep-world label x output s u t h = ap (λ (v : Session S). v.world) (snd_eq h)

  pub keep-Adds :
      (label : Text) (x : State) (output : Text) (texts : List Text) (s : Session S) (u : Unit {0})
      (t : Session S)
      → keep label x output s ≡ (passed u, t)
      → all (λ w. contains w output) texts ≡ true
      → Adds ((label, texts) ∷ []) s t
  unfolding keep
  keep-Adds label x output texts s u t h q = record {
    added = record { label = label; state = x; output = output } ∷ [];
    kept = ap (λ (v : Session S). v.kept) (sym (snd_eq h));
    fit = ((refl, q), tt);
  }

module _ {S : Type 0} (web : Web S) (loads : List ℕ → Result Body) where
  -- a state that was read, with the prompt behind the offset
  abbrev pub Shown : ℕ → State → S → Type 0
  Shown offset x t =
      (u : S) × (read_state web loads u ≡ (passed x, t)) × (is_prompted offset x ≡ true)

  prompted_or :
      (offset : ℕ) (b c : Bool) (rest : Step S State) (y x : State) (u s t : S)
      → read_state web loads u ≡ (passed y, s)
      → is_prompted offset y ≡ b
      → (if b then judge (passed y) else (do judge (asserts c); rest)) s ≡ (passed x, t)
      → (rest s ≡ (passed x, t) → Shown offset x t)
      → Shown offset x t
  prompted_or offset true c rest y x u s t r q h k =
      (u, r ∙ h, subst (λ z. is_prompted offset z ≡ true) (passed_inj (fst_eq h)) q)
  prompted_or offset false c rest y x u s t r q h k = k ((asserted c rest s x t h).1)

  -- the loop ends well only at a state with the prompt
  pub await_output-Shown :
      (n offset : ℕ) (s : S) (x : State) (t : S)
      → await_output web loads n offset s ≡ (passed x, t)
      → Shown offset x t
  unfolding await_output
  await_output-Shown zero offset s x t h =
      let (y, s1, e1, h1) = follow_passed _ (read_state web loads s) x t h in
      prompted_or offset (is_prompted offset y) (is_running y.snapshot.status)
        (do judge (asserts false); judge (passed y)) y x s s1 t e1 refl h1
        (λ bad. cc ((asserted false (judge (passed y)) s1 x t bad).0))
  await_output-Shown (suc n) offset s x t h =
      let (y, s1, e1, h1) = follow_passed _ (read_state web loads s) x t h in
      prompted_or offset (is_prompted offset y) (is_running y.snapshot.status)
        (await_output web loads n offset) y x s s1 t e1 refl h1 (await_output-Shown n offset s1 x t)

  -- A command that passes adds its entry, with the expected text and the prompt in its output.
  pub probe_command-Adds :
      (c : Text × Text) (s : Session S) (r : State × ℕ) (t : Session S)
      → probe_command web loads c.0 c.1 s ≡ (passed r, t)
      → Adds (wanted c ∷ []) s t
  unfolding probe_command
  probe_command-Adds (text, expected) s r t h =
      let read = read_state web loads in
      let input =
        request_json web loads 200 (post (codes "/api/input") (text_body (text ++ 13 ∷ []))) in
      let (old, s1, e1, h1) = follow_passed _ (within read s) r t h in
      let (u, s2, e2, h2) = follow_passed _ (within input s1) r t h1 in
      let offset = length old.snapshot.console in
      let waits = await_output web loads (web.rounds s2.world) offset in
      let (x, s3, e3, h3) = follow_passed _ (within waits s2) r t h2 in
      let (shown, h4) = asserted (contains expected (new_text offset x)) _ s3 r t h3 in
      let (v, s4, e4, h5) = follow_passed _ (keep text x (new_text offset x) s3) r t h4 in
      let prompted =
        (await_output-Shown (web.rounds s2.world) offset s2.world x s3.world
          (within-world waits s2 x s3 e3)).2 in
      let added : Adds (wanted (text, expected) ∷ []) s3 s4 =
        keep-Adds text x (new_text offset x) (prompt ∷ expected ∷ []) s3 v s4 e4
          (rw (prompted, shown)) in
      record {
        added = added.added;
        kept =
            ap (λ (z : Session S). z.kept) (sym (snd_eq h5))
            ∙ added.kept
            ∙ ap (λ es. es ++ added.added)
                (within-kept waits s2 x s3 e3
                  ∙ within-kept input s1 u s2 e2
                  ∙ within-kept read s old s1 e1);
        fit = added.fit;
      }

  pub probe_all-Adds :
      (cs : List (Text × Text)) (s : Session S) (u : Unit {0}) (t : Session S)
      → probe_all web loads cs s ≡ (passed u, t)
      → Adds (all_wanted cs) s t
  unfolding probe_all
  probe_all-Adds [] s u t h = Adds-none s t (ap (λ (z : Session S). z.kept) (sym (snd_eq h)))
  probe_all-Adds (c ∷ cs) s u t h =
      let (r, s1, e1, h1) = follow_passed _ (probe_command web loads c.0 c.1 s) u t h in
      Adds-trans (wanted c ∷ []) (all_wanted cs) s s1 t (probe_command-Adds c s r s1 e1)
        (probe_all-Adds cs s1 u t h1)
