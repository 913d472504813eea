-- ===== src/Checks/Userland/Isolation.antt =====
-- What a run of the userland check that passes has seen of the two counters.
use mathlib.Core.Path.{subst}
use mini_linux.Prelude.{
  ℕ, ◌≡◌, ◌≢◌, refl, sym, ap, ◌∙◌, Bool, true, false, not, ◌||◌, List, [], ◌∷◌, ◌⊎◌, inl, inr,
}
use mini_linux.Prelude.Text.{Text, codes, text_eq, text_eq_iff}
use mini_linux.Prelude.Int.{ℤ, int_eq_iff}
use mini_linux.Guest.{Event}
use mini_linux.Checks.{passed, text_at, int_at, of_kind, is_from, is_kind}
use mini_linux.Checks.Search.{
  Among, Recorded, passed_inj, passed_through, passed_next, holds_true, and_then-true, select-Among,
  is_from-true, and_true,
}
use mini_linux.Checks.Userland.{
  ints, two, pairs, switches, is_marked, marks_of, last, last_mark, differ_at, are_apart, Counters,
  counters,
}

-- Two records with different texts in a field.
abbrev pub Differ : ℕ → Event → Event → Type 0
Differ i a b = (x y : Text) × (text_at i a ≡ passed x) × (text_at i b ≡ passed y) × (x ≢ y)

-- A record of a page of this process, with a marker that is not zero.
pub record IsMark (pid : ℤ) (es : List Event) (e : Event) : Type 0 where
  pub among : Among e es
  pub is_data : e.kind ≡ codes "data"
  pub of_pid : int_at 0 e ≡ passed pid
  pub marked : is_marked e ≡ passed true

-- The processor went from each of the two to the other, and at one virtual address they have
-- different pages with different markers.
pub record IsIsolated (es : List Event) (c : Counters) : Type 0 where
  pub to_second : Recorded (codes "schedule") 0 c.ids.0 1 c.ids.1 es
  pub to_first : Recorded (codes "schedule") 0 c.ids.1 1 c.ids.0 es
  pub mark_a : IsMark c.ids.0 es c.data_a
  pub mark_b : IsMark c.ids.1 es c.data_b
  pub one_address : text_at 1 c.data_a ≡ text_at 1 c.data_b
  pub two_pages : Differ 2 c.data_a c.data_b
  pub two_markers : Differ 3 c.data_a c.data_b

either_true : {a b : Bool} → (a || b) ≡ true → (a ≡ true) ⊎ (b ≡ true)
either_true {a = true} h = inl refl
either_true {a = false} h = inr h

not_refl : (x : Text) → ¬ (not (text_eq x x) ≡ true)
not_refl x h = cc (h, ((text_eq_iff x x).1) refl)

pairs-Among :
    (a b : ℤ) (es : List Event) (ps : List (ℤ × ℤ))
    → pairs es ≡ passed ps
    → switches a b ps ≡ true
    → (e : Event) × Among e es × (int_at 0 e ≡ passed a) × (int_at 1 e ≡ passed b)
unfolding pairs switches
pairs-Among a b [] ps h g = cc (subst (λ x. switches a b x ≡ true) (sym (passed_inj h)) g)
pairs-Among a b (e ∷ es) ps h g =
    let (c, hc, h1) = passed_through (int_at 0 e) _ ps h in
    let (d, hd, h2) = passed_through (int_at 1 e) _ ps h1 in
    let (rest, hr, h3) = passed_through (pairs es) _ ps h2 in
    elim (either_true (subst (λ x. switches a b x ≡ true) (sym (passed_inj h3)) g)) [
      | inl same ↦
          let (x, y) = and_true same in
          (
            e,
            inl refl,
            hc ∙ ap passed (((int_eq_iff c a).0) x),
            hd ∙ ap passed (((int_eq_iff d b).0) y),
          )
      | inr later ↦ let (d', m, x, y) = pairs-Among a b es rest hr later in (d', inr m, x, y)
    ]

last-Among : (d : Event) (es : List Event) → Among (last d es) (d ∷ es)
unfolding last
last-Among d [] = inl refl
last-Among d (e ∷ es) = inr (last-Among e es)

last_mark-Among : (es : List Event) (e : Event) → last_mark es ≡ passed e → Among e es
last_mark-Among [] e h = cc h
last_mark-Among (d ∷ es) e h = subst (λ x. Among x (d ∷ es)) (passed_inj h) (last-Among d es)

marks_of-IsMark :
    (pid : ℤ) (es ms : List Event) (e : Event)
    → marks_of pid es ≡ passed ms
    → last_mark ms ≡ passed e
    → IsMark pid es e
marks_of-IsMark pid es ms e h g =
    let (m, q) = select-Among _ es ms e h (last_mark-Among ms e g) in
    let (b, hb, q1) = passed_through (is_from (codes "data") pid e) _ true q in
    let (yes_, marked) = and_then-true b _ q1 in
    let (kind, of_pid) = is_from-true (codes "data") pid e (hb ∙ ap passed yes_) in
    record { among = m; is_data = kind; of_pid = of_pid; marked = marked }

differ_at-Differ : (i : ℕ) (a b : Event) → differ_at i a b ≡ passed true → Differ i a b
differ_at-Differ i a b h =
    let (x, hx, h1) = passed_through (text_at i a) _ true h in
    let (y, hy, h2) = passed_through (text_at i b) _ true h1 in
    (
      x,
      y,
      hx,
      hy,
      λ same. not_refl x (subst (λ z. not (text_eq x z) ≡ true) (sym same) (passed_inj h2)),
    )

are_apart_fields :
    (a b : Event)
    → are_apart a b ≡ passed true
    → (text_at 1 a ≡ text_at 1 b) × Differ 2 a b × Differ 3 a b
unfolding are_apart
are_apart_fields a b h =
    let (va, ha, h1) = passed_through (text_at 1 a) _ true h in
    let (vb, hb, h2) = passed_through (text_at 1 b) _ true h1 in
    let (same, h3) = and_then-true _ _ h2 in
    let (pages, hp, h4) = passed_through (differ_at 2 a b) _ true h3 in
    let (yes_, h5) = and_then-true _ _ h4 in
    (
      ha ∙ ap passed (((text_eq_iff va vb).0) same) ∙ sym hb,
      differ_at-Differ 2 a b (hp ∙ ap passed yes_),
      differ_at-Differ 3 a b h5,
    )

schedule-Recorded :
    (a b : ℤ) (es ss : List Event) (ps : List (ℤ × ℤ))
    → of_kind (codes "schedule") es ≡ passed ss
    → pairs ss ≡ passed ps
    → switches a b ps ≡ true
    → Recorded (codes "schedule") 0 a 1 b es
schedule-Recorded a b es ss ps h g q =
    let (e, m, x, y) = pairs-Among a b ss ps g q in
    let (n, kept) = select-Among (λ d. passed (is_kind (codes "schedule") d)) es ss e h m in
    (e, n, ((text_eq_iff e.kind (codes "schedule")).0) (passed_inj kept), x, y)

-- The examination of the two counters passes only on this evidence in the records: a switch of the
-- processor from each counter to the other, and a page of each at one virtual address, with
-- different physical addresses and different markers, neither of which is zero.
pub counters-IsIsolated :
    (es : List Event) (c : Counters) → counters es ≡ passed c → IsIsolated es c
unfolding counters
counters-IsIsolated es c h =
    let (spawns, hs, h1) = passed_through (of_kind (codes "spawn") es) _ c h in
    let (created, hi, h2) = passed_through (ints 0 spawns) _ c h1 in
    let (ids, ht, h3) = passed_through (two created) _ c h2 in
    let (schedules, hk, h4) = passed_through (of_kind (codes "schedule") es) _ c h3 in
    let (ps, hp, h5) = passed_through (pairs schedules) _ c h4 in
    let ((u, hu), h6) = passed_next _ _ c h5 in
    let (there, back) = and_true (holds_true _ _ u hu) in
    let (ms, hm, h7) = passed_through (marks_of ids.0 es) _ c h6 in
    let (ns, hn, h8) = passed_through (marks_of ids.1 es) _ c h7 in
    let (a, ha, h9) = passed_through (last_mark ms) _ c h8 in
    let (b, hb, h10) = passed_through (last_mark ns) _ c h9 in
    let (apart, hd, h11) = passed_through (are_apart a b) _ c h10 in
    let ((v, hv), h12) = passed_next _ _ c h11 in
    let (address, pages, markers) =
      are_apart_fields a b (hd ∙ ap passed (holds_true apart _ v hv)) in
    subst (IsIsolated es) (passed_inj h12) record {
      to_second = schedule-Recorded ids.0 ids.1 es schedules ps hk hp there;
      to_first = schedule-Recorded ids.1 ids.0 es schedules ps hk hp back;
      mark_a = marks_of-IsMark ids.0 es ms a hm ha;
      mark_b = marks_of-IsMark ids.1 es ns b hn hb;
      one_address = address;
      two_pages = pages;
      two_markers = markers;
    }
