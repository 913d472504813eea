-- ===== src/Checks/Search.antt =====
-- What a search that passes has found.
use mathlib.Core.Path.{subst}
use mini_linux.Prelude.{
  ℕ, ◌≡◌, refl, sym, ap, ◌∙◌, Bool, true, false, ◌&&◌, ◌⊎◌, inl, inr, List, [], ◌∷◌, ◌++◌, ◌==◌,
  ==_iff, length, drop, none, some, Bool-cases,
}
use mini_linux.Prelude.Text.{Text, text_eq_iff, starts_with}
use mini_linux.Prelude.Int.{ℤ, int_eq, int_eq_iff, int_Eq}
use mini_linux.Prelude.Dict
use mini_linux.Prelude.Dict.{Dict, get-put}
use mini_linux.Guest.{Event}
use mini_linux.Checks.{
  holds, and_then, is_kind, of_kind, is_from, Failure, Verdict, passed, failed, ◌>>=◌, ◌>>◌, int_at,
  add_if, select, exists, table_onto, table,
}

-- `e` is one of the events.
abbrev pub Among : Event → List Event → Type 0
Among e [] = true ≡ false
Among e (d ∷ es) = (e ≡ d) ⊎ Among e es

pub Verdict-cases :
    {A : Type 0} (v : Verdict A) → ((a : A) × (v ≡ passed a)) ⊎ ((e : Failure) × (v ≡ failed e))
Verdict-cases (passed a) = inl (a, refl)
Verdict-cases (failed e) = inr (e, refl)

pub passed_inj : {A : Type 0} {a b : A} → passed a ≡ passed b → a ≡ b
passed_inj h = cc h

pub and_true : {a b : Bool} → (a && b) ≡ true → (a ≡ true) × (b ≡ true)
and_true {a = true} h = (refl, h)
and_true {a = false} h = cc h

-- a text that starts with another one, cut behind it
pub starts_with-splits : (p s : Text) → starts_with p s ≡ true → s ≡ p ++ drop (length p) s
starts_with-splits [] s h = refl
starts_with-splits (c ∷ p) [] h = cc h
starts_with-splits (c ∷ p) (d ∷ s) h =
    let (same, rest) = and_true {a = c == d} {b = starts_with p s} h in
    ap (λ x. x ∷ s) (sym (((==_iff c d).0) same)) ∙ ap (◌∷◌ c) (starts_with-splits p s rest)

-- What a sequence that passes went through.
pub passed_through :
    {A B : Type 0} (v : Verdict A) (f : A → Verdict B) (b : B)
    → (v >>= f) ≡ passed b
    → (a : A) × (v ≡ passed a) × (f a ≡ passed b)
passed_through (passed a) f b h = (a, refl, h)
passed_through (failed e) f b h = cc h

pub passed_next :
    {A B : Type 0} (v : Verdict A) (w : Verdict B) (b : B)
    → (v >> w) ≡ passed b
    → ((a : A) × (v ≡ passed a)) × (w ≡ passed b)
passed_next (passed a) w b h = ((a, refl), h)
passed_next (failed e) w b h = cc h

pub holds_true : (b : Bool) (t : Text) (u : Unit {0}) → holds b t ≡ passed u → b ≡ true
holds_true true t u h = refl
holds_true false t u h = cc h

pub and_then-true :
    (b : Bool) (v : Verdict Bool) → and_then b v ≡ passed true → (b ≡ true) × (v ≡ passed true)
and_then-true true v h = (refl, h)
and_then-true false v h = cc (passed_inj h)

select_add :
    (p : Event → Verdict Bool) (e : Event) (es gs : List Event) (f : Event) (b : Bool)
    → p e ≡ passed b
    → (Among f gs → Among f es × (p f ≡ passed true))
    → Among f (add_if e b gs)
    → Among f (e ∷ es) × (p f ≡ passed true)
select_add p e es gs f true good h (inl q) = (inl q, ap p q ∙ good)
select_add p e es gs f true good h (inr m) = (inr (h m).0, (h m).1)
select_add p e es gs f false good h m = (inr (h m).0, (h m).1)

-- A selected event is one of the events, and the test passed with `true`.
pub select-Among :
    (p : Event → Verdict Bool) (es fs : List Event) (f : Event)
    → select p es ≡ passed fs
    → Among f fs
    → Among f es × (p f ≡ passed true)
unfolding select
select-Among p [] fs f h m = cc (subst (Among f) (passed_inj (sym h)) m)
select-Among p (e ∷ es) fs f h m = elim (Verdict-cases (p e)) [
  | inr (x, bad) ↦ cc (rw bad at h)
  | inl (b, good) ↦ elim (Verdict-cases (select p es)) [
    | inr (x, bad) ↦ cc (rw (good, bad) at h)
    | inl (gs, rest) ↦
        select_add p e es gs f b good (select-Among p es gs f rest)
          (subst (Among f) (sym (passed_inj (rw (good, rest) at h))) m)
  ]
]

pub exists-Among :
    (p : Event → Verdict Bool) (es : List Event)
    → exists p es ≡ passed true
    → (e : Event) × Among e es × (p e ≡ passed true)
unfolding exists
exists-Among p [] h = cc h
exists-Among p (e ∷ es) h = elim (Verdict-cases (p e)) [
  | inr (x, bad) ↦ cc (rw bad at h)
  | inl (b, good) ↦ elim (Bool-cases b) [
    | inl yes_ ↦ (e, inl refl, good ∙ ap passed yes_)
    | inr no_ ↦ let (d, m, q) = exists-Among p es (rw (good, no_) at h) in (d, inr m, q)
  ]
]

-- An event that a table was made of, with this key and value.
abbrev pub MadeOf : ℕ → ℕ → ℤ → ℤ → List Event → Type 0
MadeOf i j k v es = (e : Event) × Among e es × (int_at i e ≡ passed k) × (int_at j e ≡ passed v)

get-put_same : (a b k : ℤ) (d : Dict ℤ ℤ) → int_eq a k ≡ true → Dict.get k (Dict.put a b d) ≡ some b
get-put_same a b k d h = get-put a k b d ∙ (rw h)

get-put_other :
    (a b k : ℤ) (d : Dict ℤ ℤ) → int_eq a k ≡ false → Dict.get k (Dict.put a b d) ≡ Dict.get k d
get-put_other a b k d h = get-put a k b d ∙ (rw h)

empty_get : (k : ℤ) → none ≡ Dict.get {V = ℤ} k []
unfolding Dict.get
empty_get k = refl

some_inj : {a b : ℤ} → some a ≡ some b → a ≡ b
some_inj h = cc h

made_by :
    (i j : ℕ) (k v : ℤ) (d : Dict ℤ ℤ) (a b : ℤ) (e : Event) (es : List Event)
    → int_at i e ≡ passed a
    → int_at j e ≡ passed b
    → Dict.get k (Dict.put a b d) ≡ some v
    → MadeOf i j k v (e ∷ es) ⊎ (Dict.get k d ≡ some v)
made_by i j k v d a b e es pa pb q = elim (Bool-cases (int_eq a k)) [
  | inl same ↦ inl (
    e,
    inl refl,
    pa ∙ ap passed (((int_eq_iff a k).0) same),
    pb ∙ ap passed (some_inj (sym (get-put_same a b k d same) ∙ q)),
  )
  | inr other ↦ inr (sym (get-put_other a b k d other) ∙ q)
]

table_onto-MadeOf :
    (i j : ℕ) (k v : ℤ) (d t : Dict ℤ ℤ) (es : List Event)
    → table_onto i j d es ≡ passed t
    → Dict.get k t ≡ some v
    → MadeOf i j k v es ⊎ (Dict.get k d ≡ some v)
unfolding table_onto
table_onto-MadeOf i j k v d t [] h g = inr (ap (Dict.get k) (cc h) ∙ g)
table_onto-MadeOf i j k v d t (e ∷ es) h g = elim (Verdict-cases (int_at i e)) [
  | inr (x, bad) ↦ cc (rw bad at h)
  | inl (a, pa) ↦ elim (Verdict-cases (int_at j e)) [
    | inr (x, bad) ↦ cc (rw (pa, bad) at h)
    | inl (b, pb) ↦ elim (table_onto-MadeOf i j k v (Dict.put a b d) t es (rw (pa, pb) at h) g) [
      | inl (e', m, q, r) ↦ inl (e', inr m, q, r)
      | inr q ↦ made_by i j k v d a b e es pa pb q
    ]
  ]
]

pub table-MadeOf :
    (i j : ℕ) (k v : ℤ) (t : Dict ℤ ℤ) (es : List Event)
    → table i j es ≡ passed t
    → Dict.get k t ≡ some v
    → MadeOf i j k v es
table-MadeOf i j k v t es h g = elim (table_onto-MadeOf i j k v [] t es h g) [
  | inl m ↦ m
  | inr n ↦ cc (empty_get k ∙ n)
]

-- A record of this kind, with these two fields.
abbrev pub Recorded : Text → ℕ → ℤ → ℕ → ℤ → List Event → Type 0
Recorded kind i k j v es =
    (e : Event) × Among e es × (e.kind ≡ kind) × (int_at i e ≡ passed k) × (int_at j e ≡ passed v)

pub of_kind-Recorded :
    (kind : Text) (i j : ℕ) (k v : ℤ) (t : Dict ℤ ℤ) (es fs : List Event)
    → of_kind kind es ≡ passed fs
    → table i j fs ≡ passed t
    → Dict.get k t ≡ some v
    → Recorded kind i k j v es
of_kind-Recorded kind i j k v t es fs h g q =
    let (e, m, x, y) = table-MadeOf i j k v t fs g q in
    let (n, kept) = select-Among (λ d. passed (is_kind kind d)) es fs e h m in
    (e, n, ((text_eq_iff e.kind kind).0) (passed_inj kept), x, y)

pub is_from-true :
    (kind : Text) (pid : ℤ) (e : Event)
    → is_from kind pid e ≡ passed true
    → (e.kind ≡ kind) × (int_at 0 e ≡ passed pid)
is_from-true kind pid e h =
    let (k, r) = and_then-true (is_kind kind e) _ h in
    let (n, x, y) = passed_through (int_at 0 e) _ true r in
    (((text_eq_iff e.kind kind).0) k, x ∙ ap passed (((int_eq_iff n pid).0) (passed_inj y)))
