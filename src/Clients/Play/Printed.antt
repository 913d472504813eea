-- ===== src/Clients/Play/Printed.antt =====
-- What the search for the printed address finds.
use mathlib.Core.Path.{subst}
use mini_linux.Checks.Steps.Passing.{negated}
use mini_linux.Prelude.{
  ==_iff, ℕ, ◌≡◌, refl, sym, ap, ◌∙◌, Bool, true, false, not, ◌&&◌, ◌⊎◌, inl, inr, [], ◌∷◌, ◌++◌,
  Option, none, some, ◌==◌, if◌then◌else◌, length, drop, all, append_assoc, Bool-cases,
}
use mini_linux.Prelude.Text.{Text, codes, text_eq, starts_with, is_digit}
use mini_linux.Checks.Search.{and_true, starts_with-splits}
use mini_linux.Clients.Play.Address.{
  base, titles, port_behind, address_of, titled, or_else, first_of, find_address,
}

-- an address with these digits
abbrev pub address_with : Text → Text
address_with digits = base ++ (digits ++ codes "/")

-- The text has this address somewhere behind one of the titles.
pub record IsPrinted (text address : Text) : Type 0 where
  pub before : Text
  pub title : Text
  pub digits : Text
  pub after : Text
  pub splits : text ≡ before ++ (title ++ (address ++ after))
  pub of_digits : address ≡ address_with digits
  pub are_digits : all is_digit digits ≡ true
  pub some_digit : text_eq digits [] ≡ false
  pub known_title : (title ≡ codes "MiniLinux LAB: ") ⊎ (title ≡ codes "MiniLinux laboratory: ")

all-snoc :
    (p : ℕ → Bool) (cs : Text) (c : ℕ) → all p cs ≡ true → p c ≡ true → all p (cs ++ c ∷ []) ≡ true
all-snoc p [] c h k = rw k
all-snoc p (d ∷ cs) c h k =
    let (one, rest) = and_true {a = p d} {b = all p cs} h in rw (one, all-snoc p cs c rest k)

-- What the search for a port has found.
record IsPort (text digits : Text) : Type 0 where
  after : Text
  splits : text ≡ digits ++ (codes "/" ++ after)
  are_digits : all is_digit digits ≡ true
  some_digit : text_eq digits [] ≡ false

some_inj : {a b : Text} → some a ≡ some b → a ≡ b
some_inj h = cc h

ends-IsPort :
    (digits ds : Text) (c : ℕ) (cs : Text)
    → all is_digit digits ≡ true
    → (if c == b'/' && not (text_eq digits []) then some digits else none) ≡ some ds
    → IsPort (digits ++ c ∷ cs) ds
ends-IsPort digits ds c cs a h = elim (Bool-cases (c == b'/' && not (text_eq digits []))) [
  | inr no_ ↦ cc (rw no_ at h)
  | inl yes_ ↦
      let (slash, some_one) = and_true {a = c == b'/'} {b = not (text_eq digits [])} yes_ in
      subst (IsPort (digits ++ c ∷ cs)) (some_inj (rw yes_ at h)) record {
        after = cs;
        splits = ap (λ x. digits ++ x ∷ cs) (((==_iff c b'/').0) slash);
        are_digits = a;
        some_digit = negated some_one;
      }
]

port_behind-IsPort :
    (digits s ds : Text)
    → all is_digit digits ≡ true
    → port_behind digits s ≡ some ds
    → IsPort (digits ++ s) ds
port_behind-IsPort digits [] ds a h = cc h
port_behind-IsPort digits (c ∷ cs) ds a h = elim (Bool-cases (is_digit c)) [
  | inl yes_ ↦
      subst (λ t. IsPort t ds) (append_assoc digits (c ∷ []) cs)
        (port_behind-IsPort (digits ++ c ∷ []) cs ds (all-snoc is_digit digits c a yes_)
          (rw (port_behind, yes_) at h))
  | inr no_ ↦ ends-IsPort digits ds c cs a (rw (port_behind, no_) at h)
]

addressed :
    (o : Option Text) (a : Text)
    → address_of o ≡ some a
    → (ds : Text) × (o ≡ some ds) × (a ≡ address_with ds)
addressed none a h = cc h
addressed (some ds) a h = (ds, refl, sym (some_inj h))

titled-IsPrinted :
    (title text a : Text)
    → (title ≡ codes "MiniLinux LAB: ") ⊎ (title ≡ codes "MiniLinux laboratory: ")
    → titled title text ≡ some a
    → IsPrinted text a
titled-IsPrinted title text a known h = elim (Bool-cases (starts_with (title ++ base) text)) [
  | inr no_ ↦ cc (rw no_ at h)
  | inl yes_ ↦
      let rest = drop (length (title ++ base)) text in
      let (ds, here, of) = addressed (port_behind [] rest) a (rw yes_ at h) in
      let port = port_behind-IsPort [] rest ds refl here in
      record {
        before = [];
        title = title;
        digits = ds;
        after = port.after;
        splits =
            starts_with-splits (title ++ base) text yes_
            ∙ ap (◌++◌ (title ++ base)) port.splits
            ∙ append_assoc title base (ds ++ (codes "/" ++ port.after))
            ∙ ap (◌++◌ title) (
                sym (
                  append_assoc base (ds ++ codes "/") port.after
                  ∙ ap (◌++◌ base) (append_assoc ds (codes "/") port.after)))
            ∙ ap (λ x. title ++ (x ++ port.after)) (sym of);
        of_digits = of;
        are_digits = port.are_digits;
        some_digit = port.some_digit;
        known_title = known;
      }
]

or_else-cases : (o b : Option Text) (a : Text) → or_else o b ≡ some a → (o ≡ some a) ⊎ (b ≡ some a)
or_else-cases none b a h = inr h
or_else-cases (some t) b a h = inl h

IsPrinted-later : (c : ℕ) (text a : Text) → IsPrinted text a → IsPrinted (c ∷ text) a
IsPrinted-later c text a p = record {
  before = c ∷ p.before;
  title = p.title;
  digits = p.digits;
  after = p.after;
  splits = ap (◌∷◌ c) p.splits;
  of_digits = p.of_digits;
  are_digits = p.are_digits;
  some_digit = p.some_digit;
  known_title = p.known_title;
}

first_of-IsPrinted : (text a : Text) → first_of titles text ≡ some a → IsPrinted text a
first_of-IsPrinted text a h = elim (or_else-cases (titled (codes "MiniLinux LAB: ") text) _ a h) [
  | inl one ↦ titled-IsPrinted (codes "MiniLinux LAB: ") text a (inl refl) one
  | inr more ↦ elim (or_else-cases (titled (codes "MiniLinux laboratory: ") text) none a more) [
    | inl two ↦ titled-IsPrinted (codes "MiniLinux laboratory: ") text a (inr refl) two
    | inr bad ↦ cc bad
  ]
]

-- An address that is found in a log stands in it behind one of the two titles, and is the loopback
-- address with a port of at least one digit.
pub find_address-IsPrinted : (text a : Text) → find_address text ≡ some a → IsPrinted text a
unfolding find_address
find_address-IsPrinted [] a h = cc h
find_address-IsPrinted (c ∷ cs) a h = elim (or_else-cases (first_of titles (c ∷ cs)) _ a h) [
  | inl here ↦ first_of-IsPrinted (c ∷ cs) a here
  | inr later ↦ IsPrinted-later c cs a (find_address-IsPrinted cs a later)
]
