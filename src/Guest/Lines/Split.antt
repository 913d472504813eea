-- ===== src/Guest/Lines/Split.antt =====
-- Cutting a stream into lines does not depend on the chunks in which it arrives.
use mini_linux.Prelude.{
  ℕ, ◌≡◌, refl, sym, ap, ◌∙◌, Bool, true, false, List, [], ◌∷◌, ◌++◌, arith, ◌==◌, if◌then◌else◌,
  Bool-cases, inl, inr, append_assoc, all, ◌&&◌,
}
use mini_linux.Prelude.Text.{Text}
use mini_linux.Guest.Lines.{newline, add_front, cut}

-- The stream that a list of complete lines and an unfinished one stand for.
abbrev pub stream : List Text → Text → Text
stream [] rest = rest
stream (l ∷ ls) rest = l ++ (newline ∷ stream ls rest)

-- no newline in it
abbrev pub is_line : Text → Bool
is_line [] = true
is_line (c ∷ cs) = (if c == newline then false else true) && is_line cs

add_front-stream :
    (c : ℕ) (p : List Text × Text) → stream (add_front c p).0 (add_front c p).1 ≡ c ∷ stream p.0 p.1
add_front-stream c ([], rest) = refl
add_front-stream c (l ∷ ls, rest) = refl

-- Nothing is lost: the lines and what is left make up the buffer.
pub stream-cut : (s : Text) → stream (cut s).0 (cut s).1 ≡ s
unfolding cut
stream-cut [] = refl
stream-cut (c ∷ cs) = elim (Bool-cases (c == newline)) [
  | inl e ↦ rw e (ground (arith, stream-cut cs))
  | inr e ↦ rw e (add_front-stream c (cut cs) ∙ ap (◌∷◌ c) (stream-cut cs))
]

add_front-is_line :
    (c : ℕ) (p : List Text × Text)
    → (c == newline) ≡ false
    → all is_line p.0 ≡ true
    → is_line p.1 ≡ true
    → (all is_line (add_front c p).0 ≡ true) × (is_line (add_front c p).1 ≡ true)
add_front-is_line c ([], rest) e h k = ground arith
add_front-is_line c (l ∷ ls, rest) e h k = ground arith

-- No line and no rest holds a newline.
pub cut-is_line : (s : Text) → (all is_line (cut s).0 ≡ true) × (is_line (cut s).1 ≡ true)
unfolding cut
cut-is_line [] = (refl, refl)
cut-is_line (c ∷ cs) = elim (Bool-cases (c == newline)) [
  | inl e ↦ rw e (cut-is_line cs)
  | inr e ↦ rw e (add_front-is_line c (cut cs) e (cut-is_line cs).0 (cut-is_line cs).1)
]

cut_line : (l s : Text) → is_line l ≡ true → cut (l ++ (newline ∷ s)) ≡ (l ∷ (cut s).0, (cut s).1)
unfolding cut
cut_line [] s h = refl
cut_line (c ∷ l) s h = elim (Bool-cases (c == newline)) [
  | inl e ↦ ground arith
  | inr e ↦ rw e (ap (add_front c) (cut_line l s (ground arith)))
]

pub cut_rest : (s : Text) → is_line s ≡ true → cut s ≡ ([], s)
unfolding cut
cut_rest [] h = refl
cut_rest (c ∷ s) h = elim (Bool-cases (c == newline)) [
  | inl e ↦ ground arith
  | inr e ↦ rw e (ap (add_front c) (cut_rest s (ground arith)))
]

-- `cut` finds any lines that are written out with a newline behind each.
pub cut-stream :
    (ls : List Text) (rest : Text)
    → all is_line ls ≡ true
    → is_line rest ≡ true
    → cut (stream ls rest) ≡ (ls, rest)
cut-stream [] rest h k = cut_rest rest k
cut-stream (l ∷ ls) rest h k =
    let tail = cut-stream ls rest (ground arith) k in
    cut_line l (stream ls rest) (ground arith) ∙ ap (λ (p : List Text × Text). (l ∷ p.0, p.1)) tail

abbrev join_cut : List Text → List Text × Text → List Text × Text
join_cut ls p = (ls ++ p.0, p.1)

cut-stream-append :
    (ls : List Text) (rest t : Text)
    → all is_line ls ≡ true
    → cut (stream ls rest ++ t) ≡ join_cut ls (cut (rest ++ t))
cut-stream-append [] rest t h = refl
cut-stream-append (l ∷ ls) rest t h =
    ap cut (append_assoc l (newline ∷ stream ls rest) t)
    ∙ cut_line l (stream ls rest ++ t) (ground arith)
    ∙ ap (λ (p : List Text × Text). (l ∷ p.0, p.1)) (cut-stream-append ls rest t (ground arith))

-- A buffer that is cut before more text arrives gives the same lines, in the same order.
pub cut-append :
    (s t : Text) → cut (s ++ t) ≡ ((cut s).0 ++ (cut ((cut s).1 ++ t)).0, (cut ((cut s).1 ++ t)).1)
cut-append s t =
    ap (λ u. cut (u ++ t)) (sym (stream-cut s))
    ∙ cut-stream-append (cut s).0 (cut s).1 t (cut-is_line s).0
