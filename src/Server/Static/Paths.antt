-- ===== src/Server/Static/Paths.antt =====
-- Where a request for a file can lead.
use mini_linux.Prelude.{
  ◌≡◌, ◌≢◌, refl, sym, ◌∙◌, Bool, true, false, not, ◌&&◌, List, [], ◌∷◌, ◌++◌, arith, all,
  drop_last, append-nil, append_assoc, drop_last-append_cons, length, drop,
}
use mini_linux.Prelude.Text.{Text, codes, text_eq_iff}
use mini_linux.Server.Static.{is_skipped, is_parent, step_into, resolve, is_relative_to}

-- a name of a file or a folder: not empty, "." or ".."
abbrev pub is_name : Text → Bool
is_name name = not (is_skipped name) && not (is_parent name)

all-append :
    (p : Text → Bool) (xs ys : List Text)
    → all p xs ≡ true
    → all p ys ≡ true
    → all p (xs ++ ys) ≡ true
all-append p [] ys h k = k
all-append p (x ∷ xs) ys h k = ground (arith, all-append p xs ys)

pub all-append_right :
    (p : Text → Bool) (xs ys : List Text) → all p (xs ++ ys) ≡ true → all p ys ≡ true
all-append_right p [] ys h = h
all-append_right p (x ∷ xs) ys h = all-append_right p xs ys (ground arith)

all-drop_last : (p : Text → Bool) (xs : List Text) → all p xs ≡ true → all p (drop_last xs) ≡ true
all-drop_last p [] h = refl
all-drop_last p (x ∷ []) h = refl
all-drop_last p (x ∷ y ∷ xs) h = ground (arith, all-drop_last p (y ∷ xs))

step_into-all :
    (path : List Text) (name : Text)
    → all is_name path ≡ true
    → all is_name (step_into path name) ≡ true
unfolding step_into
step_into-all path name h =
    ground (arith, all-drop_last is_name path, all-append is_name path (name ∷ []))

-- A resolved path has no "..", "." or empty name left.
pub resolve-all :
    (path names : List Text) → all is_name path ≡ true → all is_name (resolve path names) ≡ true
unfolding resolve
resolve-all path [] h = h
resolve-all path (n ∷ names) h = resolve-all (step_into path n) names (step_into-all path n h)

pub is_relative_to-splits :
    (path base : List Text)
    → is_relative_to path base ≡ true
    → path ≡ base ++ drop (length base) path
unfolding is_relative_to
is_relative_to-splits path [] h = refl
is_relative_to-splits [] (b ∷ bs) h = cc
is_relative_to-splits (p ∷ ps) (b ∷ bs) h =
    ground (arith, text_eq_iff p b, is_relative_to-splits ps bs)

pub is_relative_to-append : (base rest : List Text) → is_relative_to (base ++ rest) base ≡ true
unfolding is_relative_to
is_relative_to-append [] rest = refl
is_relative_to-append (b ∷ bs) rest = ground (arith, text_eq_iff b b, is_relative_to-append bs rest)

-- Plain names lead down from the base.
pub resolve_names :
    (path names : List Text) → all is_name names ≡ true → resolve path names ≡ path ++ names
unfolding resolve
resolve_names path [] h = sym (append-nil path)
resolve_names path (n ∷ names) h =
    let down : step_into path n ≡ path ++ n ∷ [] = unfold step_into in ground arith in
    rw down (resolve_names (path ++ n ∷ []) names (ground arith) ∙ append_assoc path (n ∷ []) names)

not_relative :
    (parent : List Text) (web name : Text) (rest : List Text)
    → name ≢ web
    → is_relative_to (parent ++ (name ∷ rest)) (parent ++ web ∷ []) ≡ false
unfolding is_relative_to
not_relative [] web name rest n = ground (arith, text_eq_iff name web)
not_relative (p ∷ parent) web name rest n = ground (arith, not_relative parent web name rest n)

-- Names that climb out of the web folder and into another one lead to a path outside it.
pub resolve_escape :
    (parent : List Text) (web name : Text) (names : List Text)
    → is_name name ≡ true
    → all is_name names ≡ true
    → name ≢ web
    → is_relative_to (resolve (parent ++ web ∷ []) (codes ".." ∷ name ∷ names)) (parent ++ web ∷ [])
      ≡ false
unfolding resolve
resolve_escape parent web name names h k n =
    let up : step_into (parent ++ web ∷ []) (codes "..") ≡ parent =
      unfold step_into in (drop_last-append_cons parent web [] ∙ append-nil parent) in
    rw up (
      rw (resolve_names parent (name ∷ names) (ground arith))
        (not_relative parent web name names n))
