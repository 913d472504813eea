-- ===== src/Package/Copies.antt =====
-- What the copies of a package leave in its tree.
use mini_linux.Prelude.{
  ℕ, ◌≡◌, refl, sym, ap, ◌∙◌, true, false, inl, inr, List, [], ◌∷◌, ◌++◌, some, Bool-cases,
}
use mini_linux.Prelude.Text.{Text, text_eq, text_eq_iff, text_Eq, starts_with, starts_with-append}
use mini_linux.Prelude.Dict
use mini_linux.Prelude.Dict.{get-put}
use mini_linux.Prelude.Exec.{Result-cases, Result, ok}
use mini_linux.Package.{Content, bytes, Tree, Output, copy_named}

-- A tree that holds this content under this path.
abbrev pub Holds : Tree → Text → Content → Type 0
Holds t path c = Dict.get path t ≡ some c

pub put-Holds : (t : Tree) (path : Text) (c : Content) → Holds (Dict.put path c t) path c
put-Holds t path c = get-put path path c t ∙ rw (unfold_refl path)
  where
    unfold_refl : (p : Text) → text_eq p p ≡ true
    unfold_refl p = (text_eq_iff p p).1 refl

-- An overwrite with the same content, or another path, changes nothing at a path.
pub put-keeps :
    (t : Tree) (path other : Text) (c d : Content)
    → (other ≡ path → d ≡ c)
    → Holds t path c
    → Holds (Dict.put other d t) path c
put-keeps t path other c d same h = elim (Bool-cases (text_eq other path)) [
  | inl e ↦ get-put other path d t ∙ rw e (ap some (same ((text_eq_iff other path).0 e)))
  | inr e ↦ get-put other path d t ∙ rw e h
]

pub put-other :
    (t : Tree) (path other : Text) (c d : Content)
    → text_eq other path ≡ false
    → Holds t path c
    → Holds (Dict.put other d t) path c
put-other t path other c d differ h = get-put other path d t ∙ rw differ h

append-cancel : (p a b : Text) → p ++ a ≡ p ++ b → a ≡ b
append-cancel [] a b e = e
append-cancel (c ∷ p) a b e = append-cancel p a b (cc e)

module _ (source : Text → Result (List ℕ)) (prefix : Text) where
  -- The tree has the source's file of every name, below the prefix.
  abbrev pub HasFiles : List Text → Tree → Type 0
  HasFiles [] t = Unit
  HasFiles (n ∷ ns) t =
      ((b : List ℕ) × (source n ≡ ok b) × Holds t (prefix ++ n) (bytes b)) × HasFiles ns t

  copy_named-keeps :
      (names : List Text) (n : Text) (b : List ℕ) (o : Output)
      → source n ≡ ok b
      → Holds o.tree (prefix ++ n) (bytes b)
      → Holds (copy_named source prefix names o).1.tree (prefix ++ n) (bytes b)
  unfolding copy_named
  copy_named-keeps [] n b o p h = h
  copy_named-keeps (m ∷ ms) n b o p h = elim (Result-cases (source m)) [
    | inr (e, bad) ↦ rw bad h
    | inl (d, good) ↦ rw good (
        copy_named-keeps ms n b (record o { tree = Dict.put (prefix ++ m) (bytes d) o.tree }) p
          (put-keeps o.tree (prefix ++ n) (prefix ++ m) (bytes b) (bytes d)
            (λ e. ap bytes (ok_injective (sym good ∙ ap source (append-cancel prefix m n e) ∙ p)))
            h))
  ]
    where
      ok_injective : {x y : List ℕ} → ◌≡◌ {A = Result (List ℕ)} (ok x) (ok y) → x ≡ y
      ok_injective e = cc e

  -- If the copies return, then the tree has every file.
  pub copy_named-HasFiles :
      (names : List Text) (o : Output)
      → (copy_named source prefix names o).0 ≡ ok tt
      → HasFiles names (copy_named source prefix names o).1.tree
  unfolding copy_named
  copy_named-HasFiles [] o h = tt
  copy_named-HasFiles (m ∷ ms) o h = elim (Result-cases (source m)) [
    | inr (e, bad) ↦ cc (rw bad at h)
    | inl (d, good) ↦
        let o' : Output = record o { tree = Dict.put (prefix ++ m) (bytes d) o.tree } in
        rw good (
          (d, refl, copy_named-keeps ms m d o' good (put-Holds o.tree (prefix ++ m) (bytes d))),
          copy_named-HasFiles ms o' (rw good at h),
        )
  ]

  -- A file outside the prefix does not change what the tree has below it.
  pub put-HasFiles :
      (names : List Text) (path : Text) (c : Content) (t : Tree)
      → HasFiles names t
      → starts_with prefix path ≡ false
      → HasFiles names (Dict.put path c t)
  put-HasFiles [] path c t h other = tt
  put-HasFiles (n ∷ ns) path c t ((b, p, h), hs) other = (
    (
      b,
      p,
      put-keeps t (prefix ++ n) path (bytes b) c
          (λ e. cc (other, ap (starts_with prefix) e, starts_with-append prefix n)) h,
    ),
    put-HasFiles ns path c t hs other,
  )

  -- The copies do not change a file outside the prefix.
  pub copy_named-other :
      (names : List Text) (path : Text) (c : Content) (o : Output)
      → starts_with prefix path ≡ false
      → Holds o.tree path c
      → Holds (copy_named source prefix names o).1.tree path c
  unfolding copy_named
  copy_named-other [] path c o out h = h
  copy_named-other (m ∷ ms) path c o out h = elim (Result-cases (source m)) [
    | inr (e, bad) ↦ rw bad h
    | inl (d, good) ↦ rw good (
        copy_named-other ms path c (record o { tree = Dict.put (prefix ++ m) (bytes d) o.tree }) out
          (put-keeps o.tree path (prefix ++ m) c (bytes d)
            (λ e. cc (out, ap (starts_with prefix) e, starts_with-append prefix m)) h))
  ]
