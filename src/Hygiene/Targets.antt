-- ===== src/Hygiene/Targets.antt =====
-- A check without errors has found every local target.
use mini_linux.Prelude.{◌≡◌, refl, true, List, [], ◌∷◌, ◌++◌, Bool-cases, inl, inr, map, concat}
use mini_linux.Prelude.Text.{Text}
use mini_linux.Hygiene.{
  text_lines, links, clean_target, is_local, LinkEnv, check_targets, check_text, check_texts,
}

pub nil_parts : (xs ys : List Text) → xs ++ ys ≡ [] → (xs ≡ []) × (ys ≡ [])
nil_parts [] ys h = (refl, h)
nil_parts (x ∷ xs) ys h = cc h

module _ (env : LinkEnv) where
  -- Each local target of the text is a file or a folder.
  abbrev pub AllThere : Text → List Text → Type 0
  AllThere name [] = Unit {0}
  AllThere name (t ∷ ts) =
      (is_local (env.urlsplit (clean_target t)) ≡ true
        → env.is_there name (env.urlsplit (clean_target t)).path ≡ true)
      × AllThere name ts

  abbrev pub AllTexts : List (Text × Text) → Type 0
  AllTexts [] = Unit {0}
  AllTexts ((name, text) ∷ files) =
      AllThere name (concat (map links (text_lines text))) × AllTexts files

  check_targets-AllThere :
      (name : Text) (ts : List Text) → (check_targets env name ts).1 ≡ [] → AllThere name ts
  unfolding check_targets
  check_targets-AllThere name [] h = tt
  check_targets-AllThere name (t ∷ ts) h =
      let u = env.urlsplit (clean_target t) in
      elim (Bool-cases (is_local u)) [
        | inr other ↦ ((λ l. cc (l, other)), check_targets-AllThere name ts (rw other at h))
        | inl here ↦ elim (Bool-cases (env.is_there name u.path)) [
          | inl there ↦ ((λ l. there), check_targets-AllThere name ts (rw (here, there) at h))
          | inr absent_ ↦ cc (rw (here, absent_) at h)
        ]
      ]

  -- When the links of all texts are checked without an error, each local target of each text, outside
  -- the fenced blocks, is a file or a folder.
  pub check_texts-AllTexts :
      (files : List (Text × Text)) → (check_texts env files).1 ≡ [] → AllTexts files
  unfolding check_texts check_text
  check_texts-AllTexts [] h = tt
  check_texts-AllTexts ((name, text) ∷ files) h =
      let (first, rest) = nil_parts (check_text env name text).1 (check_texts env files).1 h in
      (
        check_targets-AllThere name (concat (map links (text_lines text))) first,
        check_texts-AllTexts files rest,
      )
