-- ===== src/Hygiene/Residue/Clean.antt =====
-- A run of tools/check-hygiene.py without errors.
use mini_linux.Prelude.{◌≡◌, refl, Bool, true, false, List, [], Bool-cases, inl, inr}
use mini_linux.Prelude.Text.{Text}
use mini_linux.Hygiene.{LinkEnv, check_texts}
use mini_linux.Hygiene.Targets.{AllTexts, check_texts-AllTexts, nil_parts}
use mini_linux.Hygiene.Residue.{
  Folders, folder, none_left, with_folder, is_cache, is_scanned, below, names_errors, walk_errors,
  build_errors, hygiene_errors,
}

-- None of the folders is a cache, nor is one below those that the walk goes into.
abbrev pub NoCache : Folders → Type 0
NoCache none_left = Unit {0}
NoCache (with_folder (folder name linked inner) rest) =
    (is_cache name ≡ false) × (is_scanned name linked ≡ true → NoCache inner) × NoCache rest

walk-NoCache :
    (parent : Text) (fs : Folders)
    → names_errors parent fs ≡ []
    → walk_errors parent fs ≡ []
    → NoCache fs
unfolding names_errors walk_errors
walk-NoCache parent none_left h k = tt
walk-NoCache parent (with_folder (folder name linked inner) rest) h k =
    elim (Bool-cases (is_cache name)) [
      | inl cached ↦ cc (rw cached at h)
      | inr other ↦ elim (Bool-cases (is_scanned name linked)) [
        | inl scanned ↦
            let (own, more) =
              nil_parts (names_errors (below parent name) inner) _ (rw scanned at k) in
            let (deeper, others) = nil_parts (walk_errors (below parent name) inner) _ more in
            (
              other,
              (λ s. walk-NoCache (below parent name) inner own deeper),
              walk-NoCache parent rest (rw other at h) others,
            )
        | inr skipped ↦ (
          other,
          (λ s. cc (s, skipped)),
          walk-NoCache parent rest (rw other at h) (rw skipped at k),
        )
      ]
    ]

no_outputs : (b : Bool) → build_errors b ≡ [] → b ≡ false
no_outputs true h = cc h
no_outputs false h = refl

-- A run without errors has found every local target of the Markdown texts, no output in build, and no
-- cache among the folders that the walk sees.
pub hygiene_errors-NoCache :
    (env : LinkEnv) (texts : List (Text × Text)) (has_outputs : Bool) (top : Folders)
    → hygiene_errors env texts has_outputs top ≡ []
    → AllTexts env texts × (has_outputs ≡ false) × NoCache top
unfolding hygiene_errors
hygiene_errors-NoCache env texts has_outputs top h =
    let (links, rest) = nil_parts (check_texts env texts).1 _ h in
    let (outputs, caches) = nil_parts (build_errors has_outputs) _ rest in
    let (named, walked) = nil_parts (names_errors [] top) _ caches in
    (
      check_texts-AllTexts env texts links,
      no_outputs has_outputs outputs,
      walk-NoCache [] top named walked,
    )
