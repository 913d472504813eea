-- ===== src/Witnesses/Hygiene.antt =====
-- The theorems of Hygiene at concrete inputs.
use mini_linux.Prelude.{Bool, false, ◌≡◌, refl, List, [], ◌∷◌, concat}
use mini_linux.Prelude.Text.{Text, codes, split, text_eq, rstrip}
use mini_linux.Hygiene.{
  until, link_behind, links_on, strip_fences, behind_fence, before_title, clean_target, LinkEnv,
  check_targets, check_text, check_texts,
}
use mini_linux.Hygiene.Targets.{AllTexts}
use mini_linux.Hygiene.Residue.{
  Folders, folder, none_left, with_folder, names_errors, walk_errors, hygiene_errors,
}
use mini_linux.Hygiene.Residue.Clean.{NoCache, hygiene_errors-NoCache}

abbrev guide_env : LinkEnv
guide_env = record {
  urlsplit = λ t. record { scheme = []; netloc = []; path = t };
  is_there = λ name path. text_eq path (codes "GUIDE.md");
}

abbrev guide_texts : List (Text × Text)
guide_texts = (codes "README.md", codes "[a](GUIDE.md)\n```\n[b](no.md)\n```\n[c](<GUIDE.md>)") ∷ []

abbrev no_output : Bool
no_output = false

abbrev project_folders : Folders
project_folders =
    with_folder
      (folder (codes ".git") false
        (with_folder (folder (codes "__pycache__") false none_left) none_left))
      (with_folder (folder (codes "tools") false none_left) none_left)

nothing_found : hygiene_errors guide_env guide_texts false project_folders ≡ []
unfolding hygiene_errors names_errors walk_errors check_texts check_text check_targets clean_target
    before_title until link_behind links_on strip_fences behind_fence split rstrip concat
nothing_found = refl

hygiene_errors-NoCache_example :
    AllTexts guide_env guide_texts × (no_output ≡ false) × NoCache project_folders
hygiene_errors-NoCache_example =
    hygiene_errors-NoCache guide_env guide_texts no_output project_folders nothing_found
