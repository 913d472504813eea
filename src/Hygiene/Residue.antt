-- ===== src/Hygiene/Residue.antt =====
-- The second part of `main` of tools/check-hygiene.py: outputs left in build, and caches. A folder
-- below the project has its name, whether it is a link or a reparse point, and its own folders.
pub mod Clean
use mini_linux.Prelude.{ℕ, Bool, true, false, not, ◌&&◌, List, [], ◌∷◌, ◌++◌, if◌then◌else◌}
use mini_linux.Prelude.Text.{Text, codes, text_eq}
use mini_linux.Hygiene.{LinkEnv, check_texts}

mutual
  pub data Folder : Type 0 where
    folder : Text → Bool → Folders → Folder

  pub data Folders : Type 0 where
    none_left : Folders
    with_folder : Folder → Folders → Folders

abbrev pub is_cache : Text → Bool
is_cache name = text_eq name (codes "__pycache__")

-- the walk goes into it
abbrev pub is_scanned : Text → Bool → Bool
is_scanned name linked = not (text_eq name (codes ".git")) && not linked

abbrev pub below : Text → Text → Text
below parent name = parent ++ (name ++ codes "/")

abbrev pub cache_error : Text → Text → Text
cache_error parent name = codes "disposable cache: " ++ (parent ++ name)

-- the errors of one folder's own folders, in their order
unfoldable pub names_errors : Text → Folders → List Text
names_errors parent none_left = []
names_errors parent (with_folder (folder name linked inner) rest) =
    let others = names_errors parent rest in
    if is_cache name then cache_error parent name ∷ others else others

-- the errors of the folders that the walk goes into, each with its own names first
unfoldable pub walk_errors : Text → Folders → List Text
walk_errors parent none_left = []
walk_errors parent (with_folder (folder name linked inner) rest) =
    let own = names_errors (below parent name) inner in
    let deeper = walk_errors (below parent name) inner in
    let others = walk_errors parent rest in
    if is_scanned name linked then own ++ (deeper ++ others) else others

-- `os.walk(PROJECT)`, with the names written out from the project's root
abbrev pub cache_errors : Folders → List Text
cache_errors top = names_errors [] top ++ walk_errors [] top

-- `has_outputs`: build has an entry
abbrev pub build_errors : Bool → List Text
build_errors has_outputs =
    if has_outputs
    then codes "build/ still contains outputs; classify and close them out first" ∷ []
    else []

-- the errors, with which `main` exits if there is one
unfoldable pub hygiene_errors : LinkEnv → List (Text × Text) → Bool → Folders → List Text
hygiene_errors env texts has_outputs top =
    (check_texts env texts).1 ++ (build_errors has_outputs ++ cache_errors top)
