-- ===== src/Server/Static.antt =====
-- The files of `Handler.do_GET`: `(WEB / relative).resolve()` and `is_relative_to`, on paths as lists
-- of names from the root. There are no symbolic links below WEB.
pub mod Paths
use mini_linux.Prelude.{
  ℕ, Bool, true, false, not, ◌&&◌, ◌||◌, List, [], ◌∷◌, ◌++◌, ◌==◌, if◌then◌else◌, drop_last,
}
use mini_linux.Prelude.Text.{Text, codes, text_eq, split, drop_while}

abbrev pub is_skipped : Text → Bool
is_skipped name = text_eq name [] || text_eq name (codes ".")

abbrev pub is_parent : Text → Bool
is_parent name = text_eq name (codes "..")

pub step_into : List Text → Text → List Text
step_into path name =
    if is_skipped name then path else if is_parent name then drop_last path else path ++ name ∷ []

-- `(base / relative).resolve()`
unfoldable pub resolve : List Text → List Text → List Text
unfolding step_into
resolve path [] = path
resolve path (name ∷ names) = resolve (step_into path name) names

-- `path.is_relative_to(base)`
unfoldable pub is_relative_to : List Text → List Text → Bool
is_relative_to path [] = true
is_relative_to [] (b ∷ bs) = false
is_relative_to (p ∷ ps) (b ∷ bs) = text_eq p b && is_relative_to ps bs

-- `"index.html" if url.path == "/" else url.path.lstrip("/")`
abbrev pub relative : Text → Text
relative path =
    if text_eq path (codes "/") then codes "index.html" else drop_while (λ c. c == b'/') path

unfoldable pub static_path : List Text → Text → List Text
static_path web path = resolve web (split b'/' (relative path))
