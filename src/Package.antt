-- ===== src/Package.antt =====
-- tools/package-linux.py and tools/package-desktop.py: the tree of files that is packed, its manifest,
-- and what both scripts read. `project` reads a file of the repository, `digest` is the text of
-- `sha256`.
pub mod Copies
pub mod Linux
pub mod Windows
use mini_linux.Prelude.{ℕ, Bool, List, [], ◌∷◌, ◌++◌, Option, none, some}
use mini_linux.Prelude.Text.{Text, codes, text_eq, text_Eq}
use mini_linux.Prelude.Dict
use mini_linux.Prelude.Dict.{Dict}
use mini_linux.Prelude.Exec.{Exc, os_error, Result, ok, err, Exec, ◌>>=◌, ◌>>◌, pure, lift, modify}

-- package.json: the digests that only the Windows package has are `none` in the Linux one.
pub record Manifest : Type 0 where
  pub source : Text
  pub iso_sha256 : Text
  pub app_sha256 : Option Text
  pub extractor_exe_sha256 : Option Text
  pub extractor_dll_sha256 : Option Text

-- What a file holds: copied bytes, a text in UTF-8, or the manifest as JSON.
pub data Content : Type 0 where
  bytes : List ℕ → Content
  text : Text → Content
  manifest : Manifest → Content

-- The files below MiniLinux-LAB, by their paths.
abbrev pub Tree : Type 0
Tree = Dict Text Content

-- The output folder: the tree, and what the archive holds once it is written.
pub record Output : Type 0 where
  pub tree : Tree
  pub archive : Option Tree

-- What a script finds: a dirty working tree, a package that is there already, the commit, the files of
-- the repository and of its web folder, and the image with its licence.
pub record Inputs : Type 0 where
  pub dirty : Bool
  pub has_root : Bool
  pub has_archive : Bool
  pub source : Text
  pub project : Text → Result (List ℕ)
  pub web : List (Text × List ℕ)
  pub iso : List ℕ
  pub limine_license : Result (List ℕ)

abbrev pub write : Text → Content → Exec Output Unit
write path c = modify (λ o. record o { tree = Dict.put path c o.tree })

-- `shutil.copy2`
abbrev pub copy : Result (List ℕ) → Text → Exec Output Unit
copy found path = do b ← lift found; write path (bytes b)

-- `shutil.copytree(PROJECT / "web", root / "web")`
unfoldable pub copy_web : List (Text × List ℕ) → Exec Output Unit
copy_web [] = pure tt
copy_web ((name, b) ∷ files) = do write (codes "web/" ++ name) (bytes b); copy_web files

-- `for name in (…): shutil.copy2(… / name, root / prefix / name)`
unfoldable pub copy_named : (Text → Result (List ℕ)) → Text → List Text → Exec Output Unit
copy_named source prefix [] = pure tt
copy_named source prefix (name ∷ names) = do
  copy (source name) (prefix ++ name)
  copy_named source prefix names

-- the files of tools/
abbrev pub tool_file : (Text → Result (List ℕ)) → Text → Result (List ℕ)
tool_file project name = project (codes "tools/" ++ name)

abbrev pub tools_folder : Text
tools_folder = codes "tools/"

abbrev pub iso_path : Text
iso_path = codes "runtime/images/minilinux-lab.iso"

abbrev pub licence_path : Text
licence_path = codes "runtime/images/LIMINE-LICENSE.txt"

abbrev pub manifest_path : Text
manifest_path = codes "package.json"

-- the archive of all files below the root
abbrev pub pack : Exec Output Unit
pack = modify (λ o. record o { archive = some o.tree })

-- What desktop-launch.py makes of the files of a package: whether the image has the digest of the
-- manifest, or that a file is missing.
abbrev pub missing_file : Text → Exc
missing_file path = os_error path

abbrev pub manifest_of : Option Content → Result Manifest
manifest_of (some (manifest m)) = ok m
manifest_of _ = err (missing_file manifest_path)

abbrev pub bytes_of : Option Content → Result (List ℕ)
bytes_of (some (bytes b)) = ok b
bytes_of _ = err (missing_file iso_path)

abbrev pub same_digest : (List ℕ → Text) → Result Manifest → Result (List ℕ) → Result Bool
same_digest digest (err e) b = err e
same_digest digest (ok m) (err e) = err e
same_digest digest (ok m) (ok b) = ok (text_eq (digest b) m.iso_sha256)

unfoldable pub image_matches : (List ℕ → Text) → Tree → Result Bool
image_matches digest t =
    same_digest digest (manifest_of (Dict.get manifest_path t)) (bytes_of (Dict.get iso_path t))
