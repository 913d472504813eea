-- ===== src/Package/Windows.antt =====
-- tools/package-desktop.py.
pub mod Texts
pub mod Digests
use mini_linux.Prelude.{ℕ, Bool, true, false, not, ◌||◌, List, [], ◌∷◌, ◌++◌, Option, none, some}
use mini_linux.Prelude.Text.{Text, codes, text_Eq}
use mini_linux.Prelude.Dict
use mini_linux.Prelude.Exec.{
  Exc, bad_value, os_error, Result, ok, err, Exec, ◌>>=◌, ◌>>◌, pure, guard, lift, gets, modify,
}
use mini_linux.Guest.Session.{encode}
use mini_linux.Package.{
  Manifest, Content, bytes, text, manifest, Tree, Output, Inputs, write, copy, copy_web, copy_named,
  tool_file, tools_folder, iso_path, licence_path, manifest_path, pack,
}
use mini_linux.Package.Windows.Texts.{launcher, windows_readme}

abbrev pub windows_tools : List Text
windows_tools =
    codes "qemu_host.py"
    ∷ codes "lab_guest.py"
    ∷ codes "lab-server.py"
    ∷ codes "desktop-launch.py"
    ∷ codes "prepare-desktop.ps1"
    ∷ []

abbrev pub extractor_files : List Text
extractor_files = codes "7z.exe" ∷ codes "7z.dll" ∷ codes "License.txt" ∷ []

abbrev pub existing : Exc
existing = bad_value (codes "Choose a fresh output directory; existing packages are preserved")

abbrev pub pending : Exc
pending =
    bad_value (codes "Commit changes before packaging so the manifest names the actual source")

-- a file of the tree, as bytes
abbrev pub tree_bytes : Text → Option Content → Result (List ℕ)
tree_bytes path (some (bytes b)) = ok b
tree_bytes path _ = err (os_error path)

-- The extractor: its files by name, and the archive of its source with its name.
pub record Extractor : Type 0 where
  pub file : Text → Result (List ℕ)
  pub source_name : Text
  pub source : Result (List ℕ)

abbrev pub extractor_folder : Text
extractor_folder = codes "runtime/extractor/"

module _ (digest : List ℕ → Text) (env : Inputs) (ex : Extractor) where
  unfoldable pub check_output : Exec Output Unit
  check_output = do guard (not env.has_root) existing; guard (not env.dirty) pending

  unfoldable pub copy_files : Exec Output Unit
  copy_files = do
    copy (env.project (codes "docs/USERLAND.md")) (codes "docs/USERLAND.md")
    copy_web env.web
    copy_named (tool_file env.project) tools_folder windows_tools
    write iso_path (bytes env.iso)
    copy_named ex.file extractor_folder extractor_files
    copy ex.source (extractor_folder ++ ex.source_name)
    copy env.limine_license licence_path

  -- the dictionary `manifest`, whose values are read in this order
  unfoldable pub describe : Exec Output Manifest
  describe = do
    found ← gets (λ o. Dict.get (codes "web/app.js") o.tree)
    app ← lift (tree_bytes (codes "web/app.js") found)
    exe ← lift (ex.file (codes "7z.exe"))
    dll ← lift (ex.file (codes "7z.dll"))
    pure (record {
      source = env.source;
      iso_sha256 = digest env.iso;
      app_sha256 = some (digest app);
      extractor_exe_sha256 = some (digest exe);
      extractor_dll_sha256 = some (digest dll);
    })

  unfoldable pub write_files : Exec Output Unit
  write_files = do
    m ← describe
    write manifest_path (manifest m)
    script ← lift (encode launcher)
    write (codes "Start.cmd") (bytes script)
    write (codes "READ-ME.txt") (text windows_readme)
    pack

  unfoldable pub package_windows : Exec Output Unit
  package_windows = do check_output; copy_files; write_files
