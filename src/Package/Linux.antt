-- ===== src/Package/Linux.antt =====
-- tools/package-linux.py.
pub mod Texts
pub mod Launches
use mini_linux.Prelude.{
  ℕ, Bool, true, false, not, ◌||◌, List, [], ◌∷◌, ◌++◌, Option, none, some, if◌then◌else◌,
}
use mini_linux.Prelude.Text.{Text, codes, text_eq, text_Eq}
use mini_linux.Prelude.Dict
use mini_linux.Prelude.Exec.{
  Exc, runtime_error, Result, ok, err, Exec, ◌>>=◌, ◌>>◌, guard, lift, modify,
}
use mini_linux.Package.Linux.Texts.{start_script, linux_readme}
use mini_linux.Package.{
  Manifest, Content, bytes, text, manifest, Tree, Output, Inputs, write, copy, copy_web, copy_named,
  tool_file, tools_folder, iso_path, licence_path, manifest_path, pack,
}

abbrev pub linux_tools : List Text
linux_tools =
    codes "qemu_host.py"
    ∷ codes "lab_guest.py"
    ∷ codes "lab-server.py"
    ∷ codes "desktop-launch.py"
    ∷ []

abbrev pub uncommitted : Exc
uncommitted = runtime_error (codes "Commit source changes before packaging")

abbrev pub not_fresh : Exc
not_fresh = runtime_error (codes "Choose a fresh package output directory")

abbrev pub kernel_differs : Exc
kernel_differs =
    runtime_error (codes "ISO kernel differs from the current build; rebuild LAB before packaging")

module _ (digest : List ℕ → Text) (env : Inputs) (iso_kernel : Result (List ℕ)) where
  -- the guards, in their order; the image is closed however they end
  unfoldable pub check_inputs : Exec Output Unit
  check_inputs = do
    guard (not env.dirty) uncommitted
    guard (not (env.has_root || env.has_archive)) not_fresh
    payload ← lift iso_kernel
    kernel ← lift (env.project (codes "build/kernel.elf"))
    guard (text_eq payload kernel) kernel_differs

  abbrev pub linux_manifest : Manifest
  linux_manifest = record {
    source = env.source;
    iso_sha256 = digest env.iso;
    app_sha256 = none;
    extractor_exe_sha256 = none;
    extractor_dll_sha256 = none;
  }

  abbrev pub copy_images : Exec Output Unit
  copy_images = do write iso_path (bytes env.iso); copy env.limine_license licence_path

  unfoldable pub copy_sources : Exec Output Unit
  copy_sources = do
    copy (env.project (codes "docs/USERLAND.md")) (codes "docs/USERLAND.md")
    copy_web env.web
    copy_named (tool_file env.project) tools_folder linux_tools
    copy_images

  -- the files that the script writes itself, and the archive
  unfoldable pub write_scripts : Exec Output Unit
  write_scripts = do
    write manifest_path (manifest linux_manifest)
    write (codes "Start.sh") (text start_script)
    write (codes "READ-ME.txt") (text (linux_readme env.source))
    pack

  unfoldable pub package_linux : Exec Output Unit
  package_linux = do check_inputs; copy_sources; write_scripts
