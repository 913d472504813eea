-- ===== src/Witnesses/Package.antt =====
-- The theorems of Package at concrete inputs.
use mini_linux.Prelude.{ℕ, ◌≡◌, ◌≢◌, refl, false, List, [], ◌∷◌, none, some}
use mini_linux.Prelude.Text.{Text, codes, text_Eq}
use mini_linux.Prelude.Dict
use mini_linux.Prelude.Exec.{ok}
use mini_linux.Package.{
  Manifest, bytes, Tree, Output, Inputs, copy_web, copy_named, tool_file, tools_folder, iso_path,
}
use mini_linux.Package.Copies.{HasFiles}
use mini_linux.Server.Entry
use mini_linux.Server.Entry.{check_package, exits, image_differs}
use mini_linux.Package.Linux.{linux_tools, check_inputs, copy_sources, write_scripts, package_linux}
use mini_linux.Package.Linux.Launches.{Looks, package_linux-launches}
use mini_linux.Package.Windows.{
  Extractor, check_output, copy_files, describe, write_files, package_windows,
}
use mini_linux.Package.Windows.Texts.{launcher, launcher_lines}
use mini_linux.Package.Windows.Digests.{IsDescribed, package_windows-IsDescribed}

abbrev no_digest : List ℕ → Text
no_digest b = b

abbrev clean_inputs : Inputs
clean_inputs = record {
  dirty = false;
  has_root = false;
  has_archive = false;
  source = codes "0123abc";
  project = λ path. ok (7 ∷ []);
  web = (codes "app.js", 1 ∷ 2 ∷ []) ∷ (codes "style.css", 3 ∷ []) ∷ [];
  iso = 4 ∷ 5 ∷ [];
  limine_license = ok (6 ∷ []);
}

abbrev extractor : Extractor
extractor = record {
  file = λ name. ok (8 ∷ []);
  source_name = codes "7z-src.7z";
  source = ok (9 ∷ []);
}

abbrev empty_output : Output
empty_output = record { tree = []; archive = none }

linux_made : (package_linux no_digest clean_inputs (ok (7 ∷ [])) empty_output).0 ≡ ok tt
unfolding package_linux check_inputs copy_sources write_scripts copy_web copy_named
linux_made = refl

package_linux-launches_example :
    (t : Tree) × ((package_linux no_digest clean_inputs (ok (7 ∷ [])) empty_output).1.archive
      ≡ some t)
    × HasFiles (tool_file clean_inputs.project) tools_folder linux_tools t
    × ((p : Entry.Package)
        → Looks no_digest clean_inputs (ok (7 ∷ [])) t p
        → check_package p ≡ none)
    × ((b : List ℕ) (p : Entry.Package)
        → b ≢ clean_inputs.iso
        → Looks no_digest clean_inputs (ok (7 ∷ [])) (Dict.put iso_path (bytes b) t) p
        → check_package p ≡ some (exits image_differs))
package_linux-launches_example =
    package_linux-launches no_digest clean_inputs (ok (7 ∷ [])) empty_output linux_made

windows_made : (package_windows no_digest clean_inputs extractor empty_output).0 ≡ ok tt
unfolding package_windows check_output copy_files describe write_files copy_web copy_named Dict.get
    Dict.put launcher launcher_lines
windows_made = refl

package_windows-IsDescribed_example :
    (t : Tree) × (m : Manifest) × ((package_windows no_digest clean_inputs extractor
        empty_output).1.archive
      ≡ some t)
    × IsDescribed no_digest clean_inputs extractor t m
package_windows-IsDescribed_example =
    package_windows-IsDescribed no_digest clean_inputs extractor empty_output (refl, refl)
      windows_made
