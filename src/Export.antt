-- ===== src/Export.antt =====
-- `export` of tools/export-demo.py: the page with a recording, for a host of static files.
pub mod Replacing
pub mod Holding
use mini_linux.Prelude.{
  ℕ, zero, suc, Bool, true, false, ◌&&◌, List, [], ◌∷◌, ◌++◌, Option, none, some, length, drop,
}
use mini_linux.Prelude.Text.{Text, codes, text_eq, text_Eq, starts_with}
use mini_linux.Prelude.Int.{ℤ, pos, int_eq}
use mini_linux.Prelude.Dict
use mini_linux.Prelude.Exec.{
  Exc, bad_value, Result, ok, err, Exec, ◌>>=◌, ◌>>◌, guard, lift, modify, pure,
}
use mini_linux.Package.{Content, bytes, text, Tree, Output, write, copy, copy_named}

-- `data["format"]` and `data["mode"]` of a recording
pub record Demo : Type 0 where
  pub format : ℤ
  pub mode : Text

-- What the script reads: the recording, what `json.loads` makes of it, the files of web/, with the
-- page as a text, and the files of web/assets by their names.
pub record Sources : Type 0 where
  pub recording : Result (List ℕ)
  pub loads : List ℕ → Result Demo
  pub web : Text → Result (List ℕ)
  pub index : Result Text
  pub assets : List (Text × List ℕ)

abbrev pub no_recording : Exc
no_recording = bad_value (codes "Expected a real LAB recording")

abbrev pub page_files : List Text
page_files = codes "app.js" ∷ codes "replay.js" ∷ codes "style.css" ∷ []

-- `text.replace(old, new)`, with `skip` characters of the last hit to pass
unfoldable pub replace_from : Text → Text → ℕ → Text → Text
replace_from old new skip [] = []
replace_from old new (suc skip) (c ∷ cs) = replace_from old new skip cs
replace_from old new zero (c ∷ cs) = elim (starts_with old (c ∷ cs)) [
  | true ↦ new ++ replace_from old new (length (drop 1 old)) cs
  | false ↦ c ∷ replace_from old new 0 cs
]

-- the page with the transport and the title of a replay; — is one code point
unfoldable pub replay_page : Text → Text
replay_page index =
    replace_from (codes "MiniLinux — mechanism laboratory") (codes "MiniLinux — recorded replay") 0
      (replace_from (codes "src=\"live.js\"") (codes "src=\"replay.js\"") 0 index)

-- `shutil.copytree(PROJECT / "web/assets", output / "assets", dirs_exist_ok=True)`
unfoldable pub copy_assets : List (Text × List ℕ) → Exec Output Unit
copy_assets [] = pure tt
copy_assets ((name, b) ∷ files) = do write (codes "assets/" ++ name) (bytes b); copy_assets files

-- `touch`: a file that is there stays as it is
abbrev pub touched : Option Content → Tree → Tree
touched none t = Dict.put (codes ".nojekyll") (bytes []) t
touched (some c) t = t

unfoldable pub touch : Exec Output Unit
touch = modify (λ o. record o { tree = touched (Dict.get (codes ".nojekyll") o.tree) o.tree })

module _ (sources : Sources) where
  -- the recording, when it is one
  unfoldable pub read_recording : Exec Output (List ℕ)
  read_recording = do
    recording ← lift sources.recording
    demo ← lift (sources.loads recording)
    guard (int_eq demo.format (pos 1) && text_eq demo.mode (codes "recorded-replay")) no_recording
    pure recording

  unfoldable pub export : Exec Output Unit
  export = do
    recording ← read_recording
    copy_named sources.web [] page_files
    copy_assets sources.assets
    index ← lift sources.index
    write (codes "index.html") (text (replay_page index))
    write (codes "recording.json") (bytes recording)
    touch
