-- ===== src/Package/Windows/Digests.antt =====
-- The manifest of a Windows package has the digests of the files in it.
use mini_linux.Prelude.{ℕ, ◌≡◌, refl, ap, ◌∙◌, false, inl, inr, List, ◌++◌, Option, none, some}
use mini_linux.Prelude.Text.{Text, codes, text_eq, text_Eq}
use mini_linux.Prelude.Dict
use mini_linux.Prelude.Exec.{Result-cases, Result, ok, err, Exec, resume, resume_last, ◌>>◌}
use mini_linux.Package.{
  Manifest, Content, bytes, text, manifest, Tree, Output, Inputs, copy, copy_web, copy_named,
  tool_file, tools_folder, iso_path, licence_path, manifest_path,
}
use mini_linux.Package.Copies.{Holds, put-Holds, put-other, copy_named-HasFiles, copy_named-other}
use mini_linux.Package.Windows.Texts.{launcher, windows_readme, launcher-encode}
use mini_linux.Package.Windows.{
  windows_tools, extractor_files, extractor_folder, tree_bytes, Extractor, check_output, copy_files,
  describe, write_files, package_windows,
}

-- The tree has a file whose digest this is.
abbrev pub HasDigest : (List ℕ → Text) → Tree → Text → Text → Type 0
HasDigest digest t path sha = (b : List ℕ) × Holds t path (bytes b) × (sha ≡ digest b)

abbrev exe_path : Text
exe_path = codes "runtime/extractor/7z.exe"

abbrev dll_path : Text
dll_path = codes "runtime/extractor/7z.dll"

module _ (digest : List ℕ → Text) (env : Inputs) (ex : Extractor) where
  -- the files of which the manifest names the digest, but for the page's script
  abbrev Loaded : Tree → Type 0
  Loaded t =
      Holds t iso_path (bytes env.iso)
      × ((b : List ℕ) × (ex.file (codes "7z.exe") ≡ ok b) × Holds t exe_path (bytes b))
      × ((b : List ℕ) × (ex.file (codes "7z.dll") ≡ ok b) × Holds t dll_path (bytes b))

  put-Loaded :
      (t : Tree) (path : Text) (c : Content)
      → Loaded t
      → text_eq path iso_path ≡ false
      → text_eq path exe_path ≡ false
      → text_eq path dll_path ≡ false
      → Loaded (Dict.put path c t)
  put-Loaded t path c (i, (b, e, h), (d, f, k)) ni ne nd = (
    put-other t iso_path path (bytes env.iso) c ni i,
    (b, e, put-other t exe_path path (bytes b) c ne h),
    (d, f, put-other t dll_path path (bytes d) c nd k),
  )

  -- the source's archive is not one of the two
  abbrev pub IsApart : Type 0
  IsApart =
      (text_eq (extractor_folder ++ ex.source_name) exe_path ≡ false)
      × (text_eq (extractor_folder ++ ex.source_name) dll_path ≡ false)

  apart_iso : text_eq (extractor_folder ++ ex.source_name) iso_path ≡ false
  apart_iso = refl

  copy_rest : Exec Output Unit
  copy_rest = do
    copy ex.source (extractor_folder ++ ex.source_name)
    copy env.limine_license licence_path

  rest-Loaded :
      (m : Result (Unit {0}) × Output)
      → IsApart
      → (m.0 ≡ ok tt → Loaded m.1.tree)
      → (resume (λ _. copy_rest) m).0 ≡ ok tt
      → Loaded (resume (λ _. copy_rest) m).1.tree
  unfolding copy_rest
  rest-Loaded (err e, o) a h r = cc r
  rest-Loaded (ok _, o) a h r = elim (Result-cases ex.source) [
    | inr (e, bad) ↦ cc (rw bad at r)
    | inl (s, good) ↦
        let t = Dict.put (extractor_folder ++ ex.source_name) (bytes s) o.tree in
        let l : Loaded t = put-Loaded o.tree _ (bytes s) (h refl) apart_iso a.0 a.1 in
        elim (Result-cases env.limine_license) [
          | inr (e, bad) ↦ cc (rw (good, bad) at r)
          | inl (b, fine) ↦ rw (good, fine) (put-Loaded t licence_path (bytes b) l refl refl refl)
        ]
  ]

  copy_files-Loaded :
      (o : Output)
      → IsApart
      → (copy_files digest env ex o).0 ≡ ok tt
      → Loaded (copy_files digest env ex o).1.tree
  unfolding copy_files copy_rest
  copy_files-Loaded o a r =
      let P = λ (o : Output). Loaded o.tree in
      resume_last P _ tt
        (λ o.
          resume_last P _ tt
            (λ o.
              resume_last P _ tt
                (λ o.
                  rest-Loaded
                    (copy_named ex.file extractor_folder extractor_files
                      (record o { tree = Dict.put iso_path (bytes env.iso) o.tree }))
                    a (extracted o))
                (copy_named (tool_file env.project) tools_folder windows_tools o))
            (copy_web env.web o))
        (copy (env.project (codes "docs/USERLAND.md")) (codes "docs/USERLAND.md") o) r
    where
      extracted :
          (o : Output)
          → (copy_named ex.file extractor_folder extractor_files
              (record o { tree = Dict.put iso_path (bytes env.iso) o.tree })).0
            ≡ ok tt
          → Loaded
              (copy_named ex.file extractor_folder extractor_files
                (record o { tree = Dict.put iso_path (bytes env.iso) o.tree })).1.tree
      extracted o h =
          let o' : Output = record o { tree = Dict.put iso_path (bytes env.iso) o.tree } in
          let (exe, (dll, _)) = copy_named-HasFiles ex.file extractor_folder extractor_files o' h in
          (
            copy_named-other ex.file extractor_folder extractor_files iso_path (bytes env.iso) o'
                refl (put-Holds o.tree iso_path (bytes env.iso)),
            exe,
            dll,
          )

  -- What the manifest `m` says of the tree `t`.
  pub record IsDescribed (t : Tree) (m : Manifest) : Type 0 where
    pub written : Holds t manifest_path (manifest m)
    pub source : m.source ≡ env.source
    pub image : Holds t iso_path (bytes env.iso) × (m.iso_sha256 ≡ digest env.iso)
    pub app : (sha : Text) × (m.app_sha256 ≡ some sha) × HasDigest digest t (codes "web/app.js") sha
    pub exe : (sha : Text) × (m.extractor_exe_sha256 ≡ some sha) × HasDigest digest t exe_path sha
    pub dll : (sha : Text) × (m.extractor_dll_sha256 ≡ some sha) × HasDigest digest t dll_path sha

  abbrev Packed : Output → Type 0
  Packed o = (t : Tree) × (m : Manifest) × (o.archive ≡ some t) × IsDescribed t m

  -- the last writes leave a file of another path
  abbrev written : Manifest → Tree → Tree
  written m t =
      Dict.put (codes "READ-ME.txt") (text windows_readme)
        (Dict.put (codes "Start.cmd") (bytes launcher) (Dict.put manifest_path (manifest m) t))

  written-other :
      (m : Manifest) (t : Tree) (path : Text) (c : Content)
      → text_eq (codes "READ-ME.txt") path ≡ false
      → text_eq (codes "Start.cmd") path ≡ false
      → text_eq manifest_path path ≡ false
      → Holds t path c
      → Holds (written m t) path c
  written-other m t path c a b d h =
      put-other _ path (codes "READ-ME.txt") c (text windows_readme) a (
        put-other _ path (codes "Start.cmd") c (bytes launcher) b
          (put-other t path manifest_path c (manifest m) d h))

  tree_bytes-Holds :
      (path : Text) (t : Tree) (f : Option Content) (b : List ℕ)
      → Dict.get path t ≡ f
      → tree_bytes path f ≡ ok b
      → Holds t path (bytes b)
  tree_bytes-Holds path t none b e h = cc h
  tree_bytes-Holds path t (some (bytes d)) b e h = e ∙ ap (λ x. some (bytes x)) (cc h)
  tree_bytes-Holds path t (some (text d)) b e h = cc h
  tree_bytes-Holds path t (some (manifest d)) b e h = cc h

  described :
      (t : Tree) (app : List ℕ)
      → Loaded t
      → Holds t (codes "web/app.js") (bytes app)
      → (exe dll : List ℕ) → ex.file (codes "7z.exe") ≡ ok exe
      → ex.file (codes "7z.dll") ≡ ok dll
      → (m : Manifest)
      → m ≡ record {
        source = env.source;
        iso_sha256 = digest env.iso;
        app_sha256 = some (digest app);
        extractor_exe_sha256 = some (digest exe);
        extractor_dll_sha256 = some (digest dll);
      }
      → IsDescribed (written m t) m
  described t app (i, (b, e, h), (d, f, k)) a exe dll pe pd m eq = record {
    written =
        put-other _ manifest_path (codes "READ-ME.txt") (manifest m) (text windows_readme) refl (
          put-other _ manifest_path (codes "Start.cmd") (manifest m) (bytes launcher) refl
            (put-Holds t manifest_path (manifest m)));
    source = ap (λ (m : Manifest). m.source) eq;
    image = (
      written-other m t iso_path (bytes env.iso) refl refl refl i,
      ap (λ (m : Manifest). m.iso_sha256) eq,
    );
    app = (
      digest app,
      ap (λ (m : Manifest). m.app_sha256) eq,
      (app, written-other m t (codes "web/app.js") (bytes app) refl refl refl a, refl),
    );
    exe = (
      digest exe,
      ap (λ (m : Manifest). m.extractor_exe_sha256) eq,
      (b, written-other m t exe_path (bytes b) refl refl refl h, ap digest (cc (e, pe))),
    );
    dll = (
      digest dll,
      ap (λ (m : Manifest). m.extractor_dll_sha256) eq,
      (d, written-other m t dll_path (bytes d) refl refl refl k, ap digest (cc (f, pd))),
    );
  }

  write_files-Packed :
      (m : Result (Unit {0}) × Output)
      → (m.0 ≡ ok tt → Loaded m.1.tree)
      → (resume (λ _. write_files digest env ex) m).0 ≡ ok tt
      → Packed (resume (λ _. write_files digest env ex) m).1
  unfolding write_files describe
  write_files-Packed (err e, o) l r = cc r
  write_files-Packed (ok _, o) l r =
      elim (Result-cases (tree_bytes (codes "web/app.js") (Dict.get (codes "web/app.js") o.tree))) [
        | inr (e, bad) ↦ cc (rw bad at r)
        | inl (app, a) ↦ elim (Result-cases (ex.file (codes "7z.exe"))) [
          | inr (e, bad) ↦ cc (rw (a, bad) at r)
          | inl (exe, pe) ↦ elim (Result-cases (ex.file (codes "7z.dll"))) [
            | inr (e, bad) ↦ cc (rw (a, pe, bad) at r)
            | inl (dll, pd) ↦
                rw (a, pe, pd, launcher-encode)
                  (
                    _,
                    _,
                    refl,
                    described o.tree app (l refl)
                        (tree_bytes-Holds (codes "web/app.js") o.tree _ app refl a) exe dll pe pd _
                        refl,
                  )
          ]
        ]
      ]

  -- A Windows package that was made has a manifest with the digests of the files that are in it: the
  -- image, the page's script, and the two files of the extractor, whose source must have another name.
  pub package_windows-IsDescribed :
      (o : Output)
      → IsApart
      → (package_windows digest env ex o).0 ≡ ok tt
      → (t : Tree) × (m : Manifest) × ((package_windows digest env ex o).1.archive ≡ some t)
        × IsDescribed t m
  unfolding package_windows
  package_windows-IsDescribed o a r =
      resume_last (λ (o : Output). Packed o) _ tt
        (λ o. write_files-Packed (copy_files digest env ex o) (copy_files-Loaded o a))
        (check_output digest env ex o) r
