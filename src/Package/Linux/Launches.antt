-- ===== src/Package/Linux/Launches.antt =====
-- A Linux package that was made is one that its own launcher accepts.
use mini_linux.Prelude.{
  ℕ, ◌≡◌, ◌≢◌, refl, true, false, ◌||◌, ◌⊎◌, inl, inr, List, arith, none, some, Bool-cases,
}
use mini_linux.Prelude.Text.{Text, codes, text_eq, text_eq_iff, text_Eq}
use mini_linux.Prelude.Dict
use mini_linux.Prelude.Dict.{get-put}
use mini_linux.Prelude.Exec.{Exc, Result-cases, Result, ok, err, resume, resume_last}
use mini_linux.Package.{
  Content, bytes, text, manifest, Tree, Output, Inputs, copy, copy_web, copy_named, tool_file,
  tools_folder, iso_path, licence_path, manifest_path, image_matches,
}
use mini_linux.Package.Copies.{
  Holds, put-Holds, put-other, HasFiles, copy_named-HasFiles, put-HasFiles,
}
use mini_linux.Package.Linux.Texts.{start_script, linux_readme}
use mini_linux.Server.Entry.{Package, check_package, exits, image_differs}
use mini_linux.Package.Linux.{
  linux_tools, check_inputs, linux_manifest, copy_images, copy_sources, write_scripts,
  package_linux, uncommitted, not_fresh, kernel_differs,
}

module _ (digest : List ℕ → Text) (env : Inputs) (iso_kernel : Result (List ℕ)) where
  -- the guards read, and write nothing
  check_inputs_pure : (o : Output) → (check_inputs digest env iso_kernel o).1 ≡ o
  unfolding check_inputs
  check_inputs_pure o = ground arith

  abbrev Sourced : Tree → Type 0
  Sourced t =
      HasFiles (tool_file env.project) tools_folder linux_tools t × Holds t iso_path (bytes env.iso)

  images-Sourced :
      (m : Result (Unit {0}) × Output)
      → (m.0 ≡ ok tt → HasFiles (tool_file env.project) tools_folder linux_tools m.1.tree)
      → (resume (λ _. copy_images digest env iso_kernel) m).0 ≡ ok tt
      → Sourced (resume (λ _. copy_images digest env iso_kernel) m).1.tree
  images-Sourced (err e, o) h r = cc r
  images-Sourced (ok _, o) h r = elim (Result-cases env.limine_license) [
    | inr (e, bad) ↦ cc (rw bad at r)
    | inl (b, good) ↦
        let t = Dict.put iso_path (bytes env.iso) o.tree in
        rw good (
          put-HasFiles (tool_file env.project) tools_folder linux_tools licence_path (bytes b) t
              (put-HasFiles (tool_file env.project) tools_folder linux_tools iso_path
                (bytes env.iso) o.tree (h refl) refl)
              refl,
          put-other t iso_path licence_path (bytes env.iso) (bytes b) refl
              (put-Holds o.tree iso_path (bytes env.iso)),
        )
  ]

  sources-Sourced :
      (o : Output)
      → (copy_sources digest env iso_kernel o).0 ≡ ok tt
      → Sourced (copy_sources digest env iso_kernel o).1.tree
  unfolding copy_sources
  sources-Sourced o r =
      resume_last (λ (o : Output). Sourced o.tree) _ tt
        (λ o.
          resume_last (λ (o : Output). Sourced o.tree) _ tt
            (λ o.
              images-Sourced (copy_named (tool_file env.project) tools_folder linux_tools o)
                (copy_named-HasFiles (tool_file env.project) tools_folder linux_tools o))
            (copy_web env.web o))
        (copy (env.project (codes "docs/USERLAND.md")) (codes "docs/USERLAND.md") o) r

  -- A package with everything that the launcher reads: the repository's tools, the image, and the
  -- manifest with the image's digest.
  pub record Packed (t : Tree) : Type 0 where
    pub tools : HasFiles (tool_file env.project) tools_folder linux_tools t
    pub image : Holds t iso_path (bytes env.iso)
    pub described : Holds t manifest_path (manifest (linux_manifest digest env iso_kernel))

  write_scripts-Packed :
      (m : Result (Unit {0}) × Output)
      → (m.0 ≡ ok tt → Sourced m.1.tree)
      → (resume (λ _. write_scripts digest env iso_kernel) m).0 ≡ ok tt
      → (t : Tree) × ((resume (λ _. write_scripts digest env iso_kernel) m).1.archive ≡ some t)
        × Packed t
  unfolding write_scripts
  write_scripts-Packed (err e, o) h r = cc r
  write_scripts-Packed (ok _, o) h r =
      let m = manifest (linux_manifest digest env iso_kernel) in
      let t1 = Dict.put manifest_path m o.tree in
      let t2 = Dict.put (codes "Start.sh") (text start_script) t1 in
      let t3 = Dict.put (codes "READ-ME.txt") (text (linux_readme env.source)) t2 in
      let (tools, image) = h refl in
      let kept =
        λ (path : Text) (c : Content) (a : text_eq (codes "Start.sh") path ≡ false)
            (b : text_eq (codes "READ-ME.txt") path ≡ false) (k : Holds t1 path c).
          put-other t2 path (codes "READ-ME.txt") c (text (linux_readme env.source)) b
            (put-other t1 path (codes "Start.sh") c (text start_script) a k) in
      (
        t3,
        refl,
        record {
          tools =
              put-HasFiles (tool_file env.project) tools_folder linux_tools (codes "READ-ME.txt")
                (text (linux_readme env.source)) t2
                (put-HasFiles (tool_file env.project) tools_folder linux_tools (codes "Start.sh")
                  (text start_script) t1
                  (put-HasFiles (tool_file env.project) tools_folder linux_tools manifest_path m
                    o.tree tools refl)
                  refl)
                refl;
          image =
              kept iso_path (bytes env.iso) refl refl
                (put-other o.tree iso_path manifest_path (bytes env.iso) m refl image);
          described = kept manifest_path m refl refl (put-Holds o.tree manifest_path m);
        },
      )

  archive-Packed :
      (o : Output)
      → (package_linux digest env iso_kernel o).0 ≡ ok tt
      → (t : Tree) × ((package_linux digest env iso_kernel o).1.archive ≡ some t) × Packed t
  unfolding package_linux
  archive-Packed o r =
      resume_last (λ (o : Output). (t : Tree) × (o.archive ≡ some t) × Packed t) _ tt
        (λ o. write_scripts-Packed (copy_sources digest env iso_kernel o) (sources-Sourced o))
        (check_inputs digest env iso_kernel o) r

  -- What the launcher finds of a tree with this image: whether its digest is the manifest's.
  image_matches_lem :
      (t : Tree) (b : List ℕ)
      → Holds t iso_path (bytes b)
      → Holds t manifest_path (manifest (linux_manifest digest env iso_kernel))
      → image_matches digest t ≡ ok (text_eq (digest b) (digest env.iso))
  unfolding image_matches
  image_matches_lem t b i m = rw (i, m)

  -- The launcher looks at the files of `t`: a Linux with a Python and a QEMU that serve, and an image
  -- that has the digest of the manifest or not.
  pub record Looks (t : Tree) (p : Package) : Type 0 where
    pub linux : p.is_linux ≡ true
    pub python : p.is_old_python ≡ false
    pub image : image_matches digest t ≡ ok p.is_same_image
    pub qemu : p.qemu ≡ ok tt

  -- A Linux package that was made holds the repository's four tools and an image that its launcher
  -- accepts; with another image of another digest in its place, the launcher exits before it makes a
  -- server, and says that the image differs.
  pub package_linux-launches :
      (o : Output)
      → (package_linux digest env iso_kernel o).0 ≡ ok tt
      → (t : Tree) × ((package_linux digest env iso_kernel o).1.archive ≡ some t)
        × HasFiles (tool_file env.project) tools_folder linux_tools t
        × ((p : Package) → Looks t p → check_package p ≡ none)
        × ((b : List ℕ) (p : Package)
            → digest b ≢ digest env.iso
            → Looks (Dict.put iso_path (bytes b) t) p
            → check_package p ≡ some (exits image_differs))
  unfolding check_package
  package_linux-launches o r =
      let (t, archived, packed) = archive-Packed o r in
      (
        t,
        archived,
        packed.tools,
        λ p l.
            let same : p.is_same_image ≡ true = cc (
              l.image,
              image_matches_lem t env.iso packed.image packed.described,
              (text_eq_iff (digest env.iso) (digest env.iso)).1 refl,
            ) in
            rw (l.linux, l.python, same, l.qemu),
        λ b p other l.
            let differs : text_eq (digest b) (digest env.iso) ≡ false =
              ground (arith, text_eq_iff (digest b) (digest env.iso)) in
            let now =
              image_matches_lem (Dict.put iso_path (bytes b) t) b (put-Holds t iso_path (bytes b)) (
                put-other t manifest_path iso_path (manifest (linux_manifest digest env iso_kernel))
                  (bytes b) refl packed.described) in
            let same : p.is_same_image ≡ false = cc (l.image, now, differs) in
            rw (l.linux, l.python, same),
      )

  -- A working tree with changes, an output that is there already, or an image whose kernel is not the
  -- one that was built: the script raises, and writes nothing.
  pub package_linux_refused :
      (o : Output) (payload kernel : List ℕ)
      → iso_kernel ≡ ok payload
      → env.project (codes "build/kernel.elf") ≡ ok kernel
      → (env.dirty ≡ true) ⊎ (env.has_root ≡ true) ⊎ (env.has_archive ≡ true) ⊎ (payload ≢ kernel)
      → (e : Exc) × (package_linux digest env iso_kernel o ≡ (err e, o))
  unfolding package_linux check_inputs
  package_linux_refused o payload kernel p k x = elim (Bool-cases env.dirty) [
    | inl dirty ↦ (uncommitted, rw dirty)
    | inr clean ↦ elim (Bool-cases (env.has_root || env.has_archive)) [
      | inl old ↦ (not_fresh, rw (clean, old))
      | inr fresh ↦
          let differs : text_eq payload kernel ≡ false =
            ground (arith, text_eq_iff payload kernel) in
          (kernel_differs, rw (clean, fresh, p, k, differs))
    ]
  ]
