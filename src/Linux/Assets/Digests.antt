-- ===== src/Linux/Assets/Digests.antt =====
-- What the digests guard: the files that `prepare` writes, the assets that `doctor` accepts, and the
-- image of a build.
use mini_linux.Prelude.{
  ℕ, ◌≡◌, ◌↔◌, refl, sym, ap, ◌∙◌, true, ◌⊎◌, inl, inr, List, [], ◌∷◌, ◌++◌, some, Option-cases,
  Bool-cases, append_assoc,
}
use mini_linux.Prelude.Text.{Text, text_eq, text_eq_iff, text_Eq}
use mini_linux.Prelude.Dict
use mini_linux.Prelude.Dict.{Dict, get-put}
use mini_linux.Prelude.Exec.{Result-cases, Result, ok, err}
use mini_linux.Linux.Assets.{
  limine_sha256, asset_names, Assets, extract, prepare, all_pinned, verify_assets, payloads,
  compare_bytes, compare, ImageStep, make, open_iso, close_iso, image,
}

-- The file of this name is as it was, or comes from the archive.
abbrev pub IsFrom : (List ℕ → Text → Result (List ℕ)) → List ℕ → Text → Assets → Assets → Type 0
IsFrom member archive k old new =
    (Dict.get k new ≡ Dict.get k old)
    ⊎ ((bytes : List ℕ) × (member archive k ≡ ok bytes) × (Dict.get k new ≡ some bytes))

module _ (digest : List ℕ → Text) (member : List ℕ → Text → Result (List ℕ)) where
  put-IsFrom :
      (archive : List ℕ) (k name : Text) (bytes : List ℕ) (old new : Assets)
      → member archive name ≡ ok bytes
      → IsFrom member archive k (Dict.put name bytes old) new
      → IsFrom member archive k old new
  put-IsFrom archive k name bytes old new m (inr x) = inr x
  put-IsFrom archive k name bytes old new m (inl e) = elim (Bool-cases (text_eq name k)) [
    | inl same ↦
        let here : name ≡ k = (text_eq_iff name k).0 same in
        inr (bytes, ap (member archive) (sym here) ∙ m, e ∙ get-put name k bytes old ∙ rw same)
    | inr other ↦ inl (e ∙ get-put name k bytes old ∙ rw other)
  ]

  extract-IsFrom :
      (archive : List ℕ) (names : List Text) (k : Text) (old : Assets)
      → IsFrom member archive k old (extract digest member archive names old).1
  unfolding extract
  extract-IsFrom archive [] k old = inl refl
  extract-IsFrom archive (name ∷ names) k old = elim (Result-cases (member archive name)) [
    | inr (e, bad) ↦ rw bad (inl refl)
    | inl (bytes, good) ↦ rw good (
        put-IsFrom archive k name bytes old _ good
          (extract-IsFrom archive names k (Dict.put name bytes old)))
  ]

  -- `prepare` writes nothing unless the archive has the pinned digest, also where it raises: each file
  -- of the assets is as it was, or holds what an archive with that digest has under its name.
  pub prepare-pinned :
      (fetched : Result (List ℕ)) (k : Text) (old : Assets)
      → (Dict.get k (prepare digest member fetched old).1 ≡ Dict.get k old)
        ⊎ ((archive : List ℕ) × (fetched ≡ ok archive)
            × (digest archive ≡ limine_sha256)
            × IsFrom member archive k old (prepare digest member fetched old).1)
  unfolding prepare
  prepare-pinned (err e) k old = inl refl
  prepare-pinned (ok archive) k old = elim (Bool-cases (text_eq (digest archive) limine_sha256)) [
    | inr other ↦ rw other (inl refl)
    | inl same ↦ rw same (
        inr (
          archive,
          refl,
          (text_eq_iff (digest archive) limine_sha256).0 same,
          extract-IsFrom archive asset_names k old,
        ))
  ]

-- The loop of `doctor` over the assets changes nothing, and passes exactly if every asset is there
-- with its digest.
pub verify_assets_iff :
    (digest : List ℕ → Text) (files : List (Text × Text)) (assets : Assets)
    → ((verify_assets digest files assets).1 ≡ assets)
      × (((verify_assets digest files assets).0 ≡ ok tt) ↔ (all_pinned digest files assets ≡ true))
unfolding verify_assets
verify_assets_iff digest [] assets = (refl, (λ _. refl, λ _. refl))
verify_assets_iff digest ((name, expected) ∷ files) assets =
    elim (Option-cases (Dict.get name assets)) [
      | inl absent ↦ rw absent (refl, (λ h. cc, λ h. cc))
      | inr (bytes, here) ↦ elim (Bool-cases (text_eq (digest bytes) expected)) [
        | inl same ↦ rw (here, same) (verify_assets_iff digest files assets)
        | inr other ↦ rw (here, other) (refl, (λ h. cc, λ h. cc))
      ]
    ]

-- Every compared path of the image holds the bytes of its file.
abbrev pub AllEqual :
    (Text → Result (List ℕ)) → (Text → Result (List ℕ)) → List (Text × Text) → Type 0
AllEqual iso source [] = Unit
AllEqual iso source ((path, file) ∷ pairs) =
    ((bytes : List ℕ) × (iso path ≡ ok bytes) × (source file ≡ ok bytes))
    × AllEqual iso source pairs

compare_bytes_iff :
    (file : Text) (a b : Result (List ℕ)) (rest : Result (Unit {0}))
    → (compare_bytes file a b rest ≡ ok tt)
      ↔ (((bytes : List ℕ) × (a ≡ ok bytes) × (b ≡ ok bytes)) × (rest ≡ ok tt))
compare_bytes_iff file (err e) b rest = (λ h. cc, λ x. cc (x.0.1))
compare_bytes_iff file (ok p) (err e) rest = (λ h. cc, λ x. cc (x.0.2))
compare_bytes_iff file (ok p) (ok q) rest = elim (Bool-cases (text_eq p q)) [
  | inl same ↦ rw same (λ h. ((p, refl, ap ok (sym ((text_eq_iff p q).0 same))), h), λ x. x.1)
  | inr other ↦
      rw other
        (λ h. cc, λ x. let same : p ≡ q = cc (x.0.1, x.0.2) in cc (other, (text_eq_iff p q).1 same))
]

compare_iff :
    (iso source : Text → Result (List ℕ)) (pairs : List (Text × Text))
    → (compare iso source pairs ≡ ok tt) ↔ AllEqual iso source pairs
unfolding compare
compare_iff iso source [] = (λ _. tt, λ _. refl)
compare_iff iso source ((path, file) ∷ pairs) =
    let step = compare_bytes_iff file (iso path) (source file) (compare iso source pairs) in
    let rest = compare_iff iso source pairs in
    (λ h. ((step.0 h).0, rest.0 (step.0 h).1), λ x. step.1 (x.0, rest.1 x.1))

-- `image` passes exactly if the image was made and each of its three payloads can be read and holds
-- the bytes of its file; an image that was made is opened and closed, whatever the comparison finds.
pub image_lem :
    (iso source : Text → Result (List ℕ)) (made : Result (Unit {0})) (s : List ImageStep)
    → (((image iso source made s).0 ≡ ok tt) ↔ ((made ≡ ok tt) × AllEqual iso source payloads))
      × (made ≡ ok tt → (image iso source made s).1 ≡ s ++ make ∷ open_iso ∷ close_iso ∷ [])
unfolding image
image_lem iso source (err e) s = ((λ h. cc, λ x. cc (x.0)), λ h. cc)
image_lem iso source (ok _) s = (
  (
    λ h. (refl, (compare_iff iso source payloads).0 h),
    λ x. (compare_iff iso source payloads).1 x.1,
  ),
  λ h. simp append_assoc,
)
