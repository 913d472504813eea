-- ===== src/Linux/Setup/Ready.antt =====
-- A setup that passes leaves assets that `doctor` accepts.
use mini_linux.Prelude.{
  ℕ, ◌≡◌, refl, ap, ◌∙◌, Bool, true, false, ◌&&◌, inl, inr, List, none, some, Bool-cases,
}
use mini_linux.Prelude.Text.{Text, codes, text_eq, text_eq_iff, text_Eq}
use mini_linux.Prelude.Dict
use mini_linux.Prelude.Dict.{Dict, get-put}
use mini_linux.Prelude.Exec.{Result-cases, Result, ok, err, resume_last, resume}
use mini_linux.Linux.Assets.{
  Assets, limine_files, limine_sha256, asset_names, extract, prepare, all_pinned, is_cached,
  setup_assets,
}
use mini_linux.Linux.Assets.Digests.{verify_assets_iff}
use mini_linux.Linux.Setup.{
  ToolCall, show_tools, check_pycdlib, SetupEnv, HostState, does_call, run_doctor, make_environment,
  setup, on_assets, doctor,
}

-- In an archive with the pinned digest, the two files have their pinned digests.
abbrev pub IsPinnedArchive : (List ℕ → Text) → (List ℕ → Text → Result (List ℕ)) → List ℕ → Type 0
IsPinnedArchive digest member archive =
    digest archive ≡ limine_sha256
    → (name sha : Text) (bytes : List ℕ) → Dict.get name limine_files ≡ some sha
    → member archive name ≡ ok bytes
    → digest bytes ≡ sha

abbrev pub cd_image : Text
cd_image = codes "limine-bios-cd.bin"

abbrev pub sys_image : Text
sys_image = codes "limine-bios.sys"

abbrev pub cd_sha : Text
cd_sha = codes "0a0f509cd2e8b0f7ea4cfca6eac5b88a4ac477cd102cc90fb7e2c21ba80b2a22"

abbrev pub sys_sha : Text
sys_sha = codes "8e432db7b4721f906c9136b3854d3d9fec7b337d6f6d049c0f2a1ba8ea591507"

cd_listed : Dict.get cd_image limine_files ≡ some cd_sha
unfolding Dict.get
cd_listed = refl

sys_listed : Dict.get sys_image limine_files ≡ some sys_sha
unfolding Dict.get
sys_listed = refl

and_right : (a : Bool) {b : Bool} → (a && b) ≡ true → b ≡ true
and_right true h = h
and_right false h = cc h

module _ (digest : List ℕ → Text) (member : List ℕ → Text → Result (List ℕ)) where
  -- the two files and the licence, written over any assets
  written_pinned :
      (old : Assets) (a b c : List ℕ)
      → digest a ≡ cd_sha
      → digest b ≡ sys_sha
      → all_pinned digest limine_files
          (Dict.put (codes "LICENSE") c (Dict.put sys_image b (Dict.put cd_image a old)))
        ≡ true
  written_pinned old a b c da db =
      let t1 = Dict.put cd_image a old in
      let t2 = Dict.put sys_image b t1 in
      let cd : Dict.get cd_image (Dict.put (codes "LICENSE") c t2) ≡ some a =
        get-put (codes "LICENSE") cd_image c t2
        ∙ get-put sys_image cd_image b t1
        ∙ get-put cd_image cd_image a old in
      let sys : Dict.get sys_image (Dict.put (codes "LICENSE") c t2) ≡ some b =
        get-put (codes "LICENSE") sys_image c t2 ∙ get-put sys_image sys_image b t1 in
      rw (cd, sys, da, db) refl

  -- an extraction that passes leaves the two files as the archive has them
  extract-pinned :
      (archive : List ℕ) (old : Assets)
      → ((name sha : Text) (bytes : List ℕ)
          → Dict.get name limine_files ≡ some sha
          → member archive name ≡ ok bytes
          → digest bytes ≡ sha)
      → (extract digest member archive asset_names old).0 ≡ ok tt
      → all_pinned digest limine_files (extract digest member archive asset_names old).1 ≡ true
  unfolding extract
  extract-pinned archive old pinned h = elim (Result-cases (member archive cd_image)) [
    | inr (e, bad) ↦ cc (rw bad at h)
    | inl (a, ga) ↦ elim (Result-cases (member archive sys_image)) [
      | inr (e, bad) ↦ cc (rw (ga, bad) at h)
      | inl (b, gb) ↦ elim (Result-cases (member archive (codes "LICENSE"))) [
        | inr (e, bad) ↦ cc (rw (ga, gb, bad) at h)
        | inl (c, gc) ↦
            rw (ga, gb, gc)
              (written_pinned old a b c (pinned cd_image cd_sha a cd_listed ga)
                (pinned sys_image sys_sha b sys_listed gb))
      ]
    ]
  ]

  prepare-accepted :
      (fetched : Result (List ℕ)) (old : Assets)
      → ((archive : List ℕ) → fetched ≡ ok archive → IsPinnedArchive digest member archive)
      → (prepare digest member fetched old).0 ≡ ok tt
      → all_pinned digest limine_files (prepare digest member fetched old).1 ≡ true
  unfolding prepare
  prepare-accepted (err e) old p h = cc h
  prepare-accepted (ok archive) old p h =
      elim (Bool-cases (text_eq (digest archive) limine_sha256)) [
        | inr other ↦ cc (rw other at h)
        | inl same ↦ rw same (
            extract-pinned archive old
              (p archive refl ((text_eq_iff (digest archive) limine_sha256).0 same)) (rw same at h))
      ]

  cached_pinned :
      (old : Assets) → is_cached digest old ≡ true → all_pinned digest limine_files old ≡ true
  unfolding is_cached
  cached_pinned old h = and_right _ h

  setup_assets-accepted :
      (given : Bool) (fetched : Result (List ℕ)) (old : Assets)
      → ((archive : List ℕ) → fetched ≡ ok archive → IsPinnedArchive digest member archive)
      → (setup_assets digest member given fetched old).0 ≡ ok tt
      → all_pinned digest limine_files (setup_assets digest member given fetched old).1 ≡ true
  unfolding setup_assets
  setup_assets-accepted true fetched old p h = prepare-accepted fetched old p h
  setup_assets-accepted false fetched old p h = elim (Bool-cases (is_cached digest old)) [
    | inr absent_ ↦ rw absent_ (prepare-accepted fetched old p (rw absent_ at h))
    | inl cached ↦ rw cached (cached_pinned old cached)
  ]

module _ (env : SetupEnv) where
  call_returns :
      (c : ToolCall) (h : HostState)
      → env.fails c ≡ none
      → ((does_call env c h).0 ≡ ok tt) × ((does_call env c h).1.assets ≡ h.assets)
  unfolding does_call
  call_returns c h q = rw q (refl, refl)

  after_assets :
      (r : Result (Unit {0})) (t : HostState)
      → (resume (λ _. does_call env run_doctor) (r, t)).0 ≡ ok tt
      → (r ≡ ok tt) × ((resume (λ _. does_call env run_doctor) (r, t)).1.assets ≡ t.assets)
  unfolding does_call
  after_assets (ok _) t h = (refl, refl)
  after_assets (err e) t h = cc h

  abbrev HasPinned : HostState → Type 0
  HasPinned h = all_pinned env.digest limine_files h.assets ≡ true

  setup-pinned :
      (h : HostState)
      → ((archive : List ℕ)
          → env.fetched ≡ ok archive
          → IsPinnedArchive env.digest env.member archive)
      → (setup env h).0 ≡ ok tt
      → HasPinned (setup env h).1
  unfolding setup
  setup-pinned h p r =
      resume_last HasPinned _ tt
        (λ s e.
          let (passed, same) =
            after_assets _
              (on_assets env (setup_assets env.digest env.member env.given env.fetched) s).1 e in
          ap (all_pinned env.digest limine_files) same
          ∙ setup_assets-accepted env.digest env.member env.given env.fetched s.assets p passed)
        (make_environment env h) r

  doctor_accepts :
      (h : HostState)
      → ((c : ToolCall) → env.fails c ≡ none)
      → env.pycdlib ≡ ok (codes "1.20.0")
      → HasPinned h
      → (doctor env h).0 ≡ ok tt
  unfolding doctor show_tools does_call check_pycdlib
  doctor_accepts h q v p = simp (q, v, (verify_assets_iff env.digest limine_files h.assets).1.1 p)

-- After a setup that passes, `doctor` passes too, with the digest of the setup, in a host where its
-- calls return and pycdlib 1.20.0 is installed: the Limine files that the setup kept or extracted are
-- the pinned ones. The archive, if it was read, is one whose pinned digest pins the two files in it.
pub setup-doctor :
    (env later : SetupEnv) (h : HostState)
    → ((archive : List ℕ)
        → env.fetched ≡ ok archive
        → IsPinnedArchive env.digest env.member archive)
    → (setup env h).0 ≡ ok tt
    → later.digest ≡ env.digest
    → ((c : ToolCall) → later.fails c ≡ none)
    → later.pycdlib ≡ ok (codes "1.20.0")
    → (doctor later (setup env h).1).0 ≡ ok tt
setup-doctor env later h p r d q v = doctor_accepts later (setup env h).1 q v (
    ap (λ digest. all_pinned digest limine_files (setup env h).1.assets) d ∙ setup-pinned env h p r)
