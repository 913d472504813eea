-- ===== src/Linux/Assets.antt =====
-- `prepare`, `doctor` and `image` of tools/linux.py: the Limine files with pinned digests, and the
-- comparison of an image with its build. `digest` is the text of `sha256`, `member` reads a file of an
-- archive.
pub mod Digests
use mini_linux.Prelude.{
  ℕ, ◌≡◌, Bool, true, false, not, ◌&&◌, List, [], ◌∷◌, ◌++◌, Option, none, some, if◌then◌else◌,
}
use mini_linux.Prelude.Text.{Text, codes, text_eq, text_Eq}
use mini_linux.Prelude.Dict
use mini_linux.Prelude.Dict.{Dict}
use mini_linux.Linux.Build.{file_name}
use mini_linux.Prelude.Exec.{
  Exc, runtime_error, os_error, Result, ok, err, Exec, ◌>>=◌, ◌>>◌, pure, raise, lift, modify, gets,
}

-- LIMINE_SHA256
abbrev pub limine_sha256 : Text
limine_sha256 = codes "04f922a9265d2f02756417254eb746e7687692ff3f42c8a354b8dcfbda9ef571"

-- LIMINE_FILES
abbrev pub limine_files : List (Text × Text)
limine_files =
    (
      codes "limine-bios-cd.bin",
      codes "0a0f509cd2e8b0f7ea4cfca6eac5b88a4ac477cd102cc90fb7e2c21ba80b2a22",
    )
    ∷ (
      codes "limine-bios.sys",
      codes "8e432db7b4721f906c9136b3854d3d9fec7b337d6f6d049c0f2a1ba8ea591507",
    )
    ∷ []

-- the files that `prepare` extracts
abbrev pub asset_names : List Text
asset_names = codes "limine-bios-cd.bin" ∷ codes "limine-bios.sys" ∷ codes "LICENSE" ∷ []

-- the folder limine-12.9.0/limine-binary of the tool root
abbrev pub Assets : Type 0
Assets = Dict Text (List ℕ)

abbrev pub archive_changed : Exc
archive_changed = runtime_error (codes "Limine archive SHA256 differs from the retained M0 version")

-- the message with the name for the path
abbrev pub asset_changed : Text → Exc
asset_changed name = runtime_error (codes "Limine asset changed: " ++ name)

-- the FileNotFoundError of a file that is not there
abbrev pub no_asset : Text → Exc
no_asset name = os_error name

-- `asset.read_bytes()`
abbrev pub asset_bytes : Text → Option (List ℕ) → Result (List ℕ)
asset_bytes name none = err (no_asset name)
asset_bytes name (some bytes) = ok bytes

module _ (digest : List ℕ → Text) (member : List ℕ → Text → Result (List ℕ)) where
  unfoldable pub extract : List ℕ → List Text → Exec Assets Unit
  extract archive [] = pure tt
  extract archive (name ∷ names) = do
    bytes ← lift (member archive name)
    modify (Dict.put name bytes)
    extract archive names

  -- The bytes of the archive or of the download, or what reading them raised.
  unfoldable pub prepare : Result (List ℕ) → Exec Assets Unit
  prepare fetched = do
    archive ← lift fetched
    if text_eq (digest archive) limine_sha256 then pure tt else raise archive_changed
    extract archive asset_names

-- `(assets / name).is_file() and … == digest`
abbrev pub is_pinned : (List ℕ → Text) → Text → Option (List ℕ) → Bool
is_pinned digest expected none = false
is_pinned digest expected (some bytes) = text_eq (digest bytes) expected

abbrev pub all_pinned : (List ℕ → Text) → List (Text × Text) → Assets → Bool
all_pinned digest [] assets = true
all_pinned digest ((name, expected) ∷ files) assets =
    is_pinned digest expected (Dict.get name assets) && all_pinned digest files assets

abbrev is_some : Option (List ℕ) → Bool
is_some none = false
is_some (some bytes) = true

-- the value of `cached` in `setup`
unfoldable pub is_cached : (List ℕ → Text) → Assets → Bool
is_cached digest assets =
    is_some (Dict.get (codes "LICENSE") assets) && all_pinned digest limine_files assets

-- the last loop of `doctor`
unfoldable pub verify_assets : (List ℕ → Text) → List (Text × Text) → Exec Assets Unit
verify_assets digest [] = pure tt
verify_assets digest ((name, expected) ∷ files) = do
  found ← gets (Dict.get name)
  bytes ← lift (asset_bytes name found)
  if text_eq (digest bytes) expected then pure tt else raise (asset_changed name)
  verify_assets digest files

-- What `setup` does about the assets: the flag says that an archive is given.
unfoldable pub setup_assets :
    (List ℕ → Text) → (List ℕ → Text → Result (List ℕ)) → Bool → Result (List ℕ) → Exec Assets Unit
setup_assets digest member given fetched assets =
    if given
    then prepare digest member fetched assets
    else if not (is_cached digest assets)
    then prepare digest member fetched assets
    else (ok tt, assets)

-- The pairs that `image` compares: a path of the image, and the file that it is made of.
abbrev pub payloads : List (Text × Text)
payloads =
    (codes "/boot/kernel.elf", codes "build/kernel.elf")
    ∷ (codes "/limine.conf", codes "boot/limine.conf")
    ∷ (codes "/limine-bios.sys", codes "limine-12.9.0/limine-binary/limine-bios.sys")
    ∷ []

abbrev pub payload_differs : Text → Exc
payload_differs source = runtime_error (codes "ISO payload differs from this build: " ++ source)

pub data ImageStep : Type 0 where
  make open_iso close_iso : ImageStep

abbrev does : ImageStep → Exec (List ImageStep) Unit
does s = modify (λ ss. ss ++ s ∷ [])

abbrev pub compare_bytes :
    Text → Result (List ℕ) → Result (List ℕ) → Result (Unit {0}) → Result (Unit {0})
compare_bytes file (err e) s rest = err e
compare_bytes file (ok payload) (err e) rest = err e
compare_bytes file (ok payload) (ok bytes) rest =
    if text_eq payload bytes then rest else err (payload_differs (file_name file))

module _ (iso : Text → Result (List ℕ)) (source : Text → Result (List ℕ)) where
  unfoldable pub compare : List (Text × Text) → Result (Unit {0})
  compare [] = ok tt
  compare ((path, file) ∷ pairs) = compare_bytes file (iso path) (source file) (compare pairs)

  -- `make_image` returns `made`; the image is closed however the comparison ends.
  unfoldable pub image : Result (Unit {0}) → Exec (List ImageStep) Unit
  image made = do does make; lift made; does open_iso; does close_iso; lift (compare payloads)
