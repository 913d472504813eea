-- ===== src/Linux/Media/Payload.antt =====
-- The comparison of `image` accepts what tools/make-image.py makes.
use mini_linux.Prelude.{ℕ, ◌≡◌, sym, ap, ◌∙◌, List, [], ◌∷◌, ◌++◌, append-nil, Option}
use mini_linux.Prelude.Text.{Text, codes}
use mini_linux.Prelude.Exec.{Exc, Result, ok}
use mini_linux.Linux.Steps.{call, flat, Follows, call-Follows, each-Follows, then-Follows}
use mini_linux.Linux.Assets.{payloads, image, ImageStep}
use mini_linux.Linux.Assets.Digests.{AllEqual, image_lem}
use mini_linux.Linux.Media.{
  ImageFile, boot_loader, limine_system, limine_config, kernel_file, image_files, rr_path,
  MediaStep, new_volume, add_boot_folder, add_file, add_eltorito, write_iso, close_media,
  append_zeros, media_path, spare_bytes, add_files, finish_media, make_media,
}

-- the calls of a run that returns
abbrev pub media_steps : Text → List MediaStep
media_steps milestone =
    new_volume (codes "MINILINUX_" ++ milestone)
    ∷ add_boot_folder
    ∷ add_file boot_loader
    ∷ add_file limine_system
    ∷ add_file limine_config
    ∷ add_file kernel_file
    ∷ add_eltorito boot_loader.iso_path
    ∷ write_iso (media_path milestone)
    ∷ close_media
    ∷ append_zeros (media_path milestone) spare_bytes
    ∷ []

finish_media-Follows :
    (fails : MediaStep → Option Exc) (milestone : Text)
    → Follows
        (add_eltorito boot_loader.iso_path
          ∷ write_iso (media_path milestone)
          ∷ close_media
          ∷ append_zeros (media_path milestone) spare_bytes
          ∷ [])
        (finish_media fails milestone)
unfolding finish_media
finish_media-Follows fails milestone = then-Follows (_ ∷ []) _ _ _ (call-Follows fails _) (
    then-Follows (_ ∷ []) _ _ _ (call-Follows fails _)
      (then-Follows (_ ∷ []) _ _ _ (call-Follows fails _) (call-Follows fails _)))

make_media-Follows :
    (fails : MediaStep → Option Exc) (milestone : Text)
    → Follows (media_steps milestone) (make_media fails milestone)
unfolding make_media add_files
make_media-Follows fails milestone = then-Follows (_ ∷ []) _ _ _ (call-Follows fails _) (
    then-Follows (_ ∷ []) _ _ _ (call-Follows fails _) (
      then-Follows (flat image_files (λ f. add_file f ∷ [])) _ _ _
        (each-Follows image_files (λ f. add_file f ∷ []) (λ f. call fails (add_file f))
          (λ f. call-Follows fails (add_file f)))
        (finish_media-Follows fails milestone)))

-- The calls have this one.
abbrev pub Has : MediaStep → List MediaStep → Type 0
Has s steps = (before : List MediaStep) × (after : List MediaStep) × (steps ≡ before ++ s ∷ after)

made_steps :
    (fails : MediaStep → Option Exc) (milestone : Text)
    → (make_media fails milestone []).0 ≡ ok tt
    → (make_media fails milestone []).1 ≡ media_steps milestone
made_steps fails milestone h =
    let m = make_media-Follows fails milestone [] in
    m.trace ∙ sym (append-nil m.done) ∙ ap (λ r. m.done ++ r) (sym (m.whole h)) ∙ sym m.splits

-- What pycdlib documents of an image made by these calls: a file that was added is one that can be
-- read, and is read back under its Rock Ridge path.
abbrev pub ReadsBack : List MediaStep → (Text → Result (List ℕ)) → (Text → Result (List ℕ)) → Type 0
ReadsBack steps content source =
    (f : ImageFile)
    → Has (add_file f) steps
    → (bytes : List ℕ) × (source f.source ≡ ok bytes) × (content (rr_path f) ≡ ok bytes)

compared :
    (steps : List MediaStep) (content source : Text → Result (List ℕ)) (milestone : Text)
    → steps ≡ media_steps milestone
    → ReadsBack steps content source
    → AllEqual content source payloads
compared steps content source milestone e r =
    let (a, sa, ca) = r kernel_file (
      new_volume (codes "MINILINUX_" ++ milestone)
          ∷ add_boot_folder
          ∷ add_file boot_loader
          ∷ add_file limine_system
          ∷ add_file limine_config
          ∷ [],
      _,
      e,
    ) in
    let (b, sb, cb) = r limine_config (
      new_volume (codes "MINILINUX_" ++ milestone)
          ∷ add_boot_folder
          ∷ add_file boot_loader
          ∷ add_file limine_system
          ∷ [],
      _,
      e,
    ) in
    let (c, sc, ec) = r limine_system (
      new_volume (codes "MINILINUX_" ++ milestone) ∷ add_boot_folder ∷ add_file boot_loader ∷ [],
      _,
      e,
    ) in
    ((a, ca, sa), ((b, cb, sb), ((c, ec, sc), tt)))

-- When make-image.py returns, it has made the whole image: the volume, the four files, the boot record
-- of the loader, the file of the milestone and its spare sectors, in this order; and the comparison
-- of `image` passes, if files that were added are read back.
pub make_media-image :
    (fails : MediaStep → Option Exc) (milestone : Text) (content source : Text → Result (List ℕ))
    (s : List ImageStep)
    → ReadsBack (make_media fails milestone []).1 content source
    → (make_media fails milestone []).0 ≡ ok tt
    → ((make_media fails milestone []).1 ≡ media_steps milestone)
      × ((image content source (make_media fails milestone []).0 s).0 ≡ ok tt)
make_media-image fails milestone content source s r h =
    let e = made_steps fails milestone h in
    (
      e,
      (image_lem content source (make_media fails milestone []).0 s).0.1
          (h, compared (make_media fails milestone []).1 content source milestone e r),
    )
