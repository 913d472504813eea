-- ===== src/Linux/Media.antt =====
-- tools/make-image.py: the calls that make the CD image. What pycdlib and the file system do is an
-- argument: each call returns or raises.
pub mod Payload
use mini_linux.Prelude.{ℕ, ◌+◌, Bool, List, [], ◌∷◌, ◌++◌, map, Option, if◌then◌else◌, leb, ◌&&◌}
use mini_linux.Prelude.Text.{Text, codes}
use mini_linux.Prelude.Exec.{Exc, Result, Exec, ◌>>◌}
use mini_linux.Linux.Steps.{call, each}

-- a row of `files`; `rr_folder` is the Rock Ridge folder that `iso_path` stands in
pub record ImageFile : Type 0 where
  pub source : Text
  pub iso_path : Text
  pub rr_folder : Text
  pub rr_name : Text
  pub joliet_path : Text

abbrev pub limine_folder : Text
limine_folder = codes "limine-12.9.0/limine-binary/"

abbrev pub boot_loader : ImageFile
boot_loader = record {
  source = limine_folder ++ codes "limine-bios-cd.bin";
  iso_path = codes "/LIMCD.BIN;1";
  rr_folder = codes "/";
  rr_name = codes "limine-bios-cd.bin";
  joliet_path = codes "/limine-bios-cd.bin";
}

abbrev pub limine_system : ImageFile
limine_system = record {
  source = limine_folder ++ codes "limine-bios.sys";
  iso_path = codes "/LIMINE.SYS;1";
  rr_folder = codes "/";
  rr_name = codes "limine-bios.sys";
  joliet_path = codes "/limine-bios.sys";
}

abbrev pub limine_config : ImageFile
limine_config = record {
  source = codes "boot/limine.conf";
  iso_path = codes "/LIMINE.CON;1";
  rr_folder = codes "/";
  rr_name = codes "limine.conf";
  joliet_path = codes "/limine.conf";
}

abbrev pub kernel_file : ImageFile
kernel_file = record {
  source = codes "build/kernel.elf";
  iso_path = codes "/BOOT/KERNEL.ELF;1";
  rr_folder = codes "/boot/";
  rr_name = codes "kernel.elf";
  joliet_path = codes "/boot/kernel.elf";
}

-- files
abbrev pub image_files : List ImageFile
image_files = boot_loader ∷ limine_system ∷ limine_config ∷ kernel_file ∷ []

abbrev pub rr_path : ImageFile → Text
rr_path f = f.rr_folder ++ f.rr_name

pub data MediaStep : Type 0 where
  -- `iso.new`, with the name of the volume
  new_volume : Text → MediaStep
  -- the folder /BOOT, boot and /boot
  add_boot_folder : MediaStep
  add_file : ImageFile → MediaStep
  -- the boot record, with the path of the loader
  add_eltorito : Text → MediaStep
  write_iso : Text → MediaStep
  close_media : MediaStep
  append_zeros : Text → ℕ → MediaStep

-- `str.lower()` of ASCII text
abbrev pub lower : Text → Text
lower = map (λ c. if leb b'A' c && leb c b'Z' then c + 32 else c)

abbrev pub media_path : Text → Text
media_path milestone = codes "images/minilinux-" ++ (lower milestone ++ codes ".iso")

-- the spare sectors behind the last file
abbrev pub spare_bytes : ℕ
spare_bytes = 1048576

module _ (fails : MediaStep → Option Exc) (milestone : Text) where
  unfoldable pub add_files : Exec (List MediaStep) Unit
  add_files = each image_files (λ f. call fails (add_file f))

  unfoldable pub finish_media : Exec (List MediaStep) Unit
  finish_media = do
    call fails (add_eltorito boot_loader.iso_path)
    call fails (write_iso (media_path milestone))
    call fails close_media
    call fails (append_zeros (media_path milestone) spare_bytes)

  unfoldable pub make_media : Exec (List MediaStep) Unit
  make_media = do
    call fails (new_volume (codes "MINILINUX_" ++ milestone))
    call fails add_boot_folder
    add_files
    finish_media
