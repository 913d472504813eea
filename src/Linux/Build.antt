-- ===== src/Linux/Build.antt =====
-- `build` of tools/linux.py: which sources a stage compiles, the commands in their order, and the
-- checks between them. What the tools leave behind is an argument.
pub mod Sources
use mini_linux.Prelude.{
  ℕ, zero, suc, ◌+◌, ◌≤◌, Bool, true, false, not, ◌&&◌, ◌||◌, List, [], ◌∷◌, ◌++◌, map, Option,
  none, some, ◌==◌, ltb, leb, if◌then◌else◌, length, drop_last,
}
use Prim.Native.Nat.{◌/◌, ◌%◌}
use mini_linux.Prelude.Text.{Text, codes, text_eq, contains, split, join, drop_while}
use mini_linux.Prelude.Decimal.{show}
use mini_linux.Prelude.Exec.{
  Exc, runtime_error, Result, ok, err, Exec, ◌>>=◌, ◌>>◌, pure, raise, lift,
}
use mini_linux.Linux.{Stage, m0, m1, m2, m3, m4, m5, m6, lab, level}

-- `if b: sources += names`
abbrev optional : Bool → List Text → List Text
optional true names = names
optional false names = []

-- `if attack`
abbrev has_attack : ℕ → Bool
has_attack zero = false
has_attack (suc n) = true

abbrev pub user_kernel : ℕ → List Text
user_kernel l =
    if l == 7
    then codes "kernel/laboratory.c" ∷ []
    else codes "kernel/user.c" ∷ codes "kernel/syscall.c" ∷ []

-- the list `sources`, complete
unfoldable pub sources : ℕ → ℕ → List Text
sources l attack =
    codes "kernel/main.c"
    ∷ (optional (has_attack attack) (codes "kernel/counterexample.c" ∷ [])
        ++ (optional (leb 1 l)
              (codes "kernel/memory/page.c" ∷ codes "kernel/memory/page_test.c" ∷ [])
            ++ (optional (leb 2 l) (
                  codes "kernel/bytes.c"
                  ∷ codes "kernel/memory/vm.c"
                  ∷ codes "kernel/memory/vm_test.c"
                  ∷ [])
                ++ (optional (leb 3 l) (
                      codes "kernel/cpu.c"
                      ∷ codes "kernel/interrupt.c"
                      ∷ codes "kernel/entry.S"
                      ∷ [])
                    ++ (optional (leb 3 l && not (l == 7)) (codes "kernel/task.c" ∷ [])
                        ++ (optional (leb 4 l) (
                              codes "kernel/usercopy.c"
                              ∷ codes "build/user-image.c"
                              ∷ user_kernel l)
                            ++ optional (leb 5 l) (codes "kernel/ramfs.c" ∷ [])))))))

abbrev last_or : Text → List Text → Text
last_or d [] = d
last_or d (w ∷ ws) = last_or w ws

-- `source.name`, `source.stem` and `source.suffix == ".c"`
abbrev pub file_name : Text → Text
file_name path = last_or [] (split b'/' path)

abbrev pub stem : Text → Text
stem name = join b'.' (drop_last (split b'.' name))

abbrev pub is_c : Text → Bool
is_c path = text_eq (last_or [] (split b'.' (file_name path))) (codes "c")

-- `source.stem + ".o"`
unfoldable pub object_name : Text → Text
object_name path = stem (file_name path) ++ codes ".o"

-- the objects of the user program
unfoldable pub user_objects : ℕ → List Text
user_objects l =
    optional (leb 4 l) (codes "user-program.o" ∷ optional (l == 7) (codes "user-bytes.o" ∷ []))

pub data BuildStep : Type 0 where
  command : List Text → BuildStep
  write_image : Text → BuildStep

-- The project folder, the tools that are found, the steps that fail, the bytes of user.bin once
-- objcopy has run, and what llvm-nm and llvm-readelf print for a file.
pub record BuildEnv : Type 0 where
  pub project : Text
  pub tool : Text → Option Text
  pub fails : BuildStep → Option Exc
  pub user_bin : List ℕ
  pub undefined : Text → List ℕ
  pub segments : Text → List ℕ

abbrev pub missing_tool : Text → Exc
missing_tool name =
    runtime_error
      (codes "Missing " ++ (name ++ codes "; install LLVM or set --llvm-bin. See docs/LINUX.md"))

abbrev found_tool : Text → Option Text → Result Text
found_tool name none = err (missing_tool name)
found_tool name (some path) = ok path

abbrev pub wrong_combination : Exc
wrong_combination = runtime_error (codes "Additional faults and counterexamples belong to M6")

abbrev pub image_too_large : Exc
image_too_large = runtime_error (codes "User image exceeds its fixed code page limit")

abbrev pub runtime_dependency : Text → Exc
runtime_dependency name = runtime_error (codes "Unexpected runtime dependency in " ++ name)

abbrev pub is_m6 : Stage → Bool
is_m6 m6 = true
is_m6 _ = false

-- the first guard of `build`
abbrev pub allowed : Stage → ℕ → ℕ → Bool
allowed stage fault attack = is_m6 stage || (fault == 1 && attack == 0)

-- the size of the user image that fits
abbrev pub user_limit : ℕ → ℕ
user_limit l = if l == 7 then 65536 else 8192

abbrev pub fits : ℕ → List ℕ → Bool
fits l bytes = ltb 0 (length bytes) && leb (length bytes) (user_limit l)

abbrev hex_digit : ℕ → ℕ
hex_digit d = if ltb d 10 then b'0' + d else 87 + d

-- `f"0x{byte:02x}"`
unfoldable pub byte_text : ℕ → Text
byte_text b = b'0' ∷ b'x' ∷ hex_digit (b / 16) ∷ hex_digit (b % 16) ∷ []

-- the value of `values`
unfoldable pub array_text : List ℕ → Text
array_text bytes = join b',' (map byte_text bytes)

unfoldable pub image_text : List ℕ → Text
image_text bytes =
    codes "#include <stdint.h>\nconst unsigned char user_image[] = {"
    ++ (array_text bytes
        ++ (codes "};\nconst uint64_t user_image_size = " ++ show (length bytes) (codes ";\n")))

-- `bytes.strip()`
abbrev is_blank : ℕ → Bool
is_blank c = (leb 9 c && leb c 13) || c == 32

abbrev pub is_empty : Text → Bool
is_empty [] = true
is_empty (c ∷ cs) = false

-- `undefined.strip() or b"INTERP" in segments or b"DYNAMIC" in segments`
abbrev pub is_clean : List ℕ → List ℕ → Bool
is_clean undefined segments =
    is_empty (drop_while is_blank undefined)
    && (not (contains (codes "INTERP") segments) && not (contains (codes "DYNAMIC") segments))

module _ (env : BuildEnv) where
  abbrev pub path_of : Text → Text
  path_of name = env.project ++ (b'/' ∷ name)

  abbrev pub output : Text → Text
  output name = path_of (codes "build/" ++ name)

  abbrev done : BuildStep → Option Exc → Exec (List BuildStep) Unit
  done s none steps = (ok tt, steps ++ s ∷ [])
  done s (some e) steps = (err e, steps)

  abbrev pub perform : BuildStep → Exec (List BuildStep) Unit
  perform s = done s (env.fails s)

  abbrev pub need : Text → Exec (List BuildStep) Text
  need name = lift (found_tool name (env.tool name))

  abbrev pub flags : List Text
  flags =
      codes "--target=x86_64-unknown-none-elf"
      ∷ codes "-Wall"
      ∷ codes "-Wextra"
      ∷ codes "-Werror"
      ∷ codes "-ffreestanding"
      ∷ codes "-fno-builtin"
      ∷ codes "-fno-stack-protector"
      ∷ codes "-fno-pic"
      ∷ codes "-fno-pie"
      ∷ codes "-mno-red-zone"
      ∷ codes "-mno-sse"
      ∷ codes "-mno-mmx"
      ∷ codes "-mno-80387"
      ∷ codes "-O0"
      ∷ codes "-g"
      ∷ codes "-I"
      ∷ path_of (codes "include")
      ∷ []

  abbrev pub defines : ℕ → ℕ → ℕ → List Text
  defines l fault attack =
      (codes "-DMINILINUX_LEVEL=" ++ show l [])
      ∷ (codes "-DMINILINUX_PROBE=" ++ show fault [])
      ∷ (codes "-DMINILINUX_ATTACK=" ++ show attack [])
      ∷ []

  -- the arguments of `compile_source`
  abbrev pub compile_args : Text → Text → Text → Text → Bool → List Text → List Text
  compile_args clang source destination model frame_pointer definitions =
      clang
      ∷ (optional (is_c source) (codes "-std=c11" ∷ [])
          ++ (flags
              ++ (optional frame_pointer (codes "-fno-omit-frame-pointer" ∷ [])
                  ++ ((codes "-mcmodel=" ++ model)
                      ∷ (definitions ++ (codes "-c" ∷ source ∷ codes "-o" ∷ destination ∷ []))))))

  abbrev link_args : Text → List Text → Text → Text → List Text → List Text
  link_args linker extra script target objects =
      linker
      ∷ codes "-m"
      ∷ codes "elf_x86_64"
      ∷ codes "-nostdlib"
      ∷ codes "-static"
      ∷ (extra ++ (codes "-T" ∷ script ∷ codes "-o" ∷ target ∷ objects))

  -- the user program, up to the bytes of its image
  unfoldable pub build_user : ℕ → Text → Text → List Text → Exec (List BuildStep) Unit
  build_user l clang linker definitions = do
    perform (
        command (
          compile_args clang
            (path_of (if l == 7 then codes "user/laboratory.c" else codes "user/program.c"))
            (output (codes "user-program.o")) (codes "small") true definitions))
    if l == 7
        then perform (
            command (
              compile_args clang (path_of (codes "kernel/bytes.c")) (output (codes "user-bytes.o"))
                (codes "small") false []))
        else pure tt
    perform (
        command (
          link_args linker [] (path_of (codes "user/linker.ld")) (output (codes "user.elf"))
            (map output (user_objects l))))
    objcopy ← need (codes "llvm-objcopy")
    perform (
        command (
          objcopy
          ∷ codes "-O"
          ∷ codes "binary"
          ∷ output (codes "user.elf")
          ∷ output (codes "user.bin")
          ∷ []))
    if fits l env.user_bin then pure tt else raise image_too_large
    perform (write_image (image_text env.user_bin))

  -- `for relative in sources`
  unfoldable pub compile_all : Text → List Text → List Text → Exec (List BuildStep) Unit
  compile_all clang definitions [] = pure tt
  compile_all clang definitions (s ∷ ss) = do
    perform (
        command (
          compile_args clang (path_of s) (output (object_name s)) (codes "kernel") true
            definitions))
    compile_all clang definitions ss

  -- one round of the last loop
  unfoldable pub inspect : Text → Exec (List BuildStep) Unit
  inspect name = do
    nm ← need (codes "llvm-nm")
    perform (command (nm ∷ codes "--undefined-only" ∷ output name ∷ []))
    readelf ← need (codes "llvm-readelf")
    perform (command (readelf ∷ codes "-l" ∷ output name ∷ []))
    if is_clean (env.undefined name) (env.segments name)
        then pure tt
        else raise (runtime_dependency name)

  unfoldable pub build : Stage → ℕ → ℕ → Exec (List BuildStep) Unit
  build stage fault attack = do
    if allowed stage fault attack then pure tt else raise wrong_combination
    clang ← need (codes "clang")
    linker ← need (codes "ld.lld")
    if leb 4 (level stage)
        then build_user (level stage) clang linker (defines (level stage) fault attack)
        else pure tt
    compile_all clang (defines (level stage) fault attack) (sources (level stage) attack)
    perform (
        command (
          link_args linker (codes "-z" ∷ codes "max-page-size=0x1000" ∷ [])
            (path_of (codes "linker.ld")) (output (codes "kernel.elf"))
            (map output (map object_name (sources (level stage) attack)))))
    inspect (codes "kernel.elf")
    if leb 4 (level stage) then inspect (codes "user.elf") else pure tt
