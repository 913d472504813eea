-- ===== src/Linux/Setup.antt =====
-- `setup` and `doctor` of tools/linux.py: the calls that they make, and the Limine assets. A call
-- returns or raises; the fetched archive and `sha256` are parameters.
pub mod Ready
use mini_linux.Prelude.{
  ℕ, Bool, true, false, not, List, [], ◌∷◌, ◌++◌, Option, none, some, if◌then◌else◌,
}
use mini_linux.Prelude.Text.{Text, codes, text_eq}
use mini_linux.Prelude.Exec.{
  Exc, runtime_error, Result, ok, err, Exec, ◌>>=◌, ◌>>◌, pure, raise, lift, gets, modify,
}
use mini_linux.Linux.Assets.{Assets, limine_files, setup_assets, verify_assets}

pub data ToolCall : Type 0 where
  read_source read_status check_qemu make_venv install_pycdlib run_doctor : ToolCall
  find_tool : Text → ToolCall
  -- `run([executable, "--version"])`
  ask_version : Text → ToolCall

abbrev pub compiler_tools : List Text
compiler_tools =
    codes "clang"
    ∷ codes "ld.lld"
    ∷ codes "llvm-objcopy"
    ∷ codes "llvm-readelf"
    ∷ codes "llvm-nm"
    ∷ []

abbrev pub old_host_python : Exc
old_host_python = runtime_error (codes "Use Python 3.10 or newer to create the Linux environment")

-- The calls so far, and the folder of the assets.
pub record HostState : Type 0 where
  pub calls : List ToolCall
  pub assets : Assets

-- What the two find: which calls raise, whether Python is older than 3.10, the installed pycdlib, the
-- digest, the archive as `prepare` reads it, and whether `--archive` names one.
pub record SetupEnv : Type 0 where
  pub fails : ToolCall → Option Exc
  pub is_old : Bool
  pub pycdlib : Result Text
  pub digest : List ℕ → Text
  pub member : List ℕ → Text → Result (List ℕ)
  pub fetched : Result (List ℕ)
  pub given : Bool

abbrev pub result_of : Option Exc → Result (Unit {0})
result_of none = ok tt
result_of (some e) = err e

module _ (env : SetupEnv) where
  unfoldable pub does_call : ToolCall → Exec HostState Unit
  does_call c = do
    modify (λ h. record h { calls = h.calls ++ c ∷ [] })
    lift (result_of (env.fails c))

  -- `for name in …: tool(name, llvm_bin)`
  unfoldable pub find_tools : List Text → Exec HostState Unit
  find_tools [] = pure tt
  find_tools (name ∷ names) = do does_call (find_tool name); find_tools names

  -- the loop of `doctor` over the tools
  unfoldable pub show_tools : List Text → Exec HostState Unit
  show_tools [] = pure tt
  show_tools (name ∷ names) = do
    does_call (find_tool name)
    does_call (ask_version name)
    show_tools names

  -- an action on the assets alone
  abbrev pub on_assets : Exec Assets Unit → Exec HostState Unit
  on_assets m h = ((m h.assets).0, record h { assets = (m h.assets).1 })

  unfoldable pub check_python : Exec HostState Unit
  check_python h = (if env.is_old then err old_host_python else ok tt, h)

  -- what `setup` does before the assets
  unfoldable pub make_environment : Exec HostState Unit
  make_environment = do
    check_python
    does_call check_qemu
    find_tools compiler_tools
    does_call make_venv
    does_call install_pycdlib

  unfoldable pub setup : Exec HostState Unit
  setup = do
    make_environment
    on_assets (setup_assets env.digest env.member env.given env.fetched)
    does_call run_doctor

  abbrev pub other_pycdlib : Text → Exc
  other_pycdlib version = runtime_error (codes "Expected pycdlib 1.20.0, found " ++ version)

  unfoldable pub check_pycdlib : Result Text → Exec HostState Unit
  check_pycdlib (err e) h = (err e, h)
  check_pycdlib (ok version) h =
      (if text_eq version (codes "1.20.0") then ok tt else err (other_pycdlib version), h)

  unfoldable pub doctor : Exec HostState Unit
  doctor = do
    does_call read_source
    does_call read_status
    does_call check_qemu
    show_tools compiler_tools
    check_pycdlib env.pycdlib
    on_assets (verify_assets env.digest limine_files)
