-- ===== src/Package/Linux/Texts.antt =====
-- The texts that tools/package-linux.py writes.
use mini_linux.Prelude.{[], ◌∷◌, concat, ◌≡◌, refl, true}
use mini_linux.Prelude.Text.{Text, codes, starts_with}

-- Start.sh
pub start_script : Text
start_script = concat (
    codes "#!/bin/sh\nset -eu\ncd \"$(dirname \"$0\")\"\n"
    ∷ codes "if ! command -v python3 >/dev/null 2>&1; then\n"
    ∷ codes "  echo \"Install Python 3.10+, QEMU 6.2+ and SeaBIOS; see READ-ME.txt.\" >&2\n"
    ∷ codes "  exit 1\nfi\n"
    ∷ codes "exec python3 -B tools/desktop-launch.py --no-browser \"$@\"\n"
    ∷ [])

-- READ-ME.txt
pub linux_readme : Text → Text
linux_readme source = concat (
    codes "MiniLinux / Linux x86_64 LAB preview\n\n"
    ∷ codes "1. Ubuntu/Debian 先准备运行工具（已有则不需重复安装）：\n"
    ∷ codes "   sudo apt-get update\n"
    ∷ codes "   sudo apt-get install --no-install-recommends python3 qemu-system-x86 seabios\n"
    ∷ codes "   需要 Python 3.10+、QEMU 6.2+；不需要 Clang、LLD、GDB、pip 或 venv。\n"
    ∷ codes "2. 解压整个档案，进入 MiniLinux-LAB，运行：sh Start.sh\n"
    ∷ codes "3. 手动打开终端显示的本次 http://127.0.0.1:端口/ 网址。\n"
    ∷ codes "   端口自动选择，不会弹出或切换你的浏览器。\n"
    ∷ codes "4. 试 cat hello.txt、run counter-a counter-b、run fault；故障后 shell 仍可操作。\n"
    ∷ codes "   保持启动窗口；Ctrl+C 关闭 LAB 与其 QEMU。关闭网页不会关闭客体。\n\n"
    ∷ codes "包内已经有启动映像；首次启动也不下载、编译或安装东西。\n"
    ∷ codes "QEMU 使用 qemu64,-apic、1 CPU、64 MiB、TCG；不需要 KVM 或 root。\n"
    ∷ codes "系统 QEMU 和 Python 由发行版管理，本包不会修改它们。\n"
    ∷ codes "云主机需要 SSH 端口转发：ssh -N -L 8088:127.0.0.1:远端显示的端口 用户@主机\n"
    ∷ codes "然后在自己的浏览器打开 http://127.0.0.1:8088/ 。\n\n"
    ∷ codes "This is a real teaching guest, not a replay or a Linux distribution.\n"
    ∷ codes "Install Python 3.10+, qemu-system-x86_64 6.2+ and SeaBIOS using your distribution.\n"
    ∷ codes "Run sh Start.sh and open the printed loopback URL. Ctrl+C closes LAB and its QEMU.\n"
    ∷ codes "The included ISO needs no compiler, Python packages or network access at runtime.\n"
    ∷ codes "Source: https://github.com/NoctilumeDev/MiniLinux/tree/"
    ∷ source
    ∷ codes "\n"
    ∷ codes "Limine license: runtime/images/LIMINE-LICENSE.txt; Tux: web/assets/TUX-README.md.\n"
    ∷ [])

-- The two texts begin as a script of the shell and with the name of the package.
start_script_head : starts_with (codes "#!/bin/sh") start_script ≡ true
unfolding start_script concat
start_script_head = refl

linux_readme_head :
    (source : Text)
    → starts_with (codes "MiniLinux / Linux x86_64 LAB preview") (linux_readme source) ≡ true
unfolding linux_readme concat
linux_readme_head source = refl
