-- ===== src/Package/Windows/Texts.antt =====
-- The texts that tools/package-desktop.py writes.
use mini_linux.Prelude.{List, [], ◌∷◌, ◌++◌, concat}
use mini_linux.Prelude.Text.{Text, codes, starts_with}
use mini_linux.Prelude.{◌≡◌, refl, true}
use mini_linux.Prelude.Exec.{ok}
use mini_linux.Guest.Session.{encode}

-- the lines of Start.cmd
unfoldable pub launcher_lines : List Text
launcher_lines =
    codes "@echo off"
    ∷ codes "setlocal"
    ∷ codes "set \"PSModulePath=%SystemRoot%\\System32\\WindowsPowerShell\\v1.0\\Modules\""
    ∷ codes "cd /d \"%~dp0\""
    ∷ codes "set \"LAB_PROXY=%~1\""
    ∷ codes "set \"LAB_BROWSER_OPTION=\""
    ∷ codes "if \"%~1\"==\"--no-browser\" set \"LAB_PROXY=\""
    ∷ codes "if \"%~1\"==\"--no-browser\" set \"LAB_BROWSER_OPTION=--no-browser\""
    ∷ codes "if \"%~2\"==\"--no-browser\" set \"LAB_BROWSER_OPTION=--no-browser\""
    ∷ codes "if \"%LAB_PROXY%\"==\"\" ("
    ∷ codes
        "  \"%SystemRoot%\\System32\\WindowsPowerShell\\v1.0\\powershell.exe\" -NoProfile -ExecutionPolicy Bypass -File \"%~dp0tools\\prepare-desktop.ps1\""
    ∷ codes ") else ("
    ∷ codes
        "  \"%SystemRoot%\\System32\\WindowsPowerShell\\v1.0\\powershell.exe\" -NoProfile -ExecutionPolicy Bypass -File \"%~dp0tools\\prepare-desktop.ps1\" -Proxy \"%LAB_PROXY%\""
    ∷ codes ")"
    ∷ codes "if errorlevel 1 goto failed"
    ∷ codes
        "\"%~dp0runtime\\python\\python.exe\" -I \"%~dp0tools\\desktop-launch.py\" %LAB_BROWSER_OPTION%"
    ∷ codes "if errorlevel 1 goto failed"
    ∷ codes "exit /b 0"
    ∷ codes ":failed"
    ∷ codes "echo LAB could not start. See READ-ME.txt for retry and proxy instructions."
    ∷ codes "echo Keep the error above when reporting a problem."
    ∷ codes "pause"
    ∷ codes ""
    ∷ []

abbrev join_lines : List Text → Text
join_lines [] = []
join_lines (l ∷ []) = l
join_lines (l ∷ m ∷ ls) = l ++ (codes "\r\n" ++ join_lines (m ∷ ls))

-- `"\r\n".join(…)`
unfoldable pub launcher : Text
launcher = join_lines launcher_lines

-- The launcher is ASCII.
pub launcher-encode : encode launcher ≡ ok launcher
unfolding launcher launcher_lines
launcher-encode = refl

-- READ-ME.txt
pub windows_readme : Text
windows_readme = concat (
    codes "MiniLinux / Windows LAB preview\n\n"
    ∷ codes "中文快速开始\n"
    ∷ codes "1. 需要 Windows 10/11 x64。解压整个 ZIP，进入 MiniLinux-LAB 文件夹。\n"
    ∷ codes "2. 双击 Start.cmd。首次联网下载约 220 MB 的官方 Python/QEMU 档案，\n"
    ∷ codes "   核验后只解包到本文件夹的 runtime；以后启动会复用这里的缓存。\n"
    ∷ codes "   无需预装 Python/QEMU、编译器、GDB 或 WSL。阶段提示会显示当前准备步骤。\n"
    ∷ codes "3. 浏览器会打开真实 QEMU 客体。先输入 help、cat hello.txt、run reader，\n"
    ∷ codes "   再输入 run counter-a counter-b；结束后点“查看最近 counter 快照”比较两个PID。\n"
    ∷ codes "   快照只固定观察窗，不会暂停客体。run fault 只退出演示程序，shell 仍能接受命令。\n"
    ∷ codes "4. stop guest 停止客体；restart guest 从头启动。关闭网页不会关闭 LAB。\n"
    ∷ codes "   保留启动窗口，用 Ctrl+C 关闭 LAB 和它自己的 QEMU。\n\n"
    ∷ codes "如需代理：在本文件夹（能看到 Start.cmd）的资源管理器地址栏输入 powershell，\n"
    ∷ codes "按 Enter，然后输入下列命令，把地址替换成你的代理：\n"
    ∷ codes "  .\\Start.cmd http://127.0.0.1:7897\n"
    ∷ codes "下载失败可以按同样方法重试；不修改全局代理或系统模块配置。\n"
    ∷ codes "如果没有自动打开浏览器，请复制启动窗口显示的 http://127.0.0.1:端口/ 网址。\n"
    ∷ codes "下次打开的端口可能变化，请使用这次显示的新网址。\n"
    ∷ codes "若不想自动打开默认浏览器，可运行 .\\Start.cmd --no-browser，手动打开显示的网址。\n"
    ∷ codes "同时需要代理时：.\\Start.cmd http://127.0.0.1:7897 --no-browser。\n"
    ∷ codes "这是固定程序和文件的教学体验，不是 Linux 发行版。\n\n"
    ∷ codes "English quick start\n"
    ∷ codes "1. Extract this entire ZIP to a writable folder on Windows 10/11 x64.\n"
    ∷ codes "2. Double-click Start.cmd. The first start downloads about 220 MB of official\n"
    ∷ codes "   Python/QEMU archives and unpacks them inside runtime/. Internet is required.\n"
    ∷ codes "   No compiler, GDB, WSL or existing Python/QEMU installation is needed.\n"
    ∷ codes "3. A browser opens the actual 64 MiB QEMU guest. Try help, cat hello.txt,\n"
    ∷ codes "   run reader, run counter-a counter-b, then run fault.\n\n"
    ∷ codes "Keep the launcher window open. Ctrl+C closes LAB and its owned QEMU.\n"
    ∷ codes "stop guest stops QEMU; restart guest starts a fresh guest.\n"
    ∷ codes "This is a teaching preview with fixed programs and files, not a Linux distro.\n"
    ∷ codes "If downloads need a proxy, run in PowerShell:\n"
    ∷ codes "  .\\Start.cmd http://127.0.0.1:7897\n"
    ∷ codes "Replace that URL with your own proxy. No global setting is changed.\n"
    ∷ codes
        "Append --no-browser to leave the default browser alone and open the printed URL yourself.\n"
    ∷ codes "A failed download can be retried with the same command. Verified archives\n"
    ∷ codes "are cached for later offline starts.\n\n"
    ∷ codes "Python: PSF license, included in the vendor archive.\n"
    ∷ codes "QEMU: downloaded directly from qemu.weilnetz.de; upstream notices are retained.\n"
    ∷ codes "7-Zip: Igor Pavlov, see runtime/extractor/License.txt and the included source.\n"
    ∷ codes "Limine: runtime/images/LIMINE-LICENSE.txt. Tux: web/assets/TUX-README.md.\n"
    ∷ [])

-- The text begins with the name of the package.
windows_readme_head : starts_with (codes "MiniLinux / Windows LAB preview") windows_readme ≡ true
unfolding windows_readme concat
windows_readme_head = refl
