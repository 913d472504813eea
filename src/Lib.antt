-- ===== src/Lib.antt =====
-- The host tools of MiniLinux: the Python programs that build the teaching kernel, run it in
-- QEMU, read what it prints, and show it in a browser.
--
-- The parts. tools/lab_guest.py owns one QEMU guest with two serial channels: channel 0 is the
-- terminal, channel 1 the trace. A reader thread per channel (`Guest._read`) keeps a console
-- window of 64000 characters, and handles the trace line by line (`Guest._event`): a log of at
-- most 2000 records with rising ids, and tables of processes, mappings, data and memory. `start`,
-- `send`, `wait_for`, `command`, `snapshot` and `close` are what other code calls.
-- tools/lab-server.py is the loopback HTTP bridge: `Laboratory` holds one guest at a time,
-- `Handler` answers GET (state, manual, files) and POST (input, restart, stop).
-- tools/qemu_host.py gives the command line of QEMU and checks its version. tools/linux.py builds
-- the stages M0 to M6 and LAB, makes images and runs checks.
--
-- The files. Prelude and its children are shared: tests, lists over the native numbers, texts as
-- lists of code points, integers, dictionaries, decimal numbers, and `Exec`, a state with
-- exceptions. Guest.antt has the state of `Guest`; Guest/Console the terminal, Guest/Lines and
-- Guest/Reader the reader thread, Guest/Trace `_event`, Guest/Session `snapshot`, `send`,
-- `wait_for` and `command`, Guest/Lifecycle `start` and `close`, Guest/Lifecycle/Launch the
-- first part of `start`, Guest/Threads the readers, `start`, `close` and `snapshot` step by
-- step, as they run at once. Server.antt has requests, responses and the interface `Laboratory`;
-- Server/Post and Server/Get are `do_POST` and `do_GET`, Server/Static the paths of files,
-- Server/Lab the laboratory on the guest, Server/Entry the programs tools/lab-server.py and
-- tools/desktop-launch.py around it. Recording is the loop of tools/record-demo.py,
-- Recording/Clips its `record`, Export tools/export-demo.py. Package has the tree of files of tools/package-linux.py and
-- tools/package-desktop.py, Package/Linux and Package/Windows the two scripts. Checks has the
-- scripts that check a real guest: Checks/Faults and Checks/Boundaries
-- tools/test-lab-boundaries.py, Checks/Userland tools/test-userland.py, over the guest of
-- Checks/Steps. Clients has the scripts that test a bridge over HTTP: Clients/Bridge
-- tools/test-lab-bridge.py, Clients/Play tools/test-linux-package.py, and Clients/Probe
-- docs/evidence/experience-regression/desktop/desktop-http-probe.py. Hygiene is the link check
-- of tools/check-hygiene.py, Hygiene/Residue the rest of it. QemuHost is tools/qemu_host.py.
-- Linux has the stages and tables of tools/linux.py, Linux/Build its `build`, Linux/Serial
-- `serial_check`, Linux/Check `check`, Linux/Assets `prepare`, `image` and the assets of `setup`
-- and `doctor`, Linux/Setup these two, Linux/Media tools/make-image.py, Linux/Main `main`;
-- Linux/Steps says what a script of calls that may raise has done. The children of these modules
-- hold the theorems. Witnesses applies the theorems at concrete inputs.
--
-- How state is modelled. A method is a function on the record `Guest` (or `Host`, with the calls
-- to the operating system as a list of steps); one that can raise is an `Exec`, which keeps the
-- state it had when it raised. Loops that poll take the list of what their rounds find: the clock
-- in milliseconds and the state that other threads have left. A list that ends before the loop
-- does gives `waiting`; the rounds of `wait_for` are at least 25 ms apart, as its sleep makes
-- them, so that deadline / 25 rounds are enough; those of a connection are 50 ms apart. The
-- loops of Clients count the rounds that begin before the deadline, and make one look or none
-- behind them, as the source does. In Guest/Threads a step ends where a thread lets go of the
-- lock, or reads or writes a field without it, and any order of steps is a run. The loop of
-- `serial_check` is 50 ms apart too. Lists of calls
-- to tools record the calls that were made, the last of which may have raised.
--
-- Parameters. Sockets, the exit of QEMU, its version text, the compiler's tools, `json.loads`,
-- `urlparse`, `sha256`, the archive, the files and their types are arguments. The guest that the
-- checks of Checks run against is any `Lab`, and the bridge of Clients any `Web`, of which nothing
-- is assumed. What the requests still in progress do when the bridge ends is an argument of
-- Server/Entry: closing the server does not wait for them.
--
-- Not modelled: log files, HTTP headers of responses, symbolic links below the web folder, the
-- limit of 4300 digits and the non-ASCII digits of `int`, the file of a recording, the reports
-- of the checks, the unit tests with stubs, the C kernel, the user programs and the browser
-- page.
pub mod Prelude
pub mod Guest
pub mod Server
pub mod QemuHost
pub mod Linux
pub mod Recording
pub mod Package
pub mod Hygiene
pub mod Checks
pub mod Clients
pub mod Export
mod Witnesses
