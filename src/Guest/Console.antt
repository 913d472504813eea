-- ===== src/Guest/Console.antt =====
-- `Guest._read` for channel 0, the terminal: backspace, carriage return, and the window of the last
-- 64000 characters.
pub mod Window
use mini_linux.Prelude.{
  ℕ, ◌+◌, ◌-◌, List, [], ◌∷◌, ◌++◌, ◌==◌, if◌then◌else◌, length, last_n, drop_last,
}
use mini_linux.Prelude.Text.{Text, codes, contains, decode}
use mini_linux.Guest.{Guest, Status, faulted}

abbrev pub console_limit : ℕ
console_limit = 64000

-- "\b" and "\r"
abbrev pub backspace : ℕ
backspace = 8

abbrev pub carriage_return : ℕ
carriage_return = 13

pub type_char : Text → ℕ → Text
type_char console c =
    if c == backspace
    then drop_last console
    else if c == carriage_return
    then console
    else console ++ c ∷ []

-- `for c in text`
unfoldable pub type_text : Text → Text → Text
unfolding type_char
type_text console [] = console
type_text console (c ∷ cs) = type_text (type_char console c) cs

abbrev pub panic_mark : Text
panic_mark = codes "MiniLinux PANIC:"

abbrev pub panic_error : Text
panic_error = codes "Kernel panic; inspect the console and restart."

-- `if "MiniLinux PANIC:" in self.console: …`
unfoldable pub note_panic : Guest → Guest
note_panic g =
    if contains panic_mark g.console then record g { status = faulted; error = panic_error } else g

-- the text of one chunk; `len(self.console) - 64000` stops at 0 as `max(0, …)` does
unfoldable pub console_text : Text → Guest → Guest
unfolding type_text note_panic
console_text text g =
    let typed = type_text g.console text in
    note_panic (record g {
      console = last_n console_limit typed;
      console_base = g.console_base + (length typed - console_limit);
    })

-- the bytes that one `recv` returned
unfoldable pub console_chunk : List ℕ → Guest → Guest
unfolding console_text decode
console_chunk chunk g = console_text (decode chunk) g

-- the text of several chunks, one after the other
unfoldable pub console_texts : List Text → Guest → Guest
console_texts [] g = g
console_texts (t ∷ ts) g = console_texts ts (console_text t g)
