-- ===== src/Server/Post/Input.antt =====
-- Which texts `/api/input` lets through.
use mini_linux.Prelude.{
  ℕ, ◌≤◌, ◌≡◌, ◌↔◌, refl, Bool, true, not, ◌&&◌, ◌||◌, [], ◌∷◌, arith, ◌==◌, leb, length, all, any,
  Option, some,
}
use mini_linux.Prelude.Text.{Text}
use mini_linux.Prelude.Exec.{Exc, ok, err}
use mini_linux.Guest.Session.{is_ascii}
use mini_linux.Server.{Json, string}
use mini_linux.Server.Post.{bad_input, is_bad_char, terminal_text}

-- a printable ASCII character, or one of backspace, tab, line feed and carriage return
abbrev pub is_terminal_char : ℕ → Bool
is_terminal_char c = (leb 32 c && leb c 126) || c == 8 || c == 9 || c == 10 || c == 13

any-all : (t : Text) → any is_bad_char t ≡ not (all is_terminal_char t)
any-all [] = refl
any-all (c ∷ t) = ground (arith, any-all t)

-- `/api/input` takes the string under "text" exactly if it has 1 to 256 characters, each of them
-- printable ASCII, a backspace, a tab, a line feed or a carriage return.
pub terminal_text_iff :
    (t u : Text)
    → (terminal_text (some (string t)) ≡ ok u)
      ↔ ((u ≡ t) × (1 ≤ length t) × (length t ≤ 256) × (all is_terminal_char t ≡ true))
unfolding terminal_text
terminal_text_iff t u = (λ h. ground (arith, any-all t), λ h. ground (arith, any-all t))

pub terminal-is_ascii : (t : Text) → all is_terminal_char t ≡ true → is_ascii t ≡ true
terminal-is_ascii [] h = refl
terminal-is_ascii (c ∷ t) h = ground (arith, terminal-is_ascii t)

pub terminal_text-eq-ok :
    (j : Option Json) (u : Text)
    → terminal_text j ≡ ok u
    → (1 ≤ length u) × (length u ≤ 256) × (all is_terminal_char u ≡ true)
unfolding terminal_text
terminal_text-eq-ok (some (string t)) u h = ground (arith, any-all t)
terminal_text-eq-ok _ u h = cc

pub terminal_text-eq-err : (j : Option Json) (e : Exc) → terminal_text j ≡ err e → e ≡ bad_input
unfolding terminal_text
terminal_text-eq-err (some (string t)) e h = ground arith
terminal_text-eq-err _ e h = cc
