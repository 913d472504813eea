-- ===== src/Guest/Lines.antt =====
-- `Guest._read` for channel 1, the trace: complete lines are taken off the buffer `pending`.
pub mod Split
use mini_linux.Prelude.{ℕ, ◌+◌, List, [], ◌∷◌, ◌++◌, ◌==◌, if◌then◌else◌, length, leb}
use mini_linux.Prelude.Text.{Text, codes, contains, decode}

abbrev pub newline : ℕ
newline = 10

abbrev add_front : ℕ → List Text × Text → List Text × Text
add_front c ([], rest) = ([], c ∷ rest)
add_front c (l ∷ ls, rest) = ((c ∷ l) ∷ ls, rest)

-- `while "\n" in pending: line, pending = pending.split("\n", 1)`: the lines, and what is left
unfoldable pub cut : Text → List Text × Text
cut [] = ([], [])
cut (c ∷ cs) =
    let (ls, rest) = cut cs in if c == newline then ([] ∷ ls, rest) else add_front c (ls, rest)
