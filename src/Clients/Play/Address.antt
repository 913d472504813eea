-- ===== src/Clients/Play/Address.antt =====
-- The address that the laboratory prints, as tools/test-linux-package.py looks for it in the log:
-- `MiniLinux (?:LAB|laboratory): (http://127\.0\.0\.1:\d+/)`, with ASCII digits.
use mini_linux.Prelude.{
  Bool, true, false, not, ◌&&◌, List, [], ◌∷◌, ◌++◌, Option, none, some, ◌==◌, ◌-◌, if◌then◌else◌,
  length, drop,
}
use mini_linux.Prelude.Text.{Text, codes, text_eq, starts_with, is_digit}

abbrev pub base : Text
base = codes "http://127.0.0.1:"

abbrev pub titles : List Text
titles = codes "MiniLinux LAB: " ∷ codes "MiniLinux laboratory: " ∷ []

-- `\d+/` at the front: the digits, if a slash stands behind at least one of them
abbrev pub port_behind : Text → Text → Option Text
port_behind digits [] = none
port_behind digits (c ∷ cs) = elim (is_digit c) [
  | true ↦ port_behind (digits ++ c ∷ []) cs
  | false ↦ (if c == b'/' && not (text_eq digits []) then some digits else none)
]

abbrev pub address_of : Option Text → Option Text
address_of none = none
address_of (some digits) = some (base ++ (digits ++ codes "/"))

-- the match that starts here with this title
abbrev pub titled : Text → Text → Option Text
titled title text =
    if starts_with (title ++ base) text
    then address_of (port_behind [] (drop (length (title ++ base)) text))
    else none

abbrev pub or_else : Option Text → Option Text → Option Text
or_else none b = b
or_else (some t) b = some t

abbrev pub first_of : List Text → Text → Option Text
first_of [] text = none
first_of (title ∷ more) text = or_else (titled title text) (first_of more text)

-- `re.search`: the first place where the pattern matches
unfoldable pub find_address : Text → Option Text
find_address [] = none
find_address (c ∷ cs) = or_else (first_of titles (c ∷ cs)) (find_address cs)

-- `address.endswith(":0/")`
abbrev pub has_no_port : Text → Bool
has_no_port address = text_eq (drop (length address - 3) address) (codes ":0/")
