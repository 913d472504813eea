-- ===== src/Hygiene.antt =====
-- tools/check-hygiene.py: the local links of Markdown texts, and what must not be left in a tree. The
-- files, `urlsplit` and `unquote` are parameters.
pub mod Links
pub mod Targets
pub mod Residue
use mini_linux.Prelude.{
  ℕ, zero, suc, ◌+◌, Bool, true, false, not, ◌&&◌, ◌||◌, ◌==◌, List, [], ◌∷◌, ◌++◌, Option, none,
  some, if◌then◌else◌, length, concat, map,
}
use mini_linux.Prelude.Text.{
  Text, codes, starts_with, text_eq, is_space, drop_while, rstrip, split, contains,
}

-- The text up to the first `c`, and what follows that; `none` if there is no `c`.
unfoldable pub until : ℕ → Text → Option (Text × Text)
until c [] = none
until c (d ∷ ds) = if d == c then some ([], ds) else add_first d (until c ds)
  where
    add_first : ℕ → Option (Text × Text) → Option (Text × Text)
    add_first d none = none
    add_first d (some (a, b)) = some (d ∷ a, b)

-- The target of `[^)\n]+\)` and what follows.
abbrev pub some_target : Option (Text × Text) → Option (Text × Text)
some_target none = none
some_target (some ([], rest)) = none
some_target (some (c ∷ cs, rest)) = some (c ∷ cs, rest)

abbrev pub open_target : Option (Text × Text) → Option (Text × Text)
open_target none = none
open_target (some (label, [])) = none
open_target (some (label, c ∷ rest)) =
    let target = some_target (until b')' rest) in if c == b'(' then target else none

-- `[^\]\n]*\]\(([^)\n]+)\)` on one line, behind its `[`
unfoldable pub link_behind : Text → Option (Text × Text)
link_behind line = open_target (until b']' line)

abbrev pub found_link : Option (Text × Text) → (Text → List Text) → List Text → List Text
found_link none behind later = later
found_link (some (target, rest)) behind later = target ∷ behind rest

-- `re.findall` of one line; each match takes characters, so the length is fuel enough
unfoldable pub links_on : ℕ → Text → List Text
links_on zero line = []
links_on (suc fuel) [] = []
links_on (suc fuel) (c ∷ cs) =
    let later = links_on fuel cs in
    if c == b'[' then found_link (link_behind cs) (links_on fuel) later else later

abbrev pub links : Text → List Text
links line = links_on (length line) line

abbrev pub backticks : Text
backticks = codes "```"

abbrev pub tildes : Text
tildes = codes "~~~"

-- the mark that opens a fenced block
abbrev pub fence_of : Text → Option Text
fence_of line =
    if starts_with backticks line
    then some backticks
    else if starts_with tildes line
    then some tildes
    else none

-- the lines behind the one that closes the block
unfoldable pub behind_fence : Text → List Text → Option (List Text)
behind_fence mark [] = none
behind_fence mark (l ∷ ls) =
    let rest = behind_fence mark ls in if starts_with mark l then some ls else rest

-- `re.sub(r"(?ms)^(```|~~~).*?^\1[^\n]*$", "", text)`, on the lines of the text; a block that is not
-- closed stays
abbrev pub closed_by : Option Text → List Text → Option (List Text)
closed_by none ls = none
closed_by (some mark) ls = behind_fence mark ls

abbrev pub without : Text → Option (List Text) → (List Text → List Text) → List Text → List Text
without l none behind kept = l ∷ kept
without l (some rest) behind kept = [] ∷ behind rest

unfoldable pub strip_fences : ℕ → List Text → List Text
strip_fences zero ls = []
strip_fences (suc fuel) [] = []
strip_fences (suc fuel) (l ∷ ls) =
    without l (closed_by (fence_of l) ls) (strip_fences fuel) (strip_fences fuel ls)

-- the lines that links are looked for on
abbrev pub text_lines : Text → List Text
text_lines text = strip_fences (length (split b'\n' text)) (split b'\n' text)

abbrev pub before_or_all : Option (Text × Text) → Text → Text
before_or_all none t = t
before_or_all (some (a, b)) t = a

-- `target.split(' "', 1)[0]`
unfoldable pub before_title : Text → Text
before_title [] = []
before_title (c ∷ cs) = if starts_with (codes " \"") (c ∷ cs) then [] else c ∷ before_title cs

-- the file name of a target
unfoldable pub clean_target : Text → Text
clean_target target = clean (drop_while is_space (rstrip is_space target))
  where
    clean : Text → Text
    clean [] = []
    clean (c ∷ cs) = if c == b'<' then before_or_all (until b'>' cs) cs else before_title (c ∷ cs)

-- scheme, netloc and path, as `urlsplit` gives them
pub record Split : Type 0 where
  pub scheme : Text
  pub netloc : Text
  pub path : Text

abbrev pub is_empty : Text → Bool
is_empty [] = true
is_empty (c ∷ cs) = false

abbrev pub is_local : Split → Bool
is_local u = (is_empty u.scheme && is_empty u.netloc) && not (is_empty u.path)

-- What the script finds: `urlsplit`, and whether the folder of a text has a file or folder of the
-- unquoted path.
pub record LinkEnv : Type 0 where
  pub urlsplit : Text → Split
  pub is_there : Text → Text → Bool

abbrev pub missing : Text → Text → Text
missing name target = name ++ (codes ": missing " ++ target)

module _ (env : LinkEnv) where
  -- the loop over the targets of a text: how many are checked, and the errors
  unfoldable pub check_targets : Text → List Text → ℕ × List Text
  check_targets name [] = (0, [])
  check_targets name (t ∷ ts) =
      let target = clean_target t in
      let (checked, errors) = check_targets name ts in
      if is_local (env.urlsplit target)
      then (
        suc checked,
        if env.is_there name (env.urlsplit target).path
            then errors
            else missing name target ∷ errors,
      )
      else (checked, errors)

  unfoldable pub check_text : Text → Text → ℕ × List Text
  check_text name text = check_targets name (concat (map links (text_lines text)))

  -- the loop over the Markdown files, by name
  unfoldable pub check_texts : List (Text × Text) → ℕ × List Text
  check_texts [] = (0, [])
  check_texts ((name, text) ∷ files) =
      let (n, found) = check_text name text in
      let (m, others) = check_texts files in (n + m, found ++ others)
