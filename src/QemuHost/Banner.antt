-- ===== src/QemuHost/Banner.antt =====
-- Which banners pass the version check.
use mini_linux.Prelude.{
  ◌≤◌, ◌<◌, ◌≡◌, ◌↔◌, ◌⊎◌, inl, inr, refl, true, false, List, [], ◌∷◌, ◌++◌, arith, none, some,
  Bool-cases,
}
use mini_linux.Prelude.Text.{Text, split}
use mini_linux.Prelude.Decimal.{show, starts_plain, number-show}
use mini_linux.Prelude.Exec.{ok, err}
use mini_linux.QemuHost.{
  Version, banner_start, ends_version, match_line, match_lines, is_older, old_version, check_banner,
  judge,
}

-- The banner of a version, with the rest of its line.
abbrev pub banner : Version → Text → Text
banner v rest = banner_start ++ show v.major (b'.' ∷ show v.minor (b'.' ∷ show v.patch rest))

ends-plain : (rest : Text) → ends_version rest ≡ true → starts_plain rest ≡ true
ends-plain [] h = refl
ends-plain (c ∷ cs) h = ground arith

-- Every version is read back from its banner.
pub match_line-banner :
    (v : Version) (rest : Text) → ends_version rest ≡ true → match_line (banner v rest) ≡ some v
unfolding match_line
match_line-banner v rest h =
    rw (number-show v.major (b'.' ∷ show v.minor (b'.' ∷ show v.patch rest)) refl) (
      rw (number-show v.minor (b'.' ∷ show v.patch rest) refl)
        (rw (number-show v.patch rest (ends-plain rest h)) (rw h)))

-- At least 6.2.0.
abbrev pub IsRecent : Version → Type 0
IsRecent v = (6 < v.major) ⊎ ((v.major ≡ 6) × (2 ≤ v.minor))

is_older_iff : (v : Version) → (is_older v ≡ false) ↔ IsRecent v
unfolding is_older
is_older_iff v = (λ h. ground arith, λ h. ground arith)

judge_lem :
    (v : Version)
    → ((judge (some v) ≡ ok tt) ↔ IsRecent v)
      × ((judge (some v) ≡ err old_version) ↔ (¬ IsRecent v))
unfolding is_older
judge_lem v = (
  (λ h. ground arith, λ h. ground arith),
  (
    λ h. λ r. ground arith,
    λ h. elim (Bool-cases (is_older v)) [
      | inl old ↦ rw old
      | inr recent ↦ absurd (h ((is_older_iff v).0 recent))
    ],
  ),
)

-- no line of it matches
abbrev pub NoMatch : List Text → Type 0
NoMatch [] = Unit
NoMatch (l ∷ ls) = (match_line l ≡ none) × NoMatch ls

match_lines-skip :
    (before : List Text) (l : Text) (after : List Text) (v : Version)
    → NoMatch before
    → match_line l ≡ some v
    → match_lines (before ++ l ∷ after) ≡ some v
unfolding match_lines
match_lines-skip [] l after v n h = rw h
match_lines-skip (b ∷ before) l after v n h = rw n.0 (match_lines-skip before l after v n.1 h)

-- The output of `qemu --version` passes the check exactly if the version that its first matching line
-- prints is at least 6.2.0, compared number by number; an older one gives the error that says so.
pub check_banner_lem :
    (text : Text) (before after : List Text) (v : Version) (rest : Text)
    → split b'\n' text ≡ before ++ banner v rest ∷ after
    → NoMatch before
    → ends_version rest ≡ true
    → ((check_banner text ≡ ok tt) ↔ IsRecent v)
      × ((check_banner text ≡ err old_version) ↔ (¬ IsRecent v))
unfolding check_banner
check_banner_lem text before after v rest s n h =
    rw (s, match_lines-skip before (banner v rest) after v n (match_line-banner v rest h))
      (judge_lem v)
