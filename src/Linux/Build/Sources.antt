-- ===== src/Linux/Build/Sources.antt =====
-- Which sources and objects a stage has.
use mini_linux.Prelude.{ℕ, zero, suc, ◌≡◌, refl, Bool, true, not, ◌&&◌, List, [], ◌∷◌, ◌++◌, map}
use mini_linux.Prelude.Text.{Text, split, join}
use mini_linux.Server.{is_one_of}
use mini_linux.Linux.{Stage, m0, m1, m2, m3, m4, m5, m6, lab, level}
use mini_linux.Linux.Build.{sources, object_name, user_objects}

abbrev pub is_distinct : List Text → Bool
is_distinct [] = true
is_distinct (t ∷ ts) = not (is_one_of t ts) && is_distinct ts

-- In every stage, with or without a counterexample: no two sources are compiled to the same object
-- file, and none to an object of the user program.
pub objects-distinct :
    (stage : Stage) (attack : ℕ)
    → is_distinct (map object_name (sources (level stage) attack) ++ user_objects (level stage))
      ≡ true
unfolding sources object_name user_objects split join
objects-distinct m0 zero = refl
objects-distinct m0 (suc n) = refl
objects-distinct m1 zero = refl
objects-distinct m1 (suc n) = refl
objects-distinct m2 zero = refl
objects-distinct m2 (suc n) = refl
objects-distinct m3 zero = refl
objects-distinct m3 (suc n) = refl
objects-distinct m4 zero = refl
objects-distinct m4 (suc n) = refl
objects-distinct m5 zero = refl
objects-distinct m5 (suc n) = refl
objects-distinct m6 zero = refl
objects-distinct m6 (suc n) = refl
objects-distinct lab zero = refl
objects-distinct lab (suc n) = refl
