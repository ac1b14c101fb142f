-- ===== src/Libc/Sort.antt =====
-- `qsort` of `int`s in rising order: what it leaves does not depend on how it sorts.
use cw_skimmer.Prelude.{ℕ, List, [], ◌∷◌, leb, if◌then◌else◌}

abbrev insert_sorted : ℕ → List ℕ → List ℕ
insert_sorted x [] = x ∷ []
insert_sorted x (y ∷ ys) = let rest = insert_sorted x ys in if leb x y then x ∷ y ∷ ys else y ∷ rest

unfoldable pub sort_ints : List ℕ → List ℕ
sort_ints [] = []
sort_ints (x ∷ xs) = insert_sorted x (sort_ints xs)
