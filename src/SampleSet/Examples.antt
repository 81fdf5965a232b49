-- ===== src/SampleSet/Examples.antt =====
-- A full array for src/set.c, which turns into a sketch.
use statsite.Base.{ℕ, zero, suc, List, [], ◌∷◌, arith}
use statsite.SampleSet.{exact, set_add}
use statsite.SampleSet.Remember.{IsSampleSet, Remembers, set_add-Remembers}

abbrev count_down : ℕ → List ℕ
count_down zero = []
count_down (suc n) = n ∷ count_down n

abbrev full : List ℕ
full = count_down 64

full_set-IsSampleSet : IsSampleSet (exact 12 full)
unfolding IsSampleSet
full_set-IsSampleSet = omega arith

set_add-Remembers_example : Remembers (exact 12 full) 99 (set_add (exact 12 full) 99)
set_add-Remembers_example = set_add-Remembers (exact 12 full) 99 full_set-IsSampleSet (omega arith)
