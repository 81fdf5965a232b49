-- ===== src/SampleSet.antt =====
-- src/set.c: a set of samples, exact up to 64 hashes and a HyperLogLog sketch from then on. A sample
-- is given by its hash, the second word of MurmurHash3. The array of hashes is a list; `count` is its
-- length. `none` is an unchecked failure of `hll_init` for a precision out of range.
pub mod Remember
pub mod Examples
use statsite.Base.{
  ℕ, zero, suc, List, [], ◌∷◌, ◌++◌, Bool, true, false, Option, none, some, ltb, ◌==◌,
  if◌then◌else◌, length, ◌>>=◌,
}
use statsite.Hll.{Hll, hll_init, hll_add_hash}

abbrev pub set_max_exact : ℕ
set_max_exact = 64

pub data SampleSet : Type 0 where
  exact : (precision : ℕ) → (hashes : List ℕ) → SampleSet
  approx : Hll → SampleSet

unfoldable pub set_init : ℕ → SampleSet
set_init precision = exact precision []

unfoldable pub is_added : ℕ → List ℕ → Bool
is_added hash [] = false
is_added hash (x ∷ xs) = if hash == x then true else is_added hash xs

unfoldable pub add_hashes : Hll → List ℕ → Hll
add_hashes h [] = h
add_hashes h (x ∷ xs) = add_hashes (hll_add_hash h x) xs

-- The code calls it on a full array only.
unfoldable pub convert_exact_to_approx : ℕ → List ℕ → Option Hll
convert_exact_to_approx precision hashes = do h ← hll_init precision; some (add_hashes h hashes)

unfoldable pub set_add : SampleSet → ℕ → Option SampleSet
set_add (exact precision hashes) hash =
    if is_added hash hashes
    then some (exact precision hashes)
    else (if ltb (length hashes) set_max_exact
        then some (exact precision (hashes ++ hash ∷ []))
        else (do h ← convert_exact_to_approx precision hashes; some (approx (hll_add_hash h hash))))
set_add (approx h) hash = some (approx (hll_add_hash h hash))

-- `estimate` is `ceil(hll_size(h))`.
unfoldable pub set_size : (estimate : Hll → ℕ) → SampleSet → ℕ
set_size estimate (exact precision hashes) = length hashes
set_size estimate (approx h) = estimate h
