-- ===== src/Hll/Examples.antt =====
-- A sketch of 16 registers for src/hll.c.
use statsite.Base.{ℕ, ◌+◌, ◌^◌, ◌<◌, ◌≤◌, ◌≡◌, refl, arith, ltb, if◌then◌else◌, ◌==◌, ◌∷◌, []}
use statsite.Hll.{Hll, get_register, set_register, hll_add_hash, index_of, leading_of, rest_of}
use statsite.Hll.Registers.{get_register-set_register}
use statsite.Hll.Leading.{leading_of_lem}
use statsite.Hll.Add.{IsHll, hll_add_hash_lem}

abbrev sketch : Hll
sketch = record { precision = 4; registers = 0 ∷ 192 ∷ 0 ∷ 0 ∷ [] }

sketch-IsHll : IsHll sketch
sketch-IsHll = record { precise = omega arith; words = refl }

abbrev some_hash : ℕ
some_hash = 2 ^ 62 + 2 ^ 61 + 2 ^ 40

get_register-set_register_example :
    get_register (set_register sketch 7 9) 6 ≡ (if 7 == 6 then 9 else get_register sketch 6)
get_register-set_register_example =
    get_register-set_register sketch 7 9 (omega arith) (omega arith) 6

leading_of_lem_example :
    (top : ℕ) × (leading_of 4 some_hash + top ≡ 64)
    × (2 ^ top ≤ rest_of 4 some_hash)
    × (rest_of 4 some_hash < 2 ^ (top + 1))
    × (leading_of 4 some_hash + 4 ≤ 65)
leading_of_lem_example = leading_of_lem 4 some_hash (omega arith)

hll_add_hash_lem_example : get_register (hll_add_hash sketch some_hash) 6 ≡ (
    if index_of 4 some_hash == 6
    then (if ltb (get_register sketch 6) (leading_of 4 some_hash)
        then leading_of 4 some_hash
        else get_register sketch 6)
    else get_register sketch 6)
hll_add_hash_lem_example = hll_add_hash_lem sketch some_hash sketch-IsHll (omega arith) 6
