-- ===== src/Hll.antt =====
-- src/hll.c without the estimate, which is arithmetic on doubles: six-bit registers, five to a word,
-- and the update of a register by a hash. The hash of a key, the second word of MurmurHash3, is an
-- argument. `calloc` succeeds.
pub mod Registers
pub mod Leading
pub mod Add
pub mod Examples
use statsite.Base.{
  ℕ, zero, suc, ◌+◌, ◌-◌, ◌*◌, ◌/◌, ◌%◌, ◌^◌, List, [], ◌∷◌, Bool, true, false, Option, none, some,
  ltb, ◌==◌, if◌then◌else◌, get_or, set, replicate,
}
use statsite.Base.Words.{u64}

abbrev pub reg_width : ℕ
reg_width = 6

abbrev pub reg_per_word : ℕ
reg_per_word = 5

abbrev pub hll_min_precision : ℕ
hll_min_precision = 4

abbrev pub hll_max_precision : ℕ
hll_max_precision = 18

pub record Hll : Type 0 where
  pub precision : ℕ
  pub registers : List ℕ

abbrev pub num_reg : ℕ → ℕ
num_reg precision = 2 ^ precision

-- `ceil(reg / 5.0)` words; `none` is -1.
unfoldable pub hll_init : ℕ → Option Hll
hll_init precision =
    if ltb precision hll_min_precision
    then none
    else (if ltb hll_max_precision precision
        then none
        else some (record {
          precision = precision;
          registers = replicate ((num_reg precision + 4) / reg_per_word) 0;
        }))

-- Six bits of a word, from bit `shift` on.
unfoldable pub field_of : (word shift : ℕ) → ℕ
field_of word shift = word / 2 ^ shift % 2 ^ reg_width

-- `(word & ~val_mask) | val << shift`, for a value of six bits: what is below the field, the value,
-- and what is above.
unfoldable pub with_field : (word shift val : ℕ) → ℕ
with_field word shift val =
    word % 2 ^ shift + val * 2 ^ shift + word / 2 ^ (shift + reg_width) * 2 ^ (shift + reg_width)

unfoldable pub get_register : Hll → ℕ → ℕ
get_register h idx =
    field_of (get_or h.registers (idx / reg_per_word) 0) (reg_width * (idx % reg_per_word))

unfoldable pub set_register : Hll → ℕ → ℕ → Hll
set_register h idx val =
    let word = get_or h.registers (idx / reg_per_word) 0 in
    record h {
      registers =
          set h.registers (idx / reg_per_word)
            (with_field word (reg_width * (idx % reg_per_word)) val);
    }

-- `__builtin_clzll` on the low `bits` bits.
unfoldable pub leading_zeros : (bits n : ℕ) → ℕ
leading_zeros zero n = 0
leading_zeros (suc bits) n = if ltb n (2 ^ bits) then leading_zeros bits n + 1 else 0

-- The first bits of a hash.
abbrev pub index_of : (precision hash : ℕ) → ℕ
index_of precision hash = hash / 2 ^ (64 - precision)

-- The other bits and a one behind them. The shift leaves the last bits zero, so `|` is a sum.
abbrev pub rest_of : (precision hash : ℕ) → ℕ
rest_of precision hash = u64 (hash * 2 ^ precision) + 2 ^ (precision - 1)

unfoldable pub leading_of : (precision hash : ℕ) → ℕ
leading_of precision hash = leading_zeros 64 (rest_of precision hash) + 1

unfoldable pub hll_add_hash : Hll → ℕ → Hll
hll_add_hash h hash =
    let idx = index_of h.precision hash in
    let leading = leading_of h.precision hash in
    if ltb (get_register h idx) leading then set_register h idx leading else h
