-- ===== src/Hll/Add.antt =====
-- A hash raises one register to its rank, and touches no other.
use statsite.Base.{
  ℕ, ◌+◌, ◌*◌, ◌/◌, ◌%◌, ◌^◌, ◌<◌, ◌≡◌, refl, ◌∙◌, true, false, some, Bool-cases, inl, inr, arith,
  ltb, if◌then◌else◌, ◌==◌, length, length-set, length-replicate, replicate, get_or-replicate,
  ==→eq, le→ltb_false,
}
use statsite.Hll.{
  Hll, num_reg, reg_per_word, hll_init, get_register, set_register, field_of, index_of, leading_of,
  hll_add_hash,
}
use statsite.Hll.Registers.{get_register-set_register}
use native.Mathlib.Nat.{zero-div}
use statsite.Hll.Leading.{IsPrecision, index_of_bound, leading_of_lem}

-- A precision in range, and words for all its registers.
pub record IsHll (h : Hll) : Type 0 where
  pub precise : IsPrecision h.precision
  pub words : length h.registers ≡ (num_reg h.precision + 4) / reg_per_word

module _ (h : Hll) (hash : ℕ) (v : IsHll h) (word : hash < 2 ^ 64) where
  inside : index_of h.precision hash / 5 < length h.registers
  inside = rw v.words (omega (arith, index_of_bound h.precision hash v.precise word))

  rank_small : leading_of h.precision hash < 64
  rank_small =
      let (top, sum, low, high, bound) = leading_of_lem h.precision hash v.precise in
      omega (arith, bound, v.precise.least)

  raises :
      ltb (get_register h (index_of h.precision hash)) (leading_of h.precision hash) ≡ true
      → hll_add_hash h hash
        ≡ set_register h (index_of h.precision hash) (leading_of h.precision hash)
  unfolding hll_add_hash
  raises e = rw e refl

  keeps :
      ltb (get_register h (index_of h.precision hash)) (leading_of h.precision hash) ≡ false
      → hll_add_hash h hash ≡ h
  unfolding hll_add_hash
  keeps e = rw e refl

  -- hll_add_hash of a 64-bit hash writes inside the registers: afterwards the register of the hash
  -- holds the larger one of its old value and the rank of the hash, and every other register what
  -- it held.
  pub hll_add_hash_lem :
      (j : ℕ)
      → get_register (hll_add_hash h hash) j ≡ (
          if index_of h.precision hash == j
          then (if ltb (get_register h j) (leading_of h.precision hash)
              then leading_of h.precision hash
              else get_register h j)
          else get_register h j)
  hll_add_hash_lem j =
      elim (Bool-cases
        (ltb (get_register h (index_of h.precision hash)) (leading_of h.precision hash))) [
          | inl e ↦
              rw
                (
                  raises e,
                  get_register-set_register h (index_of h.precision hash)
                      (leading_of h.precision hash) inside rank_small j,
                )
                (elim (Bool-cases (index_of h.precision hash == j)) [
                  | inl q ↦ rw (q, ← ==→eq (index_of h.precision hash) j q, e) refl
                  | inr q ↦ rw q refl
                ])
          | inr e ↦ rw (keeps e) (elim (Bool-cases (index_of h.precision hash == j)) [
            | inl q ↦ rw (q, ← ==→eq (index_of h.precision hash) j q, e) refl
            | inr q ↦ rw q refl
          ])
        ]

  pub hll_add_hash-IsHll : IsHll (hll_add_hash h hash)
  unfolding hll_add_hash set_register
  hll_add_hash-IsHll =
      elim (Bool-cases
        (ltb (get_register h (index_of h.precision hash)) (leading_of h.precision hash))) [
          | inl e ↦ rw e (record {
            precise = v.precise;
            words = length-set h.registers (index_of h.precision hash / 5) _ ∙ v.words;
          })
          | inr e ↦ rw e v
        ]

-- hll_init accepts every precision from 4 to 18, and makes enough words for its registers, which
-- all read zero.
pub hll_init_lem :
    (precision idx : ℕ)
    → IsPrecision precision
    → (h : Hll) × (hll_init precision ≡ some h) × IsHll h × (get_register h idx ≡ 0)
unfolding hll_init get_register field_of
hll_init_lem precision idx v =
    let words = (num_reg precision + 4) / reg_per_word in
    (
      record { precision = precision; registers = replicate words 0 },
      rw (le→ltb_false precision 4 v.least, le→ltb_false 18 precision v.most) refl,
      record { precise = v; words = length-replicate words 0 },
      rw (get_or-replicate {A = ℕ} words 0 (idx / 5), zero-div (2 ^ (6 * (idx % 5)))) refl,
    )
