-- ===== src/Hll/Leading.antt =====
-- The count of leading zeros, and its bound.
use statsite.Base.{
  ℕ, zero, suc, ◌+◌, ◌-◌, ◌*◌, ◌/◌, ◌%◌, ◌^◌, ◌≤◌, ◌<◌, ◌≡◌, sym, ap, ◌∙◌, subst, Bool-cases, inl,
  inr, arith, ltb, ltb→lt, ltb_false→le,
}
use statsite.Base.Words.{u64}
use statsite.Hll.{leading_zeros, rest_of, leading_of, index_of}
use native.Mathlib.Nat.{
  two-pow-succ, one-le-pow, pow-le-pow_right, mod-lt, div-lt_iff_lt-mul, add-mul-mod_self_left,
  mod-eq_of_lt, mul-le-mul_right, mod-add-div,
}
use native.Mathlib.Decide.{dec_le}

-- The count for a number of some bits that is not zero: its highest bit is the first after the
-- zeros.
leading_zeros_lem :
    (bits n : ℕ)
    → 0 < n
    → n < 2 ^ bits
    → (top : ℕ) × (leading_zeros bits n + top + 1 ≡ bits) × (2 ^ top ≤ n) × (n < 2 ^ (top + 1))
unfolding leading_zeros
leading_zeros_lem zero n pos small = absurd (omega arith)
leading_zeros_lem (suc bits) n pos small = elim (Bool-cases (ltb n (2 ^ bits))) [
  | inl e ↦
      let (top, sum, low, high) = leading_zeros_lem bits n pos (ltb→lt n (2 ^ bits) e) in
      (top, rw e (omega (arith, sum)), low, high)
  | inr e ↦ (
    bits,
    rw e (omega arith),
    ltb_false→le n (2 ^ bits) e,
    subst (λ k. n < 2 ^ k) (omega arith) small,
  )
]

pow_add : (m n : ℕ) → 2 ^ (m + n) ≡ 2 ^ m * 2 ^ n
pow_add zero n = let none_more : zero + n ≡ n = omega arith in rw none_more (omega arith)
pow_add (suc m) n =
    let next : suc m + n ≡ suc (m + n) = omega arith in
    rw (next, two-pow-succ (m + n), two-pow-succ m) (omega (arith, pow_add m n))

regroup : (a b m n : ℕ) → (a + n * b) * m ≡ a * m + m * n * b
regroup a b m n = omega arith

-- A number shifted by a factor of the word leaves that much room below the word.
shifted : (m n h : ℕ) → 0 < m → 0 < n → h * m % (m * n) + m ≤ m * n
shifted m n h pos some_n =
    let less = mod-lt h some_n in
    let bound : suc (h % n) * m ≤ n * m = mul-le-mul_right m less in
    let same : h * m ≡ h % n * m + m * n * (h / n) =
      ap (λ x. x * m) (sym (mod-add-div h n)) ∙ regroup (h % n) (h / n) m n in
    let low : h % n * m < m * n = omega (arith, bound) in
    rw (same, add-mul-mod_self_left (h % n * m) (m * n) (h / n), mod-eq_of_lt low)
      (omega (arith, bound))

-- The highest bit of a number that is at least a power of two.
top_at_least : (p top n : ℕ) → 2 ^ p ≤ n → n < 2 ^ (top + 1) → p ≤ top
top_at_least p top n low high = elim (dec_le p top) [
  | yes le ↦ le
  | no nle ↦
      let mono : 2 ^ (top + 1) ≤ 2 ^ p = pow-le-pow_right (omega arith) (omega arith) in
      absurd (omega arith)
]

-- The precisions that `hll_init` takes.
pub record IsPrecision (p : ℕ) : Type 0 where
  pub least : 4 ≤ p
  pub most : p ≤ 18

powers : (p : ℕ) → IsPrecision p → 2 ^ p * 2 ^ (64 - p) ≡ 2 ^ 64
powers p v =
    let whole : p + (64 - p) ≡ 64 = omega arith in sym (pow_add p (64 - p)) ∙ ap (λ k. 2 ^ k) whole

pub index_of_bound : (p hash : ℕ) → IsPrecision p → hash < 2 ^ 64 → index_of p hash < 2 ^ p
index_of_bound p hash v small =
    (div-lt_iff_lt-mul (one-le-pow (64 - p) 2 (omega arith))).1 (rw (powers p v) small)

within :
    (x m half word : ℕ)
    → word ≡ 2 ^ 64
    → x % word + m ≤ word
    → m ≡ half + half
    → 0 < half
    → u64 x + half < 2 ^ 64
within x m half word e room h pos = omega (arith, rw e at room, h, pos)

rest_of_bound : (p hash : ℕ) → IsPrecision p → rest_of p hash < 2 ^ 64
rest_of_bound p hash v =
    let room =
      shifted (2 ^ p) (2 ^ (64 - p)) hash (one-le-pow p 2 (omega arith))
        (one-le-pow (64 - p) 2 (omega arith)) in
    let next : p ≡ suc (p - 1) = omega arith in
    let half : 2 ^ p ≡ 2 ^ (p - 1) + 2 ^ (p - 1) = ap (λ k. 2 ^ k) next ∙ two-pow-succ (p - 1) in
    let pos = one-le-pow (p - 1) 2 (omega arith) in
    within (hash * 2 ^ p) (2 ^ p) (2 ^ (p - 1)) (2 ^ p * 2 ^ (64 - p)) (powers p v) room half pos

-- The rank that hll_add_hash takes of a hash, for a precision from 4 to 18: 64 less the place of
-- the highest bit of what is left of the hash without its index, with the one behind it. It is at
-- most 65 less the precision.
pub leading_of_lem :
    (p hash : ℕ)
    → IsPrecision p
    → (top : ℕ) × (leading_of p hash + top ≡ 64)
      × (2 ^ top ≤ rest_of p hash)
      × (rest_of p hash < 2 ^ (top + 1))
      × (leading_of p hash + p ≤ 65)
unfolding leading_of
leading_of_lem p hash v =
    let pos = one-le-pow (p - 1) 2 (omega arith) in
    let (top, sum, low, high) =
      leading_zeros_lem 64 (rest_of p hash) (omega (arith, pos)) (rest_of_bound p hash v) in
    let above = top_at_least (p - 1) top (rest_of p hash) (omega arith) high in
    (top, omega (arith, sum), low, high, omega (arith, sum, above, v.least))
