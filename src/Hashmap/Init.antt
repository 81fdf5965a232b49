-- ===== src/Hashmap/Init.antt =====
-- A new map: its size is the next power of two, and it is empty.
use statsite.Base.{
  ℕ, zero, suc, ◌+◌, ◌*◌, ◌/◌, ◌%◌, ◌^◌, ◌≤◌, ◌<◌, ◌≡◌, ◌≢◌, refl, sym, ap, ◌∙◌, Bool, none,
  if◌then◌else◌, arith, ◌==◌, Bool-cases, inl, inr, ==→eq, ==_false→ne, replicate, subst,
}
use statsite.Hashmap.{Hashmap, default_capacity, most_sig_bit, round_up, hashmap_init, empty_slot}
use statsite.Hashmap.Pairs.{Decides}
use statsite.Hashmap.View.{replicate-IsTable, view-replicate, total-replicate}
use statsite.Hashmap.Methods.{IsMap, reads}
use native.Mathlib.Nat.{
  mul-add, mul_assoc, add-mul-mod_self_left, pow-suc, mod-lt, mod-add-div, mod-eq_of_lt, one-le-pow,
}

expand : (m n : ℕ) → n ≡ n % m + m * (n / m % 2) + m * 2 * (n / m / 2)
expand m n =
    sym (mod-add-div n m)
    ∙ ap (λ q. n % m + m * q) (sym (mod-add-div (n / m) 2))
    ∙ rw (mul-add m (n / m % 2) (2 * (n / m / 2)), mul_assoc m 2 (n / m / 2)) (omega arith)

with_bit : (x m b : ℕ) → x < m → b < 2 → x + m * b < m * 2
with_bit x m zero h l = omega (arith, h)
with_bit x m (suc zero) h l = omega (arith, h)
with_bit x m (suc (suc b)) h l = absurd (omega arith)

double_mod : (m n : ℕ) → 0 < m → n % (m * 2) ≡ n % m + m * (n / m % 2)
double_mod m n pos =
    ap (λ x. x % (m * 2)) (expand m n)
    ∙ add-mul-mod_self_left (n % m + m * (n / m % 2)) (m * 2) (n / m / 2)
    ∙ mod-eq_of_lt (with_bit (n % m) m (n / m % 2) (mod-lt n pos) (mod-lt (n / m) (omega arith)))

pow_add_one : (idx : ℕ) → 2 ^ (idx + 1) ≡ 2 ^ idx * 2
pow_add_one idx = ap (λ k. 2 ^ k) (omega arith) ∙ pow-suc 2 idx

-- The bits below `idx + 1` of a number.
zero_bit : (b : ℕ) → b < 2 → b ≢ 1 → b ≡ 0
zero_bit b l h = omega (arith, l, h)

bit_round : (idx n : ℕ) → n % 2 ^ (idx + 1) ≡ n % 2 ^ idx + 2 ^ idx * (n / 2 ^ idx % 2)
bit_round idx n = rw (pow_add_one idx) (double_mod (2 ^ idx) n (one-le-pow idx 2 (omega arith)))

le_more : (x m y : ℕ) → m ≤ x + m * 1 + y
le_more x m y = omega arith

has_bit : (m n : ℕ) → n / m % 2 ≡ 1 → m ≤ n
has_bit m n h = rw (expand m n, h) (le_more (n % m) m (m * 2 * (n / m / 2)))

no_bit : (idx n bound : ℕ) → n / 2 ^ idx % 2 ≢ 1 → n % 2 ^ idx < bound → n % 2 ^ (idx + 1) < bound
no_bit idx n bound h l =
    rw (bit_round idx n, zero_bit (n / 2 ^ idx % 2) (mod-lt (n / 2 ^ idx) (omega arith)) h)
      (omega (arith, l))

-- The highest bit so far bounds the low bits, and is a bit of the number.
record Bounds (n idx msb : ℕ) : Type 0 where
  below : n % 2 ^ idx < 2 ^ (msb + 1)
  within : 2 ^ msb ≤ n

round_Bounds :
    (idx n msb : ℕ)
    → Bounds n idx msb
    → Bounds n (idx + 1) (if n / 2 ^ idx % 2 == 1 then idx else msb)
round_Bounds idx n msb b = elim (Bool-cases (n / 2 ^ idx % 2 == 1)) [
  | inl e ↦ rw e (record {
    below = mod-lt n (one-le-pow (idx + 1) 2 (omega arith));
    within = has_bit (2 ^ idx) n (==→eq (n / 2 ^ idx % 2) 1 e);
  })
  | inr e ↦ rw e (record {
    below = no_bit idx n (2 ^ (msb + 1)) (==_false→ne (n / 2 ^ idx % 2) 1 e) b.below;
    within = b.within;
  })
]

most_sig_bit-Bounds :
    (rounds idx n msb : ℕ)
    → Bounds n idx msb
    → Bounds n (rounds + idx) (most_sig_bit rounds idx n msb)
unfolding most_sig_bit
most_sig_bit-Bounds zero idx n msb b = subst (λ k. Bounds n k msb) (omega arith) b
most_sig_bit-Bounds (suc rounds) idx n msb b =
    let next = if n / 2 ^ idx % 2 == 1 then idx else msb in
    subst (λ k. Bounds n k (most_sig_bit rounds (idx + 1) n next)) (omega arith)
      (most_sig_bit-Bounds rounds (idx + 1) n next (round_Bounds idx n msb b))

-- The loop over all 32 bits finds the top one.
top_bit : (n : ℕ) → 0 < n → n < 2 ^ 32 → Bounds n 32 (most_sig_bit 32 0 n 0)
top_bit n pos small =
    most_sig_bit-Bounds 32 0 n 0 record { below = omega arith; within = omega arith }

strict : (m n : ℕ) → m ≤ n → m ≢ n → m * 2 < 2 * n
strict m n le ne = omega (arith, le, ne)

round_up_of :
    (n msb : ℕ)
    → Bounds n 32 msb
    → n < 2 ^ 32
    → (k : ℕ) × ((if 2 ^ msb == n then 2 ^ msb else 2 ^ (msb + 1)) ≡ 2 ^ k)
      × (n ≤ 2 ^ k)
      × (2 ^ k < 2 * n)
round_up_of n msb b small = elim (Bool-cases (2 ^ msb == n)) [
  | inl e ↦
      let same = ==→eq (2 ^ msb) n e in
      let pos = one-le-pow msb 2 (omega arith) in
      (msb, rw e refl, omega (arith, same), omega (arith, same, pos))
  | inr e ↦
      let other = ==_false→ne (2 ^ msb) n e in
      let low : n < 2 ^ (msb + 1) = rw⁻¹ (mod-eq_of_lt small) b.below in
      (
        msb + 1,
        rw e refl,
        omega (arith, low),
        rw (pow_add_one msb) (strict (2 ^ msb) n b.within other),
      )
]

-- round_up gives the least power of two that is not smaller, for a positive size up to 2 ^ 30.
pub round_up_lem :
    (n : ℕ) → 0 < n → n ≤ 2 ^ 30 → (k : ℕ) × (round_up n ≡ 2 ^ k) × (n ≤ 2 ^ k) × (2 ^ k < 2 * n)
unfolding round_up
round_up_lem n pos small =
    round_up_of n (most_sig_bit 32 0 n 0) (top_bit n pos (omega (arith, small)))
      (omega (arith, small))

three_quarters : (size : ℕ) → 2 ≤ size → 0 < 3 * size / 4
three_quarters size h = omega (arith, h)

module _ {ℓ} {K : Type ℓ} (V : Type ℓ) (hash : K → ℕ) (eq : K → K → Bool) (d : Decides eq) where
  -- An empty map: in order, of a given size, and without any key.
  pub record IsNew (size : ℕ) (map : Hashmap K V) : Type ℓ where
    pub ok : IsMap hash eq d map
    pub width : map.table_size ≡ size
    pub no_pairs : map.count ≡ 0
    pub no_key : (j : K) → reads hash eq d map j ≡ none

  IsNew-of_size :
      (size : ℕ)
      → 2 ≤ size
      → IsNew size (record {
        count = 0;
        table_size = size;
        max_size = 3 * size / 4;
        table = replicate size empty_slot;
      })
  IsNew-of_size size h = record {
    ok = record {
      table_ok = replicate-IsTable hash eq d size (omega arith);
      counted = sym (total-replicate K V size);
      some_room = three_quarters size h;
      load = omega arith;
    };
    width = refl;
    no_pairs = refl;
    no_key = view-replicate hash eq d size;
  }

  -- hashmap_init makes an empty map in order, of the default size for 0 and of the next power of
  -- two else, for every size but 1 up to 2 ^ 30.
  pub hashmap_init-IsNew :
      (initial_size : ℕ)
      → initial_size ≢ 1
      → initial_size ≤ 2 ^ 30
      → IsNew
          (if initial_size == 0 then default_capacity else round_up initial_size)
          (hashmap_init initial_size)
  unfolding hashmap_init
  hashmap_init-IsNew n ne small = elim (Bool-cases (n == 0)) [
    | inl e ↦ rw e (IsNew-of_size default_capacity (omega arith))
    | inr e ↦
        let some_size = ==_false→ne n 0 e in
        let (k, run, le, lt) = round_up_lem n (omega arith) small in
        rw e (IsNew-of_size (round_up n) (rw run (omega (arith, le, ne, some_size))))
  ]
