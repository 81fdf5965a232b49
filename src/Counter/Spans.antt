-- ===== src/Counter/Spans.antt =====
-- The least and the greatest sample of a counter.
use statsite.Base.{
  ℕ, zero, suc, ◌+◌, ◌^◌, ◌<◌, ◌≡◌, refl, ◌∙◌, List, [], ◌∷◌, Bool, true, false, Bool-cases, inl,
  inr, ◌⊎◌, arith, length, get_or, ◌==◌, ne→==_false,
}
use statsite.Doubles.{Doubles}
use statsite.Counter.{
  Counter, init_counter, new_min, new_max, counter_add_sample, counter_count, counter_min,
  counter_max,
}

-- What the theorems ask of the order of the samples; doubles that are not NaN have it.
pub record IsStrict {D : Type 0} (less : D → D → Bool) : Type 0 where
  pub irrefl : (x : D) → less x x ≡ false
  pub trans : (x y z : D) → less x y ≡ true → less y z ≡ true → less x z ≡ true

-- One of the values of a list.
abbrev pub Among : {D : Type 0} → D → List D → Type 0
Among y [] = ⊥
Among y (x ∷ xs) = (y ≡ x) ⊎ Among y xs

Among-drop :
    {D : Type 0} (y a b c : D) (xs : List D)
    → (a ≡ b) ⊎ (a ≡ c)
    → Among y (a ∷ xs)
    → Among y (b ∷ c ∷ xs)
Among-drop y a b c xs (inl e) (inl q) = inl (q ∙ e)
Among-drop y a b c xs (inr e) (inl q) = inr (inl (q ∙ e))
Among-drop y a b c xs e (inr later) = inr (inr later)

module _ {D : Type 0} (doubles : Doubles D) (strict : IsStrict doubles.less) where
  open doubles use {less}

  -- Neither below the least sample nor above the greatest.
  abbrev pub Within : Counter D → D → Type 0
  Within c y = (less y (counter_min doubles c) ≡ false) × (less (counter_max doubles c) y ≡ false)

  unfoldable pub add_samples : Counter D → List D → Counter D
  add_samples c [] = c
  add_samples c (x ∷ xs) = add_samples (counter_add_sample doubles c x) xs

  record IsFilled (c : Counter D) : Type 0 where
    some_sample : 0 < c.count
    ordered : less c.max c.min ≡ false

  not_less : (x y z : D) → less y z ≡ true → less x z ≡ false → less x y ≡ false
  not_less x y z below e = elim (Bool-cases (less x y)) [
    | inl q ↦ absurd (let r = strict.trans x y z q below in cc)
    | inr q ↦ q
  ]

  not_above : (x y z : D) → less x y ≡ true → less x z ≡ false → less y z ≡ false
  not_above x y z above e = elim (Bool-cases (less y z)) [
    | inl q ↦ absurd (let r = strict.trans x y z above q in cc)
    | inr q ↦ q
  ]

  module _ (c : Counter D) (x : D) (f : IsFilled c) where
    counts : (c.count == 0) ≡ false
    counts = ne→==_false c.count 0 (omega (arith, f.some_sample))

    add-keeps_Within : (y : D) → Within c y → Within (counter_add_sample doubles c x) y
    unfolding counter_add_sample new_min new_max counter_min counter_max
    add-keeps_Within y (low, high) = elim (Bool-cases (less x c.min)) [
      | inl e ↦ rw (counts, e) (not_less y x c.min e low, high)
      | inr e ↦ elim (Bool-cases (less c.max x)) [
        | inl q ↦ rw (counts, e, q) (low, not_above c.max x y q high)
        | inr q ↦ rw (counts, e, q) (low, high)
      ]
    ]

    add-takes_Within : Within (counter_add_sample doubles c x) x
    unfolding counter_add_sample new_min new_max counter_min counter_max
    add-takes_Within = elim (Bool-cases (less x c.min)) [
      | inl e ↦ rw (counts, e) (strict.irrefl x, not_less c.max x c.min e f.ordered)
      | inr e ↦ elim (Bool-cases (less c.max x)) [
        | inl q ↦ rw (counts, e, q) (e, strict.irrefl x)
        | inr q ↦ rw (counts, e, q) (e, q)
      ]
    ]

    stays_ordered : less (new_max doubles c x) (new_min doubles c x) ≡ false
    unfolding new_min new_max
    stays_ordered = elim (Bool-cases (less x c.min)) [
      | inl e ↦ rw (counts, e) (not_less c.max x c.min e f.ordered)
      | inr e ↦ elim (Bool-cases (less c.max x)) [
        | inl q ↦ rw (counts, e, q) e
        | inr q ↦ rw (counts, e, q) f.ordered
      ]
    ]

    add-IsFilled : c.count + 1 < 2 ^ 64 → IsFilled (counter_add_sample doubles c x)
    unfolding counter_add_sample
    add-IsFilled small = record { some_sample = omega arith; ordered = stays_ordered }

  counted :
      (c : Counter D) (x : D)
      → c.count + 1 < 2 ^ 64
      → (counter_add_sample doubles c x).count ≡ c.count + 1
  unfolding counter_add_sample
  counted c x small = omega arith

  -- What a run of samples leaves.
  run_keeps :
      (c : Counter D) (xs : List D) (y : D)
      → IsFilled c
      → c.count + length xs < 2 ^ 64
      → Within c y
      → Within (add_samples c xs) y
  unfolding add_samples
  run_keeps c [] y f small w = w
  run_keeps c (x ∷ xs) y f small w =
      run_keeps (counter_add_sample doubles c x) xs y (add-IsFilled c x f (omega arith))
        (omega (arith, counted c x (omega arith))) (add-keeps_Within c x f y w)

  run_takes :
      (c : Counter D) (xs : List D) (i : ℕ) (d : D)
      → IsFilled c
      → c.count + length xs < 2 ^ 64
      → i < length xs
      → Within (add_samples c xs) (get_or xs i d)
  unfolding add_samples
  run_takes c [] i d f small h = absurd (omega arith)
  run_takes c (x ∷ xs) zero d f small h =
      run_keeps (counter_add_sample doubles c x) xs x (add-IsFilled c x f (omega arith))
        (omega (arith, counted c x (omega arith))) (add-takes_Within c x f)
  run_takes c (x ∷ xs) (suc i) d f small h =
      run_takes (counter_add_sample doubles c x) xs i d (add-IsFilled c x f (omega arith))
        (omega (arith, counted c x (omega arith))) (omega arith)

  run_counts :
      (c : Counter D) (xs : List D)
      → c.count + length xs < 2 ^ 64
      → counter_count doubles (add_samples c xs) ≡ c.count + length xs
  unfolding add_samples counter_count
  run_counts c [] small = omega arith
  run_counts c (x ∷ xs) small =
      run_counts (counter_add_sample doubles c x) xs (omega (arith, counted c x (omega arith)))
      ∙ omega (arith, counted c x (omega arith))

  first-IsFilled : (x : D) → IsFilled (counter_add_sample doubles (init_counter doubles) x)
  unfolding counter_add_sample init_counter new_min new_max
  first-IsFilled x = record { some_sample = omega arith; ordered = strict.irrefl x }

  first-Within : (x : D) → Within (counter_add_sample doubles (init_counter doubles) x) x
  unfolding counter_add_sample init_counter new_min new_max counter_min counter_max
  first-Within x = (strict.irrefl x, strict.irrefl x)

  first_count : (x : D) → (counter_add_sample doubles (init_counter doubles) x).count ≡ 1
  unfolding counter_add_sample init_counter
  first_count x = omega arith

  rest-Within :
      (x : D) (xs : List D) (i : ℕ) (d : D)
      → 1 + length xs < 2 ^ 64
      → i < 1 + length xs
      → Within (add_samples (init_counter doubles) (x ∷ xs)) (get_or (x ∷ xs) i d)
  unfolding add_samples
  rest-Within x xs zero d small h =
      run_keeps (counter_add_sample doubles (init_counter doubles) x) xs x (first-IsFilled x)
        (omega (arith, first_count x)) (first-Within x)
  rest-Within x xs (suc i) d small h =
      run_takes (counter_add_sample doubles (init_counter doubles) x) xs i d (first-IsFilled x)
        (omega (arith, first_count x)) (omega arith)

  new_min-picks :
      (c : Counter D) (x : D) → (new_min doubles c x ≡ c.min) ⊎ (new_min doubles c x ≡ x)
  unfolding new_min
  new_min-picks c x = elim (Bool-cases (c.count == 0)) [
    | inl z ↦ rw (z, new_min) (inr refl)
    | inr z ↦ elim (Bool-cases (less x c.min)) [
      | inl e ↦ rw (z, e, new_min) (inr refl)
      | inr e ↦ rw (z, e, new_min) (inl refl)
    ]
  ]

  new_max-picks :
      (c : Counter D) (x : D) → (new_max doubles c x ≡ c.max) ⊎ (new_max doubles c x ≡ x)
  unfolding new_max
  new_max-picks c x = elim (Bool-cases (c.count == 0)) [
    | inl z ↦ rw (z, new_max) (inr refl)
    | inr z ↦ elim (Bool-cases (less x c.min)) [
      | inl e ↦ rw (z, e, new_max) (inl refl)
      | inr e ↦ elim (Bool-cases (less c.max x)) [
        | inl q ↦ rw (z, e, q, new_max) (inr refl)
        | inr q ↦ rw (z, e, q, new_max) (inl refl)
      ]
    ]
  ]

  run_picks :
      (c : Counter D) (xs : List D)
      → Among (counter_min doubles (add_samples c xs)) (c.min ∷ xs)
        × Among (counter_max doubles (add_samples c xs)) (c.max ∷ xs)
  unfolding add_samples counter_min counter_max counter_add_sample
  run_picks c [] = (inl refl, inl refl)
  run_picks c (x ∷ xs) =
      let (low, high) = run_picks (counter_add_sample doubles c x) xs in
      (
        Among-drop _ _ _ _ xs (new_min-picks c x) low,
        Among-drop _ _ _ _ xs (new_max-picks c x) high,
      )

  first_picks :
      (x : D) (xs : List D)
      → let c = add_samples (init_counter doubles) (x ∷ xs) in
        Among (counter_min doubles c) (x ∷ xs) × Among (counter_max doubles c) (x ∷ xs)
  unfolding add_samples init_counter counter_add_sample new_min new_max
  first_picks x xs = run_picks (counter_add_sample doubles (init_counter doubles) x) xs

  -- After a run of samples into a new counter, fewer than 2 ^ 64 and at least one, its count is
  -- their number, its minimum and its maximum are among them, and no sample is below its minimum or
  -- above its maximum, for an order of the samples that is irreflexive and transitive.
  pub counter_add_sample-Within :
      (x : D) (xs : List D) (i : ℕ) (d : D)
      → 1 + length xs < 2 ^ 64
      → i < 1 + length xs
      → let c = add_samples (init_counter doubles) (x ∷ xs) in
        (counter_count doubles c ≡ 1 + length xs)
        × Within c (get_or (x ∷ xs) i d)
        × Among (counter_min doubles c) (x ∷ xs)
        × Among (counter_max doubles c) (x ∷ xs)
  unfolding init_counter
  counter_add_sample-Within x xs i d small h =
      let (low, high) = first_picks x xs in
      (
        run_counts (init_counter doubles) (x ∷ xs) (omega arith) ∙ omega arith,
        rest-Within x xs i d small h,
        low,
        high,
      )
