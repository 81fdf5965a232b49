-- ===== src/PriorityHeap/Table.antt =====
-- How often a table holds the entries that a test accepts, and how writes change that.
use statsite.Base.{ℕ, zero, suc, ◌+◌, ◌≤◌, ◌<◌, ◌≡◌, refl, arith, Bool, true, false}
use statsite.PriorityHeap.{Entry, Table, update, swap_entries}

abbrev pub one_if : Bool → ℕ
one_if true = 1
one_if false = 0

module _ {ℓ} {K V : Type ℓ} where
  -- Among the first `n` entries, those that pass the test. Two tables that agree on this for every
  -- test hold the same entries, each as often.
  unfoldable pub count : (Entry K V → Bool) → Table K V → ℕ → ℕ
  count p t zero = 0
  count p t (suc n) = count p t n + one_if (p (t n))

  pub count_congr :
      (p : Entry K V → Bool) (t u : Table K V) (n : ℕ)
      → ((i : ℕ) → i < n → t i ≡ u i)
      → count p t n ≡ count p u n
  unfolding count
  count_congr p t u zero h = refl
  count_congr p t u (suc n) h =
      rw (count_congr p t u n (λ i lt. h i (omega arith)), h n (omega arith))

  pub count-update_past :
      (p : Entry K V → Bool) (t : Table K V) (n i : ℕ) (e : Entry K V)
      → n ≤ i
      → count p (update t i e) n ≡ count p t n
  count-update_past p t n i e h = count_congr p (update t i e) t n (λ j lt. ground arith)

  -- A write trades the old entry for the new one.
  pub count-update :
      (p : Entry K V → Bool) (t : Table K V) (n i : ℕ) (e : Entry K V)
      → i < n
      → count p (update t i e) n + one_if (p (t i)) ≡ count p t n + one_if (p e)
  unfolding count
  count-update p t zero i e h = absurd (omega arith)
  count-update p t (suc n) i e h =
      ground (arith, count-update p t n i e, count-update_past p t n i e)

  pub count-swap :
      (p : Entry K V → Bool) (t : Table K V) (n i j : ℕ)
      → i < n
      → j < n
      → count p (swap_entries t i j) n ≡ count p t n
  unfolding swap_entries
  count-swap p t n i j hi hj =
      ground (arith, count-update p t n i (t j) hi, count-update p (update t i (t j)) n j (t i) hj)
