-- ===== src/PriorityHeap/Order.antt =====
-- The heap order, and the laws of a comparison function that it rests on.
use statsite.Base.{ℕ, zero, suc, ◌*◌, ◌≤◌, ◌<◌, ◌≡◌, arith, Bool, true, false}
use statsite.PriorityHeap.{Sign, minus_one, plus_one, Table, Heap, parent_entry}

-- "At most", as the comparison tells it.
abbrev pub leq {ℓ} : {K : Type ℓ} → (K → K → Sign) → K → K → Bool
leq cmp a b = elim (cmp a b) [ plus_one ↦ false | _ ↦ true ]

-- A total order, read from both sides.
pub record IsOrder {ℓ} {K : Type ℓ} (cmp : K → K → Sign) : Type ℓ where
  pub flip_plus : (a b : K) → cmp a b ≡ plus_one → cmp b a ≡ minus_one
  pub flip_minus : (a b : K) → cmp a b ≡ minus_one → cmp b a ≡ plus_one
  pub leq_refl : (a : K) → leq cmp a a ≡ true
  pub leq_trans : (a b c : K) → leq cmp a b ≡ true → leq cmp b c ≡ true → leq cmp a c ≡ true

module _ {ℓ} {K V : Type ℓ} (cmp : K → K → Sign) where
  -- No entry has a smaller key than its parent.
  abbrev pub IsOrdered : Table K V → ℕ → Type 0
  IsOrdered t n = (c : ℕ) → 0 < c → c < n → leq cmp (t (parent_entry c)).key (t c).key ≡ true

  module _ (o : IsOrder cmp) where
    -- Nothing is smaller than the root.
    pub root_least :
        (t : Table K V) (n : ℕ)
        → IsOrdered t n
        → (k i : ℕ) → i < k
        → i < n
        → leq cmp (t 0).key (t i).key ≡ true
    root_least t n h zero i b lt = elim b [ ]
    root_least t n h (suc k) zero b lt = o.leq_refl (t 0).key
    root_least t n h (suc k) (suc i) b lt =
        o.leq_trans (t 0).key (t (parent_entry (suc i))).key (t (suc i)).key
          (root_least t n h k (parent_entry (suc i)) (omega arith) (omega arith))
          (h (suc i) (omega arith) lt)

-- A heap in its pages: ordered, with room for its entries, and never smaller than it was made.
pub record IsHeap {ℓ} {K V : Type ℓ} (cmp : K → K → Sign) (per_page : ℕ) (h : Heap K V)
    : Type 0 where
  pub ordered : IsOrdered cmp h.table h.active_entries
  pub room : h.active_entries ≤ h.allocated_pages * per_page
  pub some_page : 0 < h.minimum_pages
  pub least_pages : h.minimum_pages ≤ h.allocated_pages
