-- ===== src/Hashmap/View.antt =====
-- A table of chains as a map from keys to values.
use statsite.Base.{
  ℕ, zero, suc, ◌+◌, ◌≤◌, ◌<◌, ◌≡◌, ◌≢◌, refl, sym, ◌∙◌, List, [], ◌∷◌, Bool, Option, none,
  if◌then◌else◌, arith, length, length-set, get_or, get_or-set_self, get_or-set_ne,
  get_or-replicate, length-replicate, set, replicate, ◌==◌, ==_self, ne→==_false, subst,
}
use statsite.Hashmap.{slot_of, empty_slot}
use statsite.Hashmap.Links.{Chain}
use statsite.Hashmap.Bucket.{IsSlot, pairs, lookup}
use statsite.Hashmap.Pairs.{Decides, occurrences}
use native.Mathlib.Nat.{mod-lt}
use native.Mathlib.Decide.{ℕ_discrete}

module _ {ℓ} {K V : Type ℓ} where
  abbrev pub chain_at : List (Chain K V) → ℕ → Chain K V
  chain_at table i = get_or table i empty_slot

  -- How many pairs the table holds.
  unfoldable pub total : List (Chain K V) → ℕ
  total [] = 0
  total (c ∷ cs) = length (pairs c) + total cs

  pub total-set :
      (table : List (Chain K V)) (i : ℕ) (c : Chain K V)
      → i < length table
      → total (set table i c) + length (pairs (chain_at table i)) ≡ total table + length (pairs c)
  unfolding total
  total-set [] i c h = absurd (omega arith)
  total-set (x ∷ table) zero c h = omega arith
  total-set (x ∷ table) (suc i) c h = omega (arith, total-set table i c (omega arith))

  pub chain_at-set :
      (table : List (Chain K V)) (i j : ℕ) (c : Chain K V)
      → i < length table
      → chain_at (set table i c) j ≡ (if i == j then c else chain_at table j)
  chain_at-set table i j c h = elim (ℕ_discrete i j) [
    | yes e ↦ rw (← e, ==_self i) (get_or-set_self table i c empty_slot h)
    | no ne ↦ rw (ne→==_false i j ne) (get_or-set_ne table i j c empty_slot ne)
  ]

module _ {ℓ} {K V : Type ℓ} (hash : K → ℕ) (eq : K → K → Bool) (d : Decides eq) where
  -- What the table says of a key: what its chain says.
  unfoldable pub view : List (Chain K V) → ℕ → K → Option V
  view table size key = lookup eq key (pairs (chain_at table (slot_of hash size key)))

  -- Every chain is sound, holds only keys that belong to it, and holds a key at most once.
  pub record IsTable (size : ℕ) (table : List (Chain K V)) : Type ℓ where
    pub some_slot : 0 < size
    pub width : length table ≡ size
    pub slots : (i : ℕ) → IsSlot (chain_at table i)
    pub placed :
        (i : ℕ) (key : K)
        → slot_of hash size key ≢ i
        → occurrences eq d key (pairs (chain_at table i)) ≡ 0
    pub once : (i : ℕ) (key : K) → occurrences eq d key (pairs (chain_at table i)) ≤ 1

  -- One chain is replaced by one that differs at a key only.
  module _ (size : ℕ) (table : List (Chain K V)) (v : IsTable size table) (key : K)
      (c : Chain K V) where
    pub home_in : slot_of hash size key < length table
    home_in = rw v.width (mod-lt _ v.some_slot)

    -- A fact about the chains of the new table: the new chain, and the old ones elsewhere.
    at_each :
        (P : ℕ → Chain K V → Type 0)
        → P (slot_of hash size key) c
        → ((i : ℕ) → slot_of hash size key ≢ i → P i (chain_at table i))
        → (i : ℕ) → P i (chain_at (set table (slot_of hash size key) c) i)
    at_each P here there i = elim (ℕ_discrete (slot_of hash size key) i) [
      | yes e ↦
          let self = get_or-set_self table (slot_of hash size key) c empty_slot home_in in
          subst (λ k. P k (chain_at (set table (slot_of hash size key) c) k)) e
            (subst (P (slot_of hash size key)) (sym self) here)
      | no ne ↦
          let other = get_or-set_ne table (slot_of hash size key) i c empty_slot ne in
          subst (P i) (sym other) (there i ne)
    ]

    pub set-IsTable :
        IsSlot c
        → ((j : K) → slot_of hash size j ≢ slot_of hash size key → occurrences eq d j (pairs c) ≡ 0)
        → ((j : K) → occurrences eq d j (pairs c) ≤ 1)
        → IsTable size (set table (slot_of hash size key) c)
    set-IsTable slot apart once = record {
      some_slot = v.some_slot;
      width = length-set table (slot_of hash size key) c ∙ v.width;
      slots = at_each (λ _. IsSlot) slot (λ i _. v.slots i);
      placed = λ i j.
          at_each (λ k x. slot_of hash size j ≢ k → occurrences eq d j (pairs x) ≡ 0) (apart j)
            (λ k _. v.placed k j) i;
      once =
          λ i j. at_each (λ _ x. occurrences eq d j (pairs x) ≤ 1) (once j) (λ k _. v.once k j) i;
    }

    -- What the new table says of any key.
    pub view-set :
        (j : K)
        → view (set table (slot_of hash size key) c) size j ≡ (
            if slot_of hash size key == slot_of hash size j
            then lookup eq j (pairs c)
            else view table size j)
    unfolding view
    view-set j =
        rw (chain_at-set table (slot_of hash size key) (slot_of hash size j) c home_in)
          (ground arith)

  -- A table of empty chains.
  pub replicate-IsTable :
      (size : ℕ) → 0 < size → IsTable size (replicate {A = Chain K V} size empty_slot)
  unfolding pairs occurrences
  replicate-IsTable size pos =
      let empty = λ (i : ℕ). get_or-replicate {A = Chain K V} size empty_slot i in
      record {
        some_slot = pos;
        width = length-replicate size empty_slot;
        slots = λ i. subst IsSlot (sym (empty i)) tt;
        placed = λ i j ne. rw (empty i) refl;
        once = λ i j. rw (empty i) (omega arith);
      }

  pub view-replicate :
      (size : ℕ) (j : K) → view (replicate {A = Chain K V} size empty_slot) size j ≡ none
  unfolding view pairs lookup
  view-replicate size j =
      rw (get_or-replicate {A = Chain K V} size empty_slot (slot_of hash size j))

pub total-replicate {ℓ} :
    (K V : Type ℓ) (size : ℕ) → total (replicate {A = Chain K V} size empty_slot) ≡ 0
unfolding total pairs
total-replicate K V zero = refl
total-replicate K V (suc n) = omega (arith, total-replicate K V n)
