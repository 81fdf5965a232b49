-- ===== src/Hashmap/Doubling.antt =====
-- The pairs of a whole table, and the doubled table that takes them all.
use statsite.Base.{
  ℕ, zero, suc, ◌+◌, ◌*◌, ◌≤◌, ◌<◌, ◌≡◌, ◌≢◌, refl, ap, ◌∙◌, List, [], ◌∷◌, ◌++◌, Bool, false, some,
  ◌>>=◌, arith, length, length-append, replicate, get_or-replicate, Option-cases, inl, inr, fun_ext,
}
use statsite.Hashmap.{
  Hashmap, slot_of, empty_slot, hashmap_insert_table, move_entries, move_chains,
  hashmap_double_size,
}
use statsite.Hashmap.Links.{Chain}
use statsite.Hashmap.Bucket.{IsSlot, IsSlot-IsSound, pairs, lookup, chain_keys-pairs}
use statsite.Hashmap.Pairs.{
  Decides, occurrences, lookup-none, lookup-append, occurrences-append, or_else, or_else-none,
}
use statsite.Hashmap.View.{
  chain_at, total, view, IsTable, replicate-IsTable, view-replicate, total-replicate,
}
use statsite.Hashmap.Methods.{IsMap, reads}
use statsite.Hashmap.Resize.{here, move_entries-Takes}
use native.Mathlib.Nat.{mod-lt}

module _ {ℓ} {K V : Type ℓ} where
  -- The pairs of all chains, in the order of the array.
  unfoldable pub all_pairs : List (Chain K V) → List (K × V)
  all_pairs [] = []
  all_pairs (c ∷ cs) = pairs c ++ all_pairs cs

  length-all_pairs : (cs : List (Chain K V)) → length (all_pairs cs) ≡ total cs
  unfolding all_pairs total
  length-all_pairs [] = refl
  length-all_pairs (c ∷ cs) =
      omega (arith, length-append (pairs c) (all_pairs cs), length-all_pairs cs)

module _ {ℓ} {K V : Type ℓ} (hash : K → ℕ) (eq : K → K → Bool) where
  move_entries-append :
      (ps qs : List (K × V)) (table : List (Chain K V)) (size : ℕ)
      → move_entries hash eq (ps ++ qs) table size
        ≡ (move_entries hash eq ps table size >>= (λ t. move_entries hash eq qs t size))
  unfolding move_entries
  move_entries-append [] qs table size = refl
  move_entries-append ((k, v) ∷ ps) qs table size =
      elim (Option-cases (hashmap_insert_table hash eq table size k v false)) [
        | inl e ↦ rw e
        | inr (r, e) ↦ rw e (move_entries-append ps qs r.1 size)
      ]

  move_chains-all_pairs :
      (cs : List (Chain K V)) (table : List (Chain K V)) (size : ℕ)
      → ((i : ℕ) → IsSlot (chain_at cs i))
      → move_chains hash eq cs table size ≡ move_entries hash eq (all_pairs cs) table size
  unfolding move_chains all_pairs move_entries
  move_chains-all_pairs [] table size ok = refl
  move_chains-all_pairs (c ∷ cs) table size ok =
      rw
        (
          chain_keys-pairs c (IsSlot-IsSound c (ok 0)),
          move_entries-append (pairs c) (all_pairs cs) table size,
        )
        (ap (λ f. move_entries hash eq (pairs c) table size >>= f)
          (fun_ext (λ t. move_chains-all_pairs cs t size (λ i. ok (suc i)))))

module _ {ℓ} {K V : Type ℓ} (eq : K → K → Bool) (d : Decides eq) (key : K) where
  occurrences-nowhere :
      (cs : List (Chain K V))
      → ((i : ℕ) → occurrences eq d key (pairs (chain_at cs i)) ≡ 0)
      → occurrences eq d key (all_pairs cs) ≡ 0
  unfolding occurrences all_pairs
  occurrences-nowhere [] h = refl
  occurrences-nowhere (c ∷ cs) h = omega (
    arith,
    occurrences-append eq d key (pairs c) (all_pairs cs),
    h 0,
    occurrences-nowhere cs (λ i. h (suc i)),
  )

  -- A key that only one chain can hold.
  module _ where
    occurrences-only :
        (cs : List (Chain K V)) (i : ℕ)
        → i < length cs
        → ((k : ℕ) → i ≢ k → occurrences eq d key (pairs (chain_at cs k)) ≡ 0)
        → occurrences eq d key (all_pairs cs) ≡ occurrences eq d key (pairs (chain_at cs i))
    unfolding all_pairs
    occurrences-only [] i h only = absurd (omega arith)
    occurrences-only (c ∷ cs) zero h only = omega (
      arith,
      occurrences-append eq d key (pairs c) (all_pairs cs),
      occurrences-nowhere cs (λ k. only (suc k) (λ e. omega arith)),
    )
    occurrences-only (c ∷ cs) (suc i) h only = omega (
      arith,
      occurrences-append eq d key (pairs c) (all_pairs cs),
      only 0 (λ e. omega arith),
      occurrences-only cs i (omega arith) (λ k ne. only (suc k) (λ e. ne (omega arith))),
    )

    lookup-only :
        (cs : List (Chain K V)) (i : ℕ)
        → i < length cs
        → ((k : ℕ) → i ≢ k → occurrences eq d key (pairs (chain_at cs k)) ≡ 0)
        → lookup eq key (all_pairs cs) ≡ lookup eq key (pairs (chain_at cs i))
    unfolding all_pairs or_else
    lookup-only [] i h only = absurd (omega arith)
    lookup-only (c ∷ cs) zero h only =
        rw
          (
            lookup-append eq d key (pairs c) (all_pairs cs),
            lookup-none eq d key (all_pairs cs)
                (occurrences-nowhere cs (λ k. only (suc k) (λ e. omega arith))),
          )
          (or_else-none (lookup eq key (pairs c)))
    lookup-only (c ∷ cs) (suc i) h only =
        rw
          (
            lookup-append eq d key (pairs c) (all_pairs cs),
            lookup-none eq d key (pairs c) (only 0 (λ e. omega arith)),
          )
          (lookup-only cs i (omega arith) (λ k ne. only (suc k) (λ e. ne (omega arith))))

empty_here {ℓ} :
    {K : Type ℓ} (V : Type ℓ) (hash : K → ℕ) (eq : K → K → Bool) (d : Decides eq) (size : ℕ) (j : K)
    → here hash eq d size (replicate {A = Chain K V} size empty_slot) j ≡ 0
unfolding here pairs occurrences
empty_here {K = K} V hash eq d size j =
    rw (get_or-replicate {A = Chain K V} size empty_slot (slot_of hash size j))

module _ {ℓ} {K V : Type ℓ} (hash : K → ℕ) (eq : K → K → Bool) (d : Decides eq) where
  module _ (size : ℕ) (table : List (Chain K V)) (v : IsTable hash eq d size table) (j : K) where
    in_range : slot_of hash size j < length table
    in_range = rw v.width (mod-lt (hash j) v.some_slot)

    all_pairs-once : occurrences eq d j (all_pairs table) ≤ 1
    all_pairs-once =
        rw (occurrences-only eq d j table (slot_of hash size j) in_range (λ k. v.placed k j))
          (v.once (slot_of hash size j) j)

    all_pairs-view : lookup eq j (all_pairs table) ≡ view hash eq d table size j
    unfolding view
    all_pairs-view = lookup-only eq d j table (slot_of hash size j) in_range (λ k. v.placed k j)

  -- A map with twice the room and the same pairs.
  pub record Doubles (map : Hashmap K V) (bigger : Hashmap K V) : Type ℓ where
    pub ok : IsMap hash eq d bigger
    pub same_count : bigger.count ≡ map.count
    pub twice_size : bigger.table_size ≡ map.table_size * 2
    pub twice_max : bigger.max_size ≡ map.max_size * 2
    pub same_reads : (j : K) → reads hash eq d bigger j ≡ reads hash eq d map j

  -- On a map in order hashmap_double_size touches no freed memory. It leaves a map in order with
  -- twice the room, in which every key has the value that it had.
  pub hashmap_double_size_keeps :
      (map : Hashmap K V)
      → IsMap hash eq d map
      → (bigger : Hashmap K V) × (hashmap_double_size hash eq map ≡ some bigger)
        × Doubles map bigger
  unfolding hashmap_double_size or_else
  hashmap_double_size_keeps map v =
      let size = map.table_size * 2 in
      let empty : List (Chain K V) = replicate size empty_slot in
      let pos : 0 < size = omega (arith, v.table_ok.some_slot) in
      let fits : (j : K)
          → here hash eq d size empty j + occurrences eq d j (all_pairs map.table) ≤ 1 =
        λ j. omega (
          arith,
          empty_here V hash eq d size j,
          all_pairs-once map.table_size map.table v.table_ok j,
        ) in
      let moved =
        move_entries-Takes hash eq d size (all_pairs map.table) empty
          (replicate-IsTable hash eq d size pos) fits in
      (
        record {
          count = map.count;
          table_size = size;
          max_size = map.max_size * 2;
          table = moved.after;
        },
        rw (move_chains-all_pairs hash eq map.table empty size v.table_ok.slots)
            (rw moved.runs refl),
        record {
          ok = record {
            table_ok = moved.table_ok;
            counted =
                omega (
                  arith,
                  moved.sum,
                  v.counted,
                  length-all_pairs map.table,
                  total-replicate K V size,
                );
            some_room = omega (arith, v.some_room);
            load = omega (arith, v.load);
          };
          same_count = refl;
          twice_size = refl;
          twice_max = refl;
          same_reads = λ j.
              moved.views j
              ∙ ap (λ o. or_else o (lookup eq j (all_pairs map.table)))
                  (view-replicate hash eq d size j)
              ∙ all_pairs-view map.table_size map.table v.table_ok j;
        },
      )
