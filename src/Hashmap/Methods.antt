-- ===== src/Hashmap/Methods.antt =====
-- Lookups, insertions that find room, and deletions.
use statsite.Base.{
  ℕ, ◌+◌, ◌-◌, ◌≤◌, ◌<◌, ◌≡◌, ◌≢◌, refl, sym, ap, ◌∙◌, List, Bool, true, false, not, Option, none,
  some, if◌then◌else◌, arith, length, ◌==◌, Bool-cases, inl, inr, ◌⊎◌, set, ==_self, ne→==_false,
}
use statsite.Hashmap.{Hashmap, slot_of, hashmap_get, hashmap_insert_table, put_here, hashmap_delete}
use statsite.Hashmap.Links.{Chain}
use statsite.Hashmap.Bucket.{
  IsSlot, IsSlot-IsSound, pairs, lookup, assign, erase, has, chain_get-lookup, chain_insert-Inserts,
  chain_delete-Deletes,
}
use statsite.Hashmap.Pairs.{
  Decides, found, has-lookup, occurrences, lookup-assign, occurrences-assign, occurrences-zero,
  lookup-erase, occurrences-erase, length-assign, length-erase,
}
use statsite.Hashmap.View.{
  chain_at, total, total-set, view, IsTable, home_in, set-IsTable, view-set,
}
use native.Mathlib.Decide.{ℕ_discrete}

bump : (b : Bool) (n : ℕ) → (if not b then n + 1 else n) ≡ n + (if b then 0 else 1)
bump true n = omega arith
bump false n = refl

module _ {ℓ} {K : Type ℓ} (hash : K → ℕ) (eq : K → K → Bool) (d : Decides eq) where
  -- Keys with one hash are in one chain.
  pub apart :
      (size : ℕ) (key j : K) → slot_of hash size j ≢ slot_of hash size key → eq key j ≡ false
  apart size key j ne = elim (Bool-cases (eq key j)) [
    | inl e ↦ absurd (ne (ap (slot_of hash size) (sym ((d key j).0 e))))
    | inr e ↦ e
  ]

module _ {ℓ} {K V : Type ℓ} (hash : K → ℕ) (eq : K → K → Bool) (d : Decides eq) where
  -- A map whose table is in order and whose counter is right.
  pub record IsMap (map : Hashmap K V) : Type ℓ where
    pub table_ok : IsTable hash eq d map.table_size map.table
    pub counted : map.count ≡ total map.table
    pub some_room : 0 < map.max_size
    pub load : map.count ≤ map.max_size

  abbrev pub reads : Hashmap K V → K → Option V
  reads map key = view hash eq d map.table map.table_size key

  -- On a map in order hashmap_get touches no freed memory, and answers with the value of the first
  -- pair with the key in the key's chain.
  pub hashmap_get-reads :
      (map : Hashmap K V)
      → IsMap map
      → (key : K) → hashmap_get hash eq map key ≡ some (reads map key)
  unfolding hashmap_get view
  hashmap_get-reads map v key =
      chain_get-lookup eq key (chain_at map.table (slot_of hash map.table_size key)) (
        IsSlot-IsSound (chain_at map.table (slot_of hash map.table_size key))
          (v.table_ok.slots (slot_of hash map.table_size key)))

  -- Whether the map has the key.
  unfoldable pub holds_key : Hashmap K V → K → Bool
  holds_key map key = has eq key (pairs (chain_at map.table (slot_of hash map.table_size key)))

  pub holds_key-found : (map : Hashmap K V) (key : K) → holds_key map key ≡ found (reads map key)
  unfolding holds_key view
  holds_key-found map key =
      has-lookup eq key (pairs (chain_at map.table (slot_of hash map.table_size key)))

  -- A map after an operation at `key` that leaves `now` there.
  pub record Changes (map : Hashmap K V) (key : K) (now : Option V) (after : Hashmap K V)
      : Type ℓ where
    pub table_ok : IsTable hash eq d after.table_size after.table
    pub same_size : after.table_size ≡ map.table_size
    pub same_max : after.max_size ≡ map.max_size
    pub counted : after.count ≡ total after.table
    pub reads_after : (j : K) → reads after j ≡ (if eq key j then now else reads map j)

  module _ (map : Hashmap K V) (v : IsMap map) (key : K) where
    abbrev index : ℕ
    index = slot_of hash map.table_size key

    abbrev old : List (K × V)
    old = pairs (chain_at map.table index)

    -- What the changed chain says of a key, and what the others do.
    at_key :
        (j : K) (now : Option V)
        → (if index == slot_of hash map.table_size j
            then (if eq key j then now else lookup eq j old)
            else reads map j)
          ≡ (if eq key j then now else reads map j)
    unfolding view
    at_key j now = elim (ℕ_discrete index (slot_of hash map.table_size j)) [
      | yes e ↦ rw (e, ==_self (slot_of hash map.table_size j))
      | no ne ↦ rw (
        ne→==_false index (slot_of hash map.table_size j) ne,
        apart hash eq d map.table_size key j (λ e. ne (sym e)),
      )
    ]

    module _ (c : Chain K V) (value : V) (slot : IsSlot c)
        (holds : pairs c ≡ assign eq key value old) where
      put_once : (j : K) → occurrences eq d j (pairs c) ≤ 1
      put_once j = elim (Bool-cases (has eq key old)) [
        | inl e ↦
            rw (holds, occurrences-assign eq d key j value old, e)
              (omega (arith, v.table_ok.once index j))
        | inr e ↦ elim (Bool-cases (eq key j)) [
          | inl same ↦
              rw
                (
                  holds,
                  occurrences-assign eq d key j value old,
                  e,
                  same,
                  ← (d key j).0 same,
                  occurrences-zero eq d key old e,
                )
                (omega arith)
          | inr other ↦
              rw (holds, occurrences-assign eq d key j value old, e, other)
                (omega (arith, v.table_ok.once index j))
        ]
      ]

      put_apart : (j : K) → slot_of hash map.table_size j ≢ index → occurrences eq d j (pairs c) ≡ 0
      put_apart j ne =
          rw
            (
              holds,
              occurrences-assign eq d key j value old,
              v.table_ok.placed index j ne,
              apart hash eq d map.table_size key j ne,
            )
            (ground arith)

      put_total :
          total (set map.table index c) ≡ total map.table + (if has eq key old then 0 else 1)
      put_total = omega (
        arith,
        total-set map.table index c (home_in hash eq d map.table_size map.table v.table_ok key c),
        ap length holds ∙ length-assign eq d key value old,
      )

      put_reads :
          (j : K)
          → view hash eq d (set map.table index c) map.table_size j
            ≡ (if eq key j then some value else reads map j)
      put_reads j =
          rw
            (
              view-set hash eq d map.table_size map.table v.table_ok key c j,
              holds,
              lookup-assign eq d key j value old,
            )
            (at_key j (some value))

      pub put_table : IsTable hash eq d map.table_size (set map.table index c)
      put_table =
          set-IsTable hash eq d map.table_size map.table v.table_ok key c slot put_apart put_once

    -- With room, an insertion adds the pair or replaces the value.
    pub put_here-Changes :
        (value : V)
        → (after : Hashmap K V) × (put_here hash eq map key value
            ≡ some (not (holds_key map key), after))
          × Changes map key (some value) after
          × (after.count ≡ map.count + (if holds_key map key then 0 else 1))
    unfolding put_here hashmap_insert_table holds_key
    put_here-Changes value =
        let ins =
          chain_insert-Inserts eq key value (chain_at map.table index) (v.table_ok.slots index) in
        let table' = set map.table index ins.chain in
        let after = record map {
          table = table';
          count = if not (has eq key old) then map.count + 1 else map.count;
        } in
        (
          after,
          rw ins.runs,
          record {
            table_ok = put_table ins.chain value ins.sound ins.holds;
            same_size = refl;
            same_max = refl;
            counted =
                bump (has eq key old) map.count
                ∙ ap (λ n. n + (if has eq key old then 0 else 1)) v.counted
                ∙ sym (put_total ins.chain value ins.sound ins.holds);
            reads_after = put_reads ins.chain value ins.sound ins.holds;
          },
          bump (has eq key old) map.count,
        )

    module _ (c : Chain K V) (slot : IsSlot c) (holds : pairs c ≡ erase eq key old) where
      delete_once : (j : K) → occurrences eq d j (pairs c) ≤ 1
      delete_once j =
          rw holds (omega (arith, occurrences-erase eq d key j old, v.table_ok.once index j))

      delete_apart :
          (j : K) → slot_of hash map.table_size j ≢ index → occurrences eq d j (pairs c) ≡ 0
      delete_apart j ne =
          rw holds (omega (arith, occurrences-erase eq d key j old, v.table_ok.placed index j ne))

      pub delete_table : IsTable hash eq d map.table_size (set map.table index c)
      delete_table =
          set-IsTable hash eq d map.table_size map.table v.table_ok key c slot delete_apart
            delete_once

      delete_total : has eq key old ≡ true → total (set map.table index c) + 1 ≡ total map.table
      delete_total h = omega (
        arith,
        total-set map.table index c (home_in hash eq d map.table_size map.table v.table_ok key c),
        ap length holds,
        length-erase eq d key old h,
      )

      delete_reads :
          (j : K)
          → view hash eq d (set map.table index c) map.table_size j
            ≡ (if eq key j then none else reads map j)
      delete_reads j =
          rw
            (
              view-set hash eq d map.table_size map.table v.table_ok key c j,
              holds,
              lookup-erase eq d key j old (v.table_ok.once index key),
            )
            (at_key j none)

    -- A deletion takes the key away when it is there, and changes nothing when it is not.
    pub hashmap_delete-Changes :
        (after : Hashmap K V) × (hashmap_delete hash eq map key
          ≡ some (if holds_key map key then some after else none))
        × ((holds_key map key ≡ false)
            ⊎ (Changes map key none after × (after.count + 1 ≡ map.count)))
    unfolding hashmap_delete holds_key
    hashmap_delete-Changes =
        let del =
          chain_delete-Deletes eq key (chain_at map.table index)
            (IsSlot-IsSound (chain_at map.table index) (v.table_ok.slots index)) in
        let slot = del.slot (v.table_ok.slots index) in
        let after = record map { table = set map.table index del.chain; count = map.count - 1 } in
        elim (Bool-cases (has eq key old)) [
          | inl e ↦ (
            after,
            rw (del.runs, e),
            inr (
              record {
                table_ok = delete_table del.chain slot del.holds;
                same_size = refl;
                same_max = refl;
                counted = omega (arith, delete_total del.chain slot del.holds e, v.counted);
                reads_after = delete_reads del.chain slot del.holds;
              },
              omega (arith, delete_total del.chain slot del.holds e, v.counted),
            ),
          )
          | inr e ↦ (after, rw (del.runs, e), inl e)
        ]
