-- ===== src/Hashmap/Remove.antt =====
-- `hashmap_delete` on a map in order.
use statsite.Base.{
  ℕ, ◌+◌, ◌≡◌, refl, Bool, false, Option, none, some, if◌then◌else◌, arith, Bool-cases, inl, inr,
}
use statsite.Hashmap.{Hashmap, hashmap_delete}
use statsite.Hashmap.Pairs.{Decides, found}
use statsite.Hashmap.Methods.{IsMap, reads, holds_key-found, hashmap_delete-Changes}

found-none {ℓ} : {V : Type ℓ} (o : Option V) → found o ≡ false → o ≡ none
found-none none h = refl
found-none (some v) h = absurd (cc)

module _ {ℓ} {K V : Type ℓ} (hash : K → ℕ) (eq : K → K → Bool) (d : Decides eq) where
  absent :
      (map : Hashmap K V) (key j : K)
      → found (reads hash eq d map key) ≡ false
      → reads hash eq d map j ≡ (if eq key j then none else reads hash eq d map j)
  absent map key j h = elim (Bool-cases (eq key j)) [
    | inl e ↦ rw (e, ← (d key j).0 e) (found-none (reads hash eq d map key) h)
    | inr e ↦ rw e
  ]

  -- The map that a deletion leaves, or would leave when the key is there.
  pub record Removes (map : Hashmap K V) (key : K) (r : Option (Option (Hashmap K V)))
      : Type ℓ where
    pub after : Hashmap K V
    pub runs : r ≡ some (if found (reads hash eq d map key) then some after else none)
    pub ok : IsMap hash eq d after
    pub count_after : after.count + (if found (reads hash eq d map key) then 1 else 0) ≡ map.count
    pub reads_after :
        (j : K) → reads hash eq d after j ≡ (if eq key j then none else reads hash eq d map j)

  -- On a map in order hashmap_delete touches no freed memory. When the key is there the map that it
  -- leaves is in order, lacks the key only and counts one less; else it fails.
  pub hashmap_delete-Removes :
      (map : Hashmap K V) (key : K)
      → IsMap hash eq d map
      → Removes map key (hashmap_delete hash eq map key)
  hashmap_delete-Removes map key v =
      let (after, run, way) = hashmap_delete-Changes hash eq d map v key in
      let same = holds_key-found hash eq d map key in
      elim (Bool-cases (found (reads hash eq d map key))) [
        | inr e ↦ record {
          after = map;
          runs = rw (run, same, e);
          ok = v;
          count_after = rw e (omega arith);
          reads_after = λ j. absent map key j e;
        }
        | inl e ↦ elim way [
          | inl gone ↦ absurd (cc)
          | inr (changes, count) ↦ record {
            after = after;
            runs = rw (run, same, e);
            ok = record {
              table_ok = changes.table_ok;
              counted = changes.counted;
              some_room = rw changes.same_max v.some_room;
              load = rw changes.same_max (omega (arith, v.load, count));
            };
            count_after = rw e count;
            reads_after = changes.reads_after;
          }
        ]
      ]
