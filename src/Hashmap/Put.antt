-- ===== src/Hashmap/Put.antt =====
-- `hashmap_put`, through the resize that it may need.
use statsite.Base.{
  ℕ, suc, ◌+◌, ◌≤◌, ◌<◌, ◌≡◌, Bool, true, false, not, Option, some, if◌then◌else◌, arith, ltb,
  ltb→lt, lt→ltb, ltb_false→le, le→ltb_false, Bool-cases, inl, inr,
}
use statsite.Hashmap.{Hashmap, put_here, hashmap_put, hashmap_double_size}
use statsite.Hashmap.Pairs.{Decides, found}
use statsite.Hashmap.Methods.{IsMap, reads, holds_key, holds_key-found, put_here-Changes}
use statsite.Hashmap.Doubling.{hashmap_double_size_keeps}

at_most_one : (b : Bool) → (if b then 0 else 1) ≤ 1
at_most_one true = omega arith
at_most_one false = omega arith

module _ {ℓ} {K V : Type ℓ} (hash : K → ℕ) (eq : K → K → Bool) where
  put_now :
      (fuel : ℕ) (map : Hashmap K V) (key : K) (value : V)
      → map.count + 1 ≤ map.max_size
      → hashmap_put hash eq (suc fuel) map key value ≡ some (put_here hash eq map key value)
  unfolding hashmap_put
  put_now fuel map key value h = rw (le→ltb_false map.max_size (map.count + 1) h)

  pub put_later :
      (fuel : ℕ) (map bigger : Hashmap K V) (key : K) (value : V)
      → map.max_size < map.count + 1
      → hashmap_double_size hash eq map ≡ some bigger
      → hashmap_put hash eq (suc fuel) map key value ≡ hashmap_put hash eq fuel bigger key value
  unfolding hashmap_put
  put_later fuel map bigger key value h e = rw (lt→ltb map.max_size (map.count + 1) h, e)

module _ {ℓ} {K V : Type ℓ} (hash : K → ℕ) (eq : K → K → Bool) (d : Decides eq) where
  -- A map that a put has left.
  pub record Puts (map : Hashmap K V) (key : K) (value : V)
      (r : Option (Option (Bool × Hashmap K V))) : Type ℓ where
    pub after : Hashmap K V
    pub runs : r ≡ some (some (not (found (reads hash eq d map key)), after))
    pub ok : IsMap hash eq d after
    pub count_after : after.count ≡ map.count + (if found (reads hash eq d map key) then 0 else 1)
    pub reads_after :
        (j : K) → reads hash eq d after j ≡ (if eq key j then some value else reads hash eq d map j)

  Puts-here :
      (fuel : ℕ) (map : Hashmap K V) (key : K) (value : V)
      → IsMap hash eq d map
      → map.count + 1 ≤ map.max_size
      → Puts map key value (hashmap_put hash eq (suc fuel) map key value)
  Puts-here fuel map key value v h =
      let (after, run, changes, count) = put_here-Changes hash eq d map v key value in
      record {
        after = after;
        runs = rw (put_now hash eq fuel map key value h, run, holds_key-found hash eq d map key);
        ok = record {
          table_ok = changes.table_ok;
          counted = changes.counted;
          some_room = rw changes.same_max v.some_room;
          load =
              rw (changes.same_max, count)
                (omega (arith, h, at_most_one (holds_key hash eq d map key)));
        };
        count_after = rw (← holds_key-found hash eq d map key) count;
        reads_after = changes.reads_after;
      }

  -- On a map in order hashmap_put needs at most one resize, touches no freed memory and leaves a
  -- map in order, in which the key has the value and every other key what it had; it reports
  -- whether the key is new, and counts it then.
  pub hashmap_put_stores :
      (fuel : ℕ) (map : Hashmap K V) (key : K) (value : V)
      → IsMap hash eq d map
      → Puts map key value (hashmap_put hash eq (suc (suc fuel)) map key value)
  hashmap_put_stores fuel map key value v = elim (Bool-cases (ltb map.max_size (map.count + 1))) [
    | inr e ↦ Puts-here (suc fuel) map key value v (ltb_false→le map.max_size (map.count + 1) e)
    | inl e ↦
        let (bigger, run, doubles) = hashmap_double_size_keeps hash eq d map v in
        let put =
          Puts-here fuel bigger key value doubles.ok
            (omega (arith, doubles.same_count, doubles.twice_max, v.load, v.some_room)) in
        record {
          after = put.after;
          runs = rw (
            put_later hash eq (suc fuel) map bigger key value
                (ltb→lt map.max_size (map.count + 1) e) run,
            put.runs,
            doubles.same_reads key,
          );
          ok = put.ok;
          count_after = rw (put.count_after, doubles.same_count, doubles.same_reads key);
          reads_after = λ j. rw (put.reads_after j, doubles.same_reads j);
        }
  ]
