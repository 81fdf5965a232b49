-- ===== src/Hashmap/Resize.antt =====
-- A resize: every pair moves to the chain of its hash in the new array, and the map is the same.
use statsite.Base.{
  ℕ, ◌+◌, ◌≤◌, ◌≡◌, ◌≢◌, refl, sym, ap, ◌∙◌, List, [], ◌∷◌, ◌++◌, Bool, Option, some, arith, length,
  length-append, set, ==_self, ne→==_false,
}
use statsite.Hashmap.{slot_of, hashmap_insert_table, move_entries}
use statsite.Hashmap.Links.{Chain}
use statsite.Hashmap.Bucket.{IsSlot, pairs, lookup, chain_insert-Appends}
use statsite.Hashmap.Pairs.{
  Decides, bit, occurrences, lookup-append, occurrences-append, or_else, or_else_assoc,
  or_else-none,
}
use statsite.Hashmap.View.{
  chain_at, total, total-set, chain_at-set, view, IsTable, home_in, set-IsTable,
}
use statsite.Hashmap.Methods.{apart}
use native.Mathlib.Decide.{ℕ_discrete}

module _ {ℓ} {K V : Type ℓ} (hash : K → ℕ) (eq : K → K → Bool) (d : Decides eq) (size : ℕ) where
  -- How often a key's own chain holds it.
  unfoldable pub here : List (Chain K V) → K → ℕ
  here table j = occurrences eq d j (pairs (chain_at table (slot_of hash size j)))

  -- A table that has taken the pairs `ps` in.
  pub record Takes (ps : List (K × V)) (table : List (Chain K V)) (r : Option (List (Chain K V)))
      : Type ℓ where
    pub after : List (Chain K V)
    pub runs : r ≡ some after
    pub table_ok : IsTable hash eq d size after
    pub sum : total after ≡ total table + length ps
    pub here_after : (j : K) → here after j ≡ here table j + occurrences eq d j ps
    pub views :
        (j : K)
        → view hash eq d after size j ≡ or_else (view hash eq d table size j) (lookup eq j ps)

  module _ (table : List (Chain K V)) (v : IsTable hash eq d size table) (k : K) (x : V)
      (c : Chain K V) (slot : IsSlot c)
      (holds : pairs c ≡ pairs (chain_at table (slot_of hash size k)) ++ (k, x) ∷ [])
      (room : (j : K) → here table j + bit (eq k j) ≤ 1) where
    abbrev home : List (K × V)
    home = pairs (chain_at table (slot_of hash size k))

    occurs : (j : K) → occurrences eq d j (pairs c) ≡ occurrences eq d j home + bit (eq k j)
    unfolding occurrences
    occurs j = rw (holds, occurrences-append eq d j home ((k, x) ∷ [])) (omega arith)

    occurs_apart :
        (j : K) → slot_of hash size j ≢ slot_of hash size k → occurrences eq d j (pairs c) ≡ 0
    occurs_apart j ne =
        rw (occurs j, v.placed (slot_of hash size k) j ne, apart hash eq d size k j ne)

    occurs_once : (j : K) → occurrences eq d j (pairs c) ≤ 1
    unfolding here
    occurs_once j = elim (ℕ_discrete (slot_of hash size j) (slot_of hash size k)) [
      | yes e ↦ rw (occurs j, ← e) (room j)
      | no ne ↦ rw (occurs_apart j ne) (omega arith)
    ]

    append_table : IsTable hash eq d size (set table (slot_of hash size k) c)
    append_table = set-IsTable hash eq d size table v k c slot occurs_apart occurs_once

    append_total : total (set table (slot_of hash size k) c) ≡ total table + 1
    append_total = omega (
      arith,
      total-set table (slot_of hash size k) c (home_in hash eq d size table v k c),
      ap length holds ∙ length-append home ((k, x) ∷ []),
    )

    at_home :
        (j : K)
        → slot_of hash size k ≡ slot_of hash size j
        → chain_at (set table (slot_of hash size k) c) (slot_of hash size j) ≡ c
    at_home j e = rw (
      chain_at-set table (slot_of hash size k) (slot_of hash size j) c
          (home_in hash eq d size table v k c),
      e,
      ==_self (slot_of hash size j),
    )

    elsewhere :
        (j : K)
        → slot_of hash size k ≢ slot_of hash size j
        → chain_at (set table (slot_of hash size k) c) (slot_of hash size j)
          ≡ chain_at table (slot_of hash size j)
    elsewhere j ne = rw (
      chain_at-set table (slot_of hash size k) (slot_of hash size j) c
          (home_in hash eq d size table v k c),
      ne→==_false (slot_of hash size k) (slot_of hash size j) ne,
    )

    append_here : (j : K) → here (set table (slot_of hash size k) c) j ≡ here table j + bit (eq k j)
    unfolding here
    append_here j = elim (ℕ_discrete (slot_of hash size k) (slot_of hash size j)) [
      | yes e ↦ rw (at_home j e, occurs j, e)
      | no ne ↦ rw (elsewhere j ne, apart hash eq d size k j (λ e. ne (sym e))) (omega arith)
    ]

    append_views :
        (j : K)
        → view hash eq d (set table (slot_of hash size k) c) size j
          ≡ or_else (view hash eq d table size j) (lookup eq j ((k, x) ∷ []))
    unfolding view lookup
    append_views j = elim (ℕ_discrete (slot_of hash size k) (slot_of hash size j)) [
      | yes e ↦ rw (at_home j e, holds, lookup-append eq d j home ((k, x) ∷ []), e)
      | no ne ↦
          rw (elsewhere j ne, apart hash eq d size k j (λ e. ne (sym e)))
            (sym (or_else-none (view hash eq d table size j)))
    ]

  pub move_entries-Takes :
      (ps : List (K × V)) (table : List (Chain K V))
      → IsTable hash eq d size table
      → ((j : K) → here table j + occurrences eq d j ps ≤ 1)
      → Takes ps table (move_entries hash eq ps table size)
  unfolding move_entries hashmap_insert_table occurrences lookup
  move_entries-Takes [] table v room = record {
    after = table;
    runs = refl;
    table_ok = v;
    sum = omega arith;
    here_after = λ j. omega arith;
    views = λ j. sym (or_else-none (view hash eq d table size j));
  }
  move_entries-Takes ((k, x) ∷ ps) table v room =
      let app =
        chain_insert-Appends eq k x (chain_at table (slot_of hash size k))
          (v.slots (slot_of hash size k)) in
      let fits : (j : K) → here table j + bit (eq k j) ≤ 1 = λ j. omega (arith, room j) in
      let grown = append_here table v k x app.chain app.sound app.holds fits in
      let rest =
        move_entries-Takes ps (set table (slot_of hash size k) app.chain)
          (append_table table v k x app.chain app.sound app.holds fits)
          (λ j. rw (grown j) (omega (arith, room j))) in
      record {
        after = rest.after;
        runs = rw app.runs rest.runs;
        table_ok = rest.table_ok;
        sum = omega (arith, rest.sum, append_total table v k x app.chain app.sound app.holds fits);
        here_after = λ j. omega (arith, rest.here_after j, grown j);
        views = λ j.
            rest.views j
            ∙ ap (λ o. or_else o (lookup eq j ps))
                (append_views table v k x app.chain app.sound app.holds fits j)
            ∙ or_else_assoc (view hash eq d table size j) (lookup eq j ((k, x) ∷ []))
                (lookup eq j ps)
            ∙ ap (or_else (view hash eq d table size j))
                (sym (lookup-append eq d j ((k, x) ∷ []) ps));
      }
