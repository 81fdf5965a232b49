-- ===== src/Hashmap/Faults.antt =====
-- Two uses of the code that go wrong: a map made for one entry, and a map that was cleared.
use statsite.Base.{
  ℕ, zero, suc, ◌+◌, ◌*◌, ◌<◌, ◌≡◌, ◌≢◌, sym, ap, ◌∙◌, List, Bool, true, false, Option, none, some,
  arith, lt→ltb, Option-cases, inl, inr, ◌>>=◌, replicate,
}
use statsite.Hashmap.{Hashmap, hashmap_put, hashmap_double_size, move_chains, empty_slot}
use statsite.Hashmap.Links.{
  Chain, entry, chain_get, chain_clear, chain_keys, clear_next, chain_insert,
}
use statsite.Hashmap.Put.{put_later}

some_injective {ℓ} : {A : Type ℓ} (a b : A) → some a ≡ some b → a ≡ b
some_injective a b e = ap (λ o. elim o [ none ↦ a | some x ↦ x ]) e

module _ {ℓ} {K V : Type ℓ} (hash : K → ℕ) (eq : K → K → Bool) where
  max_of :
      (map bigger : Hashmap K V) (o : Option (List (Chain K V)))
      → (o >>= (λ t.
          some (record map {
            table_size = map.table_size * 2;
            max_size = map.max_size * 2;
            table = t;
          })))
        ≡ some bigger
      → bigger.max_size ≡ map.max_size * 2
  max_of map bigger none e = absurd (cc)
  max_of map bigger (some t) e = ap (λ m. m.max_size) (sym (some_injective _ bigger e))

  double-max :
      (map bigger : Hashmap K V)
      → hashmap_double_size hash eq map ≡ some bigger
      → bigger.max_size ≡ map.max_size * 2
  unfolding hashmap_double_size
  double-max map bigger e =
      max_of map bigger
        (move_chains hash eq map.table (replicate (map.table_size * 2) empty_slot)
          (map.table_size * 2))
        e

  put_fault :
      (fuel : ℕ) (map : Hashmap K V) (key : K) (value : V)
      → map.max_size < map.count + 1
      → hashmap_double_size hash eq map ≡ none
      → hashmap_put hash eq (suc fuel) map key value ≡ some none
  unfolding hashmap_put
  put_fault fuel map key value h e = rw (lt→ltb map.max_size (map.count + 1) h, e)

  -- In a map with no room at all, as hashmap_init makes it for the size 1, hashmap_put stores
  -- nothing however often it doubles the map.
  pub hashmap_put_no_room :
      (fuel : ℕ) (map : Hashmap K V) (key : K) (value : V) (r : Bool × Hashmap K V)
      → map.max_size ≡ 0
      → hashmap_put hash eq fuel map key value ≢ some (some r)
  unfolding hashmap_put
  hashmap_put_no_room zero map key value r z = λ h. absurd (cc)
  hashmap_put_no_room (suc fuel) map key value r z = λ h.
      elim (Option-cases (hashmap_double_size hash eq map)) [
        | inl e ↦
            (let f : hashmap_put hash eq (suc fuel) map key value ≡ some none =
                put_fault fuel map key value (omega arith) e in
              absurd (cc))
        | inr (bigger, e) ↦
            hashmap_put_no_room fuel bigger key value r (double-max map bigger e ∙ omega arith)
              (sym (put_later hash eq fuel map bigger key value (omega arith) e) ∙ h)
      ]

  -- A slot that held two entries, is cleared and gets a new one: the lookup of another key in it
  -- goes on to memory that was freed.
  pub clear_then_put_faults :
      (p q : K × V) (next : Chain K V) (rest : List (K × V)) (key : K) (value : V) (other : K)
      → chain_keys next ≡ some rest
      → eq key other ≡ false
      → (do
        cleared ← chain_clear (entry (some p) (entry (some q) next))
        (_, filled) ← chain_insert eq true key value cleared
        chain_get eq other filled)
        ≡ none
  unfolding chain_clear chain_keys clear_next chain_insert chain_get
  clear_then_put_faults p q next rest key value other e ne = rw (e, ne)
