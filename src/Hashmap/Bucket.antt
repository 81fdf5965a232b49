-- ===== src/Hashmap/Bucket.antt =====
-- A chain as the list of its pairs, and its operations on that list. A sound chain has no pointer to
-- freed memory, and an entry without a key only at its end.
use statsite.Base.{
  ◌≡◌, refl, ap, List, [], ◌∷◌, ◌++◌, Bool, true, false, not, Option, none, some, if◌then◌else◌,
  arith, Bool-cases, inl, inr,
}
use statsite.Hashmap.Links.{
  Chain, null, entry, freed, chain_keys, unlink, chain_get, link_insert, chain_insert, chain_delete,
}

abbrev pub IsEnd {ℓ} : {K V : Type ℓ} → Chain K V → Type 0
IsEnd null = Unit
IsEnd _ = ⊥

abbrev pub IsSound {ℓ} : {K V : Type ℓ} → Chain K V → Type 0
IsSound null = Unit
IsSound (entry none next) = IsEnd next
IsSound (entry (some p) next) = IsSound next
IsSound freed = ⊥

-- An entry of the array: there is one, empty or not.
abbrev pub IsSlot {ℓ} : {K V : Type ℓ} → Chain K V → Type 0
IsSlot null = ⊥
IsSlot (entry p next) = IsSound (entry p next)
IsSlot freed = ⊥

pub IsSlot-IsSound {ℓ} : {K V : Type ℓ} (c : Chain K V) → IsSlot c → IsSound c
IsSlot-IsSound null s = absurd s
IsSlot-IsSound (entry p next) s = s
IsSlot-IsSound freed s = absurd s

module _ {ℓ} {K V : Type ℓ} where
  unfoldable pub pairs : Chain K V → List (K × V)
  pairs null = []
  pairs (entry none next) = []
  pairs (entry (some p) next) = p ∷ pairs next
  pairs freed = []

  pub chain_keys-pairs : (c : Chain K V) → IsSound c → chain_keys c ≡ some (pairs c)
  unfolding chain_keys pairs
  chain_keys-pairs null s = refl
  chain_keys-pairs (entry none next) s = refl
  chain_keys-pairs (entry (some p) next) s = rw (chain_keys-pairs next s)
  chain_keys-pairs freed s = absurd s

-- The same operations on a list of pairs.
module _ {ℓ} {K V : Type ℓ} (eq : K → K → Bool) where
  unfoldable pub lookup : K → List (K × V) → Option V
  lookup key [] = none
  lookup key ((k, v) ∷ ps) = if eq k key then some v else lookup key ps

  unfoldable pub assign : K → V → List (K × V) → List (K × V)
  assign key value [] = (key, value) ∷ []
  assign key value ((k, v) ∷ ps) =
      if eq k key then (k, value) ∷ ps else (k, v) ∷ assign key value ps

  unfoldable pub erase : K → List (K × V) → List (K × V)
  erase key [] = []
  erase key ((k, v) ∷ ps) = if eq k key then ps else (k, v) ∷ erase key ps

  unfoldable pub has : K → List (K × V) → Bool
  has key [] = false
  has key ((k, v) ∷ ps) = if eq k key then true else has key ps

  pub chain_get-lookup :
      (key : K) (c : Chain K V) → IsSound c → chain_get eq key c ≡ some (lookup key (pairs c))
  unfolding chain_get lookup pairs
  chain_get-lookup key null s = refl
  chain_get-lookup key (entry none next) s = refl
  chain_get-lookup key (entry (some (k, v)) next) s = ground (arith, chain_get-lookup key next s)
  chain_get-lookup key freed s = absurd s

  -- What an insertion with a comparison does to a sound chain.
  pub record Inserts (key : K) (value : V) (c : Chain K V) (r : Option (Bool × Chain K V))
      : Type ℓ where
    pub chain : Chain K V
    pub runs : r ≡ some (not (has key (pairs c)), chain)
    pub sound : IsSlot chain
    pub holds : pairs chain ≡ assign key value (pairs c)

  link_insert-Inserts :
      (key : K) (value : V) (c : Chain K V)
      → IsSound c
      → Inserts key value c (link_insert eq true key value c)
  unfolding link_insert pairs assign has
  link_insert-Inserts key value null s = record { chain = _; runs = refl; sound = tt; holds = refl }
  link_insert-Inserts key value (entry none next) s = record {
    chain = _;
    runs = refl;
    sound = tt;
    holds = refl;
  }
  link_insert-Inserts key value (entry (some (k, v)) next) s = elim (Bool-cases (eq k key)) [
    | inl e ↦ record { chain = entry (some (k, value)) next; runs = rw e; sound = s; holds = rw e }
    | inr e ↦
        let ih = link_insert-Inserts key value next s in
        record {
          chain = entry (some (k, v)) ih.chain;
          runs = rw (e, ih.runs);
          sound = IsSlot-IsSound ih.chain ih.sound;
          holds = rw e (ap (λ l. (k, v) ∷ l) ih.holds);
        }
  ]
  link_insert-Inserts key value freed s = absurd s

  pub chain_insert-Inserts :
      (key : K) (value : V) (c : Chain K V)
      → IsSlot c
      → Inserts key value c (chain_insert eq true key value c)
  unfolding chain_insert pairs assign has
  chain_insert-Inserts key value null s = absurd s
  chain_insert-Inserts key value (entry none null) s = record {
    chain = _;
    runs = refl;
    sound = tt;
    holds = refl;
  }
  chain_insert-Inserts key value (entry none (entry p next)) s = absurd s
  chain_insert-Inserts key value (entry none freed) s = absurd s
  chain_insert-Inserts key value (entry (some p) next) s =
      link_insert-Inserts key value (entry (some p) next) s
  chain_insert-Inserts key value freed s = absurd s

  -- Without a comparison the pair goes to the end.
  pub record Appends (key : K) (value : V) (c : Chain K V) (r : Option (Bool × Chain K V))
      : Type ℓ where
    pub chain : Chain K V
    pub runs : r ≡ some (true, chain)
    pub sound : IsSlot chain
    pub holds : pairs chain ≡ pairs c ++ (key, value) ∷ []

  link_insert-Appends :
      (key : K) (value : V) (c : Chain K V)
      → IsSound c
      → Appends key value c (link_insert eq false key value c)
  unfolding link_insert pairs
  link_insert-Appends key value null s = record { chain = _; runs = refl; sound = tt; holds = refl }
  link_insert-Appends key value (entry none next) s = record {
    chain = _;
    runs = refl;
    sound = tt;
    holds = refl;
  }
  link_insert-Appends key value (entry (some (k, v)) next) s =
      let ih = link_insert-Appends key value next s in
      record {
        chain = entry (some (k, v)) ih.chain;
        runs = rw ih.runs;
        sound = IsSlot-IsSound ih.chain ih.sound;
        holds = ap (λ l. (k, v) ∷ l) ih.holds;
      }
  link_insert-Appends key value freed s = absurd s

  pub chain_insert-Appends :
      (key : K) (value : V) (c : Chain K V)
      → IsSlot c
      → Appends key value c (chain_insert eq false key value c)
  unfolding chain_insert pairs
  chain_insert-Appends key value null s = absurd s
  chain_insert-Appends key value (entry none null) s = record {
    chain = _;
    runs = refl;
    sound = tt;
    holds = refl;
  }
  chain_insert-Appends key value (entry none (entry p next)) s = absurd s
  chain_insert-Appends key value (entry none freed) s = absurd s
  chain_insert-Appends key value (entry (some p) next) s =
      link_insert-Appends key value (entry (some p) next) s
  chain_insert-Appends key value freed s = absurd s

  -- The walk of a deletion: nothing to do without the key, and one pair less with it.
  pub record Deletes (key : K) (c : Chain K V) (r : Option (Option (Chain K V))) : Type ℓ where
    pub chain : Chain K V
    pub runs : r ≡ some (if has key (pairs c) then some chain else none)
    pub sound : IsSound chain
    pub slot : IsSlot c → IsSlot chain
    pub holds : pairs chain ≡ erase key (pairs c)

  unlink_lem :
      (next : Chain K V)
      → IsSound next
      → (c : Chain K V) × (unlink next ≡ some c) × IsSlot c × (pairs c ≡ pairs next)
  unfolding unlink pairs
  unlink_lem null s = (entry none null, refl, tt, refl)
  unlink_lem (entry p next) s = (entry p next, refl, s, refl)
  unlink_lem freed s = absurd s

  relink :
      (p : K × V) (b : Bool) (c : Chain K V)
      → some (elim (if b then some c else none) as (λ _. Option (Chain K V)) [
        | none ↦ none
        | some next' ↦ some (entry (some p) next')
      ])
        ≡ some (if b then some (entry (some p) c) else none)
  relink p true c = refl
  relink p false c = refl

  pub chain_delete-Deletes :
      (key : K) (c : Chain K V) → IsSound c → Deletes key c (chain_delete eq key c)
  unfolding chain_delete pairs erase has
  chain_delete-Deletes key null s = record {
    chain = null;
    runs = refl;
    sound = tt;
    slot = λ h. h;
    holds = refl;
  }
  chain_delete-Deletes key (entry none next) s = record {
    chain = entry none next;
    runs = refl;
    sound = s;
    slot = λ h. h;
    holds = refl;
  }
  chain_delete-Deletes key (entry (some (k, v)) next) s = elim (Bool-cases (eq k key)) [
    | inl e ↦
        let (c, run, slot, same) = unlink_lem next s in
        record {
          chain = c;
          runs = rw (e, run);
          sound = IsSlot-IsSound c slot;
          slot = λ h. slot;
          holds = rw e same;
        }
    | inr e ↦
        let ih = chain_delete-Deletes key next s in
        record {
          chain = entry (some (k, v)) ih.chain;
          runs = rw (e, ih.runs) (relink (k, v) (has key (pairs next)) ih.chain);
          sound = ih.sound;
          slot = λ h. ih.sound;
          holds = rw e (ap (λ l. (k, v) ∷ l) ih.holds);
        }
  ]
  chain_delete-Deletes key freed s = absurd s
