-- ===== src/Metrics/Structs.antt =====
-- The pattern of src/metrics.c for every kind of metric: a hash table maps a name to a pointer to a
-- struct of its own, which is changed in place. The structs are a list, and a pointer an index of
-- it; `malloc` appends. `none` is a use of memory that was freed or never allocated.
use statsite.Base.{ℕ, zero, suc, List, [], ◌∷◌, ◌++◌, Bool, Option, none, some, length, set, ◌>>=◌}
use statsite.Hashmap.{Hashmap, hashmap_init, hashmap_get, hashmap_put}

pub record Named (X : Type 0) : Type 0 where
  pub names : Hashmap (List ℕ) ℕ
  pub structs : List X

-- What a pointer points to.
abbrev pub at_pointer : {X : Type 0} → List X → ℕ → Option X
at_pointer [] p = none
at_pointer (x ∷ xs) zero = some x
at_pointer (x ∷ xs) (suc p) = at_pointer xs p

unfoldable pub no_names : {X : Type 0} → Named X
no_names = record { names = hashmap_init 0; structs = [] }

module _ {X : Type 0} (hash : List ℕ → ℕ) (eq : List ℕ → List ℕ → Bool) where
  -- `hashmap_get`, and for a new name `malloc`, the struct's initialisation and `hashmap_put`.
  unfoldable pub make : Option X → Named X → List ℕ → Option (ℕ × Named X)
  make init s name = do
    x ← init
    result ← hashmap_put hash eq 2 s.names name (length s.structs)
    (_, names) ← result
    some (length s.structs, record { names = names; structs = s.structs ++ x ∷ [] })

  unfoldable pub find_or_make : Option X → Named X → List ℕ → Option (ℕ × Named X)
  find_or_make init s name = do
    result ← hashmap_get hash eq s.names name
    elim result [ none ↦ make init s name | some p ↦ some (p, s) ]

  -- A change of the struct behind a pointer.
  unfoldable pub change : (X → Option X) → ℕ → Named X → Option (Named X)
  change f p s = do
    x ← at_pointer s.structs p
    y ← f x
    some (record s { structs = set s.structs p y })

  unfoldable pub update_named : Option X → (X → Option X) → Named X → List ℕ → Option (Named X)
  update_named init f s name = do (p, s') ← find_or_make init s name; change f p s'
