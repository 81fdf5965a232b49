-- ===== src/Hashmap/Pairs.antt =====
-- Laws of lists of pairs, for a comparison that decides equality of keys.
use statsite.Base.{
  ℕ, ◌+◌, ◌≤◌, ◌≡◌, refl, ap, List, [], ◌∷◌, ◌++◌, Bool, true, false, Option, none, some, ◌↔◌,
  if◌then◌else◌, arith, length, Bool-cases, inl, inr,
}
use statsite.Hashmap.Bucket.{lookup, assign, erase, has}

-- `strcmp(a, b) == 0`
abbrev pub Decides {ℓ} : {K : Type ℓ} → (K → K → Bool) → Type ℓ
Decides {K = K} eq = (a b : K) → (eq a b ≡ true) ↔ (a ≡ b)

abbrev pub bit : Bool → ℕ
bit true = 1
bit false = 0

module _ {ℓ} {K : Type ℓ} (eq : K → K → Bool) (d : Decides eq) where
  pub eq_left : (a b c : K) → eq a b ≡ true → eq a c ≡ eq b c
  eq_left a b c e = ap (λ x. eq x c) ((d a b).0 e)

  pub eq_right : (a b c : K) → eq a b ≡ true → eq c a ≡ eq c b
  eq_right a b c e = ap (λ x. eq c x) ((d a b).0 e)

abbrev pub found {ℓ} : {V : Type ℓ} → Option V → Bool
found none = false
found (some v) = true

pub has-lookup {ℓ} :
    {K V : Type ℓ} (eq : K → K → Bool) (k : K) (ps : List (K × V))
    → has eq k ps ≡ found (lookup eq k ps)
unfolding has lookup
has-lookup eq k [] = refl
has-lookup eq k ((i, w) ∷ ps) = elim (Bool-cases (eq i k)) [
  | inl e ↦ rw e
  | inr e ↦ rw e (has-lookup eq k ps)
]

-- The first of two results that is there.
unfoldable pub or_else {ℓ} : {V : Type ℓ} → Option V → Option V → Option V
or_else none y = y
or_else (some x) y = some x

pub or_else_assoc {ℓ} :
    {V : Type ℓ} (x y z : Option V) → or_else (or_else x y) z ≡ or_else x (or_else y z)
unfolding or_else
or_else_assoc none y z = refl
or_else_assoc (some x) y z = refl

pub or_else-none {ℓ} : {V : Type ℓ} (x : Option V) → or_else x none ≡ x
unfolding or_else
or_else-none none = refl
or_else-none (some x) = refl

module _ {ℓ} {K V : Type ℓ} (eq : K → K → Bool) (d : Decides eq) where
  -- How many pairs have a key.
  unfoldable pub occurrences : K → List (K × V) → ℕ
  occurrences key [] = 0
  occurrences key ((k, v) ∷ ps) = bit (eq k key) + occurrences key ps

  pub lookup-assign :
      (k j : K) (v : V) (ps : List (K × V))
      → lookup eq j (assign eq k v ps) ≡ (if eq k j then some v else lookup eq j ps)
  unfolding lookup assign
  lookup-assign k j v [] = refl
  lookup-assign k j v ((i, w) ∷ ps) =
      ground (arith, lookup-assign k j v ps, eq_left eq d i k j, eq_right eq d k j i)

  pub occurrences-assign :
      (k j : K) (v : V) (ps : List (K × V))
      → occurrences j (assign eq k v ps)
        ≡ occurrences j ps + (if has eq k ps then 0 else bit (eq k j))
  unfolding occurrences assign has
  occurrences-assign k j v [] = ground arith
  occurrences-assign k j v ((i, w) ∷ ps) = ground (arith, occurrences-assign k j v ps)

  pub occurrences-zero : (k : K) (ps : List (K × V)) → has eq k ps ≡ false → occurrences k ps ≡ 0
  unfolding occurrences has
  occurrences-zero k [] h = refl
  occurrences-zero k ((i, w) ∷ ps) h = ground (arith, occurrences-zero k ps)

  pub lookup-none : (k : K) (ps : List (K × V)) → occurrences k ps ≡ 0 → lookup eq k ps ≡ none
  unfolding occurrences lookup
  lookup-none k [] h = refl
  lookup-none k ((i, w) ∷ ps) h = ground (arith, lookup-none k ps)

  lookup_congr : (k j : K) (ps : List (K × V)) → eq k j ≡ true → lookup eq k ps ≡ lookup eq j ps
  lookup_congr k j ps e = ap (λ x. lookup eq x ps) ((d k j).0 e)

  pub lookup-erase :
      (k j : K) (ps : List (K × V))
      → occurrences k ps ≤ 1
      → lookup eq j (erase eq k ps) ≡ (if eq k j then none else lookup eq j ps)
  unfolding lookup erase occurrences
  lookup-erase k j [] h = ground arith
  lookup-erase k j ((i, w) ∷ ps) h = ground (
    arith,
    lookup-erase k j ps,
    eq_left eq d i k j,
    eq_right eq d k j i,
    lookup-none k ps,
    lookup_congr k j ps,
  )

  pub occurrences-erase :
      (k j : K) (ps : List (K × V)) → occurrences j (erase eq k ps) ≤ occurrences j ps
  unfolding erase occurrences
  occurrences-erase k j [] = omega arith
  occurrences-erase k j ((i, w) ∷ ps) = ground (arith, occurrences-erase k j ps)

  pub length-assign :
      (k : K) (v : V) (ps : List (K × V))
      → length (assign eq k v ps) ≡ length ps + (if has eq k ps then 0 else 1)
  unfolding assign has
  length-assign k v [] = refl
  length-assign k v ((i, w) ∷ ps) = ground (arith, length-assign k v ps)

  pub length-erase :
      (k : K) (ps : List (K × V)) → has eq k ps ≡ true → length (erase eq k ps) + 1 ≡ length ps
  unfolding erase has
  length-erase k [] h = absurd (cc)
  length-erase k ((i, w) ∷ ps) h = ground (arith, length-erase k ps)

  pub lookup-append :
      (k : K) (ps qs : List (K × V))
      → lookup eq k (ps ++ qs) ≡ or_else (lookup eq k ps) (lookup eq k qs)
  unfolding lookup or_else
  lookup-append k [] qs = refl
  lookup-append k ((i, w) ∷ ps) qs = elim (Bool-cases (eq i k)) [
    | inl e ↦ rw e
    | inr e ↦ rw e (lookup-append k ps qs)
  ]

  pub occurrences-append :
      (k : K) (ps qs : List (K × V))
      → occurrences k (ps ++ qs) ≡ occurrences k ps + occurrences k qs
  unfolding occurrences
  occurrences-append k [] qs = omega arith
  occurrences-append k ((i, w) ∷ ps) qs = omega (arith, occurrences-append k ps qs)
