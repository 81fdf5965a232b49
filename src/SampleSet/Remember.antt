-- ===== src/SampleSet/Remember.antt =====
-- A set forgets no sample, not even when it turns into a sketch.
use statsite.Base.{
  ℕ, ◌^◌, ◌≤◌, ◌<◌, ◌≡◌, refl, sym, ◌∙◌, subst, List, [], ◌∷◌, ◌++◌, Bool, true, false, Option,
  some, Bool-cases, inl, inr, arith, ltb, leb, if◌then◌else◌, ◌==◌, length, length-append, ltb→lt,
  leb→le, le→leb, ==_self, ==→eq, ◌>>=◌,
}
use statsite.Hll.{Hll, get_register, index_of, leading_of, hll_add_hash, set_register}
use statsite.Hll.Leading.{IsPrecision}
use statsite.Hll.Add.{IsHll, hll_add_hash_lem, hll_add_hash-IsHll, hll_init_lem}
use statsite.SampleSet.{
  SampleSet, exact, approx, is_added, add_hashes, convert_exact_to_approx, set_add, set_max_exact,
}

abbrev pub AreWords : List ℕ → Type 0
AreWords [] = Unit
AreWords (x ∷ xs) = (x < 2 ^ 64) × AreWords xs

-- A set in order: no more hashes than the array holds, and a precision that a sketch can have.
unfoldable pub IsSampleSet : SampleSet → Type 0
IsSampleSet (exact precision hashes) =
    IsPrecision precision × (length hashes ≤ set_max_exact) × AreWords hashes
IsSampleSet (approx h) = IsHll h

-- Whether the registers account for a hash.
unfoldable pub covers : Hll → ℕ → Bool
covers h hash = leb (leading_of h.precision hash) (get_register h (index_of h.precision hash))

-- Whether a set accounts for a hash.
unfoldable pub knows : SampleSet → ℕ → Bool
knows (exact precision hashes) hash = is_added hash hashes
knows (approx h) hash = covers h hash

-- Either branch of the update.
at_least : (a l : ℕ) → (l ≤ (if ltb a l then l else a)) × (a ≤ (if ltb a l then l else a))
at_least a l = ground arith

either_way : (b : Bool) → (if b then true else true) ≡ true
either_way true = refl
either_way false = refl

module _ (h : Hll) (hash : ℕ) (v : IsHll h) (word : hash < 2 ^ 64) where
  same_precision : (hll_add_hash h hash).precision ≡ h.precision
  unfolding hll_add_hash set_register
  same_precision =
      elim (Bool-cases
        (ltb (get_register h (index_of h.precision hash)) (leading_of h.precision hash))) [
          | inl e ↦ rw e refl
          | inr e ↦ rw e refl
        ]

  reaches :
      leading_of h.precision hash ≤ get_register (hll_add_hash h hash) (index_of h.precision hash)
  reaches =
      let idx = index_of h.precision hash in
      rw (hll_add_hash_lem h hash v word idx, ==_self idx)
        (at_least (get_register h idx) (leading_of h.precision hash)).0

  grows : (j : ℕ) → get_register h j ≤ get_register (hll_add_hash h hash) j
  grows j = elim (Bool-cases (index_of h.precision hash == j)) [
    | inl e ↦
        rw (hll_add_hash_lem h hash v word j, e)
          (at_least (get_register h j) (leading_of h.precision hash)).1
    | inr e ↦ rw (hll_add_hash_lem h hash v word j, e) (omega arith)
  ]

  covers_new : covers (hll_add_hash h hash) hash ≡ true
  unfolding covers
  covers_new =
      subst
        (λ p. leb (leading_of p hash) (get_register (hll_add_hash h hash) (index_of p hash)) ≡ true)
        (sym same_precision)
        (le→leb (leading_of h.precision hash)
          (get_register (hll_add_hash h hash) (index_of h.precision hash)) reaches)

  covers_old : (j : ℕ) → covers h j ≡ true → covers (hll_add_hash h hash) j ≡ true
  unfolding covers
  covers_old j c =
      let idx = index_of h.precision j in
      let before = leb→le (leading_of h.precision j) (get_register h idx) c in
      subst (λ p. leb (leading_of p j) (get_register (hll_add_hash h hash) (index_of p j)) ≡ true)
        (sym same_precision)
        (le→leb (leading_of h.precision j) (get_register (hll_add_hash h hash) idx)
          (omega (arith, before, grows idx)))

-- All hashes of an array, added to a sketch.
record Covers (h : Hll) (hashes : List ℕ) (after : Hll) : Type 0 where
  ok : IsHll after
  added : (j : ℕ) → is_added j hashes ≡ true → covers after j ≡ true
  kept : (j : ℕ) → covers h j ≡ true → covers after j ≡ true

add_hashes-Covers :
    (h : Hll) (hashes : List ℕ) → IsHll h → AreWords hashes → Covers h hashes (add_hashes h hashes)
unfolding add_hashes is_added
add_hashes-Covers h [] v w = record { ok = v; added = λ j e. absurd (cc); kept = λ j c. c }
add_hashes-Covers h (x ∷ xs) v (word, w) =
    let rest = add_hashes-Covers (hll_add_hash h x) xs (hll_add_hash-IsHll h x v word) w in
    record {
      ok = rest.ok;
      added = λ j e. elim (Bool-cases (j == x)) [
        | inl q ↦ rest.kept j (rw (==→eq j x q) (covers_new h x v word))
        | inr q ↦ rest.added j (sym (rw q refl) ∙ e)
      ];
      kept = λ j c. rest.kept j (covers_old h x v word j c);
    }

is_added-append :
    (j : ℕ) (xs ys : List ℕ)
    → is_added j (xs ++ ys) ≡ (if is_added j xs then true else is_added j ys)
unfolding is_added
is_added-append j [] ys = refl
is_added-append j (x ∷ xs) ys = elim (Bool-cases (j == x)) [
  | inl e ↦ rw e refl
  | inr e ↦ rw e (is_added-append j xs ys)
]

AreWords-append : (xs : List ℕ) (y : ℕ) → AreWords xs → y < 2 ^ 64 → AreWords (xs ++ y ∷ [])
AreWords-append [] y w small = (small, tt)
AreWords-append (x ∷ xs) y (b, w) small = (b, AreWords-append xs y w small)

-- A set after a hash was added to it.
pub record Remembers (s : SampleSet) (hash : ℕ) (r : Option SampleSet) : Type 0 where
  pub after : SampleSet
  pub runs : r ≡ some after
  pub ok : IsSampleSet after
  pub added : knows after hash ≡ true
  pub kept : (j : ℕ) → knows s j ≡ true → knows after j ≡ true

-- The array has room for a new hash.
appended :
    (precision : ℕ) (hashes : List ℕ) (hash : ℕ)
    → IsSampleSet (exact precision hashes)
    → hash < 2 ^ 64
    → length hashes < 64
    → Remembers (exact precision hashes) hash (some (exact precision (hashes ++ hash ∷ [])))
unfolding IsSampleSet knows is_added
appended precision hashes hash (p, l, w) word room = record {
  after = exact precision (hashes ++ hash ∷ []);
  runs = refl;
  ok = (p, omega (arith, length-append hashes (hash ∷ [])), AreWords-append hashes hash w word);
  added =
      rw (is_added-append hash hashes (hash ∷ []), ==_self hash)
        (either_way (is_added hash hashes));
  kept = λ j e. rw (is_added-append j hashes (hash ∷ []), e) refl;
}

-- It is full.
converted :
    (precision : ℕ) (hashes : List ℕ) (hash : ℕ)
    → IsSampleSet (exact precision hashes)
    → hash < 2 ^ 64
    → Remembers
        (exact precision hashes)
        hash
        (do h ← convert_exact_to_approx precision hashes; some (approx (hll_add_hash h hash)))
unfolding IsSampleSet knows convert_exact_to_approx
converted precision hashes hash (p, l, w) word =
    let (h, run, v, _) = hll_init_lem precision 0 p in
    let all = add_hashes-Covers h hashes v w in
    let full = add_hashes h hashes in
    record {
      after = approx (hll_add_hash full hash);
      runs = rw run refl;
      ok = hll_add_hash-IsHll full hash all.ok word;
      added = covers_new full hash all.ok word;
      kept = λ j e. covers_old full hash all.ok word j (all.added j e);
    }

-- set_add of a 64-bit hash to a set in order does not fail and leaves a set in order, which
-- accounts for the hash and for all that the set accounted for before: exactly as long as it is an
-- array, and by its register when it is a sketch or becomes one.
pub set_add-Remembers :
    (s : SampleSet) (hash : ℕ) → IsSampleSet s → hash < 2 ^ 64 → Remembers s hash (set_add s hash)
unfolding set_add IsSampleSet knows
set_add-Remembers (approx h) hash v word = record {
  after = approx (hll_add_hash h hash);
  runs = refl;
  ok = hll_add_hash-IsHll h hash v word;
  added = covers_new h hash v word;
  kept = covers_old h hash v word;
}
set_add-Remembers (exact precision hashes) hash v word = elim (Bool-cases (is_added hash hashes)) [
  | inl e ↦
      rw e
        record { after = exact precision hashes; runs = refl; ok = v; added = e; kept = λ j q. q }
  | inr e ↦ elim (Bool-cases (ltb (length hashes) 64)) [
    | inl room ↦
        rw (e, room) (appended precision hashes hash v word (ltb→lt (length hashes) 64 room))
    | inr full ↦ rw (e, full) (converted precision hashes hash v word)
  ]
]
