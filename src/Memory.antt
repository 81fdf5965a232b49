-- ===== src/Memory.antt =====
-- Byte memory behind a pointer, with `memcpy` and `memchr` of the C library. A block that `malloc`
-- returns is any function: its bytes are indeterminate.
use statsite.Base.{
  ℕ, zero, suc, ◌+◌, ◌-◌, ◌≤◌, ◌<◌, ◌≡◌, refl, ap, ap₂, ◌∙◌, fun_ext, ◌⊎◌, List, [], ◌∷◌, ◌++◌,
  Option, none, some, ◌&&◌, arith, leb, ltb, ◌==◌, if◌then◌else◌, length, get_or, take, drop,
}

abbrev pub Memory : Type 0
Memory = ℕ → ℕ

-- the `n` bytes from address `a` on
unfoldable pub load : Memory → ℕ → ℕ → List ℕ
load m a zero = []
load m a (suc n) = m a ∷ load m (a + 1) n

-- `memcpy(m + a, xs, length xs)`
unfoldable pub store : Memory → ℕ → List ℕ → Memory
store m a xs i = if leb a i && ltb i (a + length xs) then get_or xs (i - a) 0 else m i

-- `memchr(m + a, c, n)`: how far from `a` the first `c` stands
unfoldable pub memchr : Memory → ℕ → ℕ → ℕ → Option ℕ
memchr m a c zero = none
memchr m a c (suc n) =
    if m a == c then some 0 else elim (memchr m (a + 1) c n) [ none ↦ none | some k ↦ some (k + 1) ]

pub length-load : (m : Memory) (a n : ℕ) → length (load m a n) ≡ n
unfolding load
length-load m a zero = refl
length-load m a (suc n) = ap suc (length-load m (a + 1) n)

pub load-empty : (m : Memory) (a n : ℕ) → n ≡ 0 → load m a n ≡ []
unfolding load
load-empty m a n h = rw h

pub load-add : (m : Memory) (a n k : ℕ) → load m a (n + k) ≡ load m a n ++ load m (a + n) k
unfolding load
load-add m a zero k =
    let e : 0 + k ≡ k = omega arith in let f : a + 0 ≡ a = omega arith in rw (e, f)
load-add m a (suc n) k =
    let e : suc n + k ≡ suc (n + k) = omega arith in
    let f : a + suc n ≡ a + 1 + n = omega arith in
    rw (e, f) (ap (λ l. m a ∷ l) (load-add m (a + 1) n k))

pub load_congr :
    (m m' : Memory) (a n : ℕ)
    → ((i : ℕ) → a ≤ i → i < a + n → m i ≡ m' i)
    → load m a n ≡ load m' a n
unfolding load
load_congr m m' a zero h = refl
load_congr m m' a (suc n) h =
    ap₂ ◌∷◌ (h a (omega arith) (omega arith))
      (load_congr m m' (a + 1) n (λ i p q. h i (omega arith) (omega arith)))

pub take-load : (m : Memory) (a k n : ℕ) → k ≤ n → take k (load m a n) ≡ load m a k
unfolding load
take-load m a zero n h = refl
take-load m a (suc k) zero h = absurd (omega arith)
take-load m a (suc k) (suc n) h = ap (λ l. m a ∷ l) (take-load m (a + 1) k n (omega arith))

pub drop-load : (m : Memory) (a k n : ℕ) → k ≤ n → drop k (load m a n) ≡ load m (a + k) (n - k)
unfolding load
drop-load m a zero n h = ap₂ (load m) (omega arith) (omega arith)
drop-load m a (suc k) zero h = absurd (omega arith)
drop-load m a (suc k) (suc n) h =
    drop-load m (a + 1) k n (omega arith) ∙ ap₂ (load m) (omega arith) (omega arith)

pub load-store_apart :
    (m : Memory) (a n b : ℕ) (xs : List ℕ)
    → (b + length xs ≤ a) ⊎ (a + n ≤ b)
    → load (store m b xs) a n ≡ load m a n
unfolding store
load-store_apart m a n b xs h = load_congr (store m b xs) m a n (λ i p q. ground arith)

load_matches :
    (m : Memory) (a : ℕ) (xs : List ℕ)
    → ((i : ℕ) → i < length xs → m (a + i) ≡ get_or xs i 0)
    → load m a (length xs) ≡ xs
unfolding load
load_matches m a [] h = refl
load_matches m a (x ∷ xs) h =
    ap₂ ◌∷◌ (ap m (omega arith) ∙ h 0 (omega arith))
      (load_matches m (a + 1) xs (λ i p. ap m (omega arith) ∙ h (suc i) (omega arith)))

pub load-store_self : (m : Memory) (a : ℕ) (xs : List ℕ) → load (store m a xs) a (length xs) ≡ xs
unfolding store
load-store_self m a xs =
    load_matches (store m a xs) a xs
      (λ i p. let e : a + i - a ≡ i = omega arith in ground (arith, e))

pub store-nil : (m : Memory) (a : ℕ) → store m a [] ≡ m
unfolding store
store-nil m a = fun_ext (λ i. ground arith)
