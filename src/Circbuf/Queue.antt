-- ===== src/Circbuf/Queue.antt =====
-- The buffer as a queue of bytes, oldest first, and the scan for a terminator on it.
use statsite.Base.{
  ℕ, zero, suc, ◌+◌, ◌-◌, ◌<◌, ◌≡◌, refl, List, [], ◌∷◌, ◌++◌, Option, none, some, arith, ltb, ◌==◌,
  if◌then◌else◌, append_assoc, append-nil, Bool-cases, Option-cases, inl, inr, sym,
}
use statsite.Memory.{Memory, load, memchr}
use statsite.Circbuf.{CircularBuffer}

unfoldable pub contents : CircularBuffer → List ℕ
contents buf =
    if ltb buf.write_cursor buf.read_cursor
    then load buf.buffer buf.read_cursor (buf.buf_size - buf.read_cursor)
      ++ load buf.buffer 0 buf.write_cursor
    else load buf.buffer buf.read_cursor (buf.write_cursor - buf.read_cursor)

abbrev pub Cut : Type 0
Cut = Option (List ℕ × List ℕ)

abbrev pub behind : List ℕ → Cut → Cut
behind xs none = none
behind xs (some (line, rest)) = some (xs ++ line, rest)

-- A line up to the first terminator, which becomes a null byte, and what follows it.
abbrev pub split_line : ℕ → List ℕ → Cut
split_line c [] = none
split_line c (x ∷ xs) = if x == c then some (0 ∷ [], xs) else behind (x ∷ []) (split_line c xs)

-- What a queue answers when it is asked for a line.
abbrev pub extract : ℕ → List ℕ → Option (List ℕ) × List ℕ
extract c q = elim (split_line c q) [ none ↦ (none, q) | some (line, rest) ↦ (some line, rest) ]

behind-behind : (xs ys : List ℕ) (r : Cut) → behind xs (behind ys r) ≡ behind (xs ++ ys) r
behind-behind xs ys none = refl
behind-behind xs ys (some (line, rest)) = rw (append_assoc xs ys line)

behind-nil : (r : Cut) → behind [] r ≡ r
behind-nil none = refl
behind-nil (some (line, rest)) = refl

-- A scan that finds nothing leaves the search to the bytes that follow.
pub memchr-none :
    (m : Memory) (a c n : ℕ) (ys : List ℕ)
    → memchr m a c n ≡ none
    → split_line c (load m a n ++ ys) ≡ behind (load m a n) (split_line c ys)
unfolding memchr load
memchr-none m a c zero ys h = sym (behind-nil _)
memchr-none m a c (suc n) ys h = elim (Bool-cases (m a == c)) [
  | inl hit ↦ absurd (ground arith)
  | inr miss ↦ elim (Option-cases (memchr m (a + 1) c n)) [
    | inl e ↦ rw (miss, memchr-none m (a + 1) c n ys e, behind-behind)
    | inr (k, e) ↦ absurd (ground arith)
  ]
]

-- A scan that finds the terminator finds the first one.
pub memchr-some :
    (m : Memory) (a c n k : ℕ) (ys : List ℕ)
    → memchr m a c n ≡ some k
    → (k < n)
      × (split_line c (load m a n ++ ys)
          ≡ some (load m a k ++ 0 ∷ [], load m (a + k + 1) (n - k - 1) ++ ys))
unfolding memchr load
memchr-some m a c zero k ys h = absurd (cc)
memchr-some m a c (suc n) k ys h = elim (Bool-cases (m a == c)) [
  | inl hit ↦
      let e : k ≡ 0 = ground arith in
      let f : a + 0 + 1 ≡ a + 1 = omega arith in
      let g : suc n - 0 - 1 ≡ n = omega arith in rw (hit, e, f, g) (omega arith, refl)
  | inr miss ↦ elim (Option-cases (memchr m (a + 1) c n)) [
    | inl e ↦ absurd (ground arith)
    | inr (j, e) ↦
        let (bound, ih) = memchr-some m (a + 1) c n j ys e in
        let next : k ≡ suc j = ground arith in
        let f : a + suc j + 1 ≡ a + 1 + j + 1 = omega arith in
        let g : suc n - suc j - 1 ≡ n - j - 1 = omega arith in
        rw (miss, ih, next, f, g) (omega arith, refl)
  ]
]

pub extract-none : (c : ℕ) (q : List ℕ) → split_line c q ≡ none → extract c q ≡ (none, q)
extract-none c q e = rw (e, extract)

pub extract-some :
    (c : ℕ) (q line rest : List ℕ)
    → split_line c q ≡ some (line, rest)
    → extract c q ≡ (some line, rest)
extract-some c q line rest e = rw (e, extract)

-- The two scans at the end of the bytes to search.
pub memchr-none_last :
    (m : Memory) (a c n : ℕ) → memchr m a c n ≡ none → split_line c (load m a n) ≡ none
memchr-none_last m a c n e = rw (append-nil (load m a n)) at (memchr-none m a c n [] e)

pub memchr-some_last :
    (m : Memory) (a c n k : ℕ)
    → memchr m a c n ≡ some k
    → (k < n)
      × (split_line c (load m a n) ≡ some (load m a k ++ 0 ∷ [], load m (a + k + 1) (n - k - 1)))
memchr-some_last m a c n k e =
    rw (append-nil (load m a n), append-nil (load m (a + k + 1) (n - k - 1))) at
      (memchr-some m a c n k [] e)
