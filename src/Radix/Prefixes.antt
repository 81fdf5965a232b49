-- ===== src/Radix/Prefixes.antt =====
-- Common prefixes of two keys.
use statsite.Base.{
  ℕ, zero, suc, ◌<◌, ◌≡◌, ◌≢◌, ◌⊎◌, inl, inr, refl, sym, ap, List, [], ◌∷◌, ◌++◌, Bool, true, false,
  if◌then◌else◌, arith, ◌==◌, ◌&&◌, length, take, drop, Bool-cases, ==→eq, ==_false→ne, ==_self,
}
use statsite.Radix.{longest_prefix, starts_with}

-- Equality of two keys.
unfoldable pub same : List ℕ → List ℕ → Bool
same [] [] = true
same [] (y ∷ ys) = false
same (x ∷ xs) [] = false
same (x ∷ xs) (y ∷ ys) = if x == y then same xs ys else false

-- Bytes that are an index into the edges.
abbrev pub IsAscii : List ℕ → Type 0
IsAscii [] = Unit
IsAscii (x ∷ xs) = (x < 128) × IsAscii xs

pub IsAscii-append : (xs ys : List ℕ) → IsAscii (xs ++ ys) → IsAscii xs × IsAscii ys
IsAscii-append [] ys h = (tt, h)
IsAscii-append (x ∷ xs) ys (b, h) = let (l, r) = IsAscii-append xs ys h in ((b, l), r)

pub IsAscii-drop : (n : ℕ) (xs : List ℕ) → IsAscii xs → IsAscii (drop n xs)
IsAscii-drop zero xs h = h
IsAscii-drop (suc n) [] h = tt
IsAscii-drop (suc n) (x ∷ xs) h = IsAscii-drop n xs h.1

-- Keys whose first bytes are not the same.
abbrev pub Differ : List ℕ → List ℕ → Type 0
Differ [] s = ⊥
Differ (x ∷ k) [] = Unit
Differ (x ∷ k) (y ∷ s) = x ≢ y

-- How two keys split after what they share.
pub record Common (search key : List ℕ) (p : ℕ) : Type 0 where
  pub pre : List ℕ
  pub key_rest : List ℕ
  pub search_rest : List ℕ
  pub key_is : key ≡ pre ++ key_rest
  pub search_is : search ≡ pre ++ search_rest
  pub size : p ≡ length pre
  pub parts : (key_rest ≡ []) ⊎ Differ key_rest search_rest

pub longest_prefix-Common :
    (search key : List ℕ) → Common search key (longest_prefix search key (length key))
unfolding longest_prefix
longest_prefix-Common search [] = record {
  pre = [];
  key_rest = [];
  search_rest = search;
  key_is = refl;
  search_is = refl;
  size = refl;
  parts = inl refl;
}
longest_prefix-Common [] (y ∷ key) = record {
  pre = [];
  key_rest = y ∷ key;
  search_rest = [];
  key_is = refl;
  search_is = refl;
  size = refl;
  parts = inr tt;
}
longest_prefix-Common (x ∷ search) (y ∷ key) = elim (Bool-cases (x == y)) [
  | inr e ↦ record {
    pre = [];
    key_rest = y ∷ key;
    search_rest = x ∷ search;
    key_is = refl;
    search_is = refl;
    size = rw e;
    parts = inr (λ q. ==_false→ne x y e (sym q));
  }
  | inl e ↦
      let c = longest_prefix-Common search key in
      record {
        pre = x ∷ c.pre;
        key_rest = c.key_rest;
        search_rest = c.search_rest;
        key_is = rw (c.key_is, ==→eq x y e) refl;
        search_is = ap (λ l. x ∷ l) c.search_is;
        size = rw (e, c.size) (omega arith);
        parts = c.parts;
      }
]

pub starts_with-append :
    (pre k j : List ℕ)
    → starts_with (pre ++ k) j ≡ starts_with pre j && starts_with k (drop (length pre) j)
unfolding starts_with
starts_with-append [] k j = refl
starts_with-append (x ∷ pre) k [] = refl
starts_with-append (x ∷ pre) k (y ∷ j) = elim (Bool-cases (x == y)) [
  | inl e ↦ rw e (starts_with-append pre k j)
  | inr e ↦ rw e
]

pub same-append :
    (pre s j : List ℕ) → same (pre ++ s) j ≡ starts_with pre j && same s (drop (length pre) j)
unfolding starts_with same
same-append [] s j = refl
same-append (x ∷ pre) s [] = refl
same-append (x ∷ pre) s (y ∷ j) = elim (Bool-cases (x == y)) [
  | inl e ↦ rw e (same-append pre s j)
  | inr e ↦ rw e
]

drop_nil : (n : ℕ) → drop {A = ℕ} n [] ≡ []
drop_nil zero = refl
drop_nil (suc n) = refl

pub drop-drop :
    (pre k j : List ℕ) → drop (length (pre ++ k)) j ≡ drop (length k) (drop (length pre) j)
drop-drop [] k j = refl
drop-drop (x ∷ pre) k [] = sym (drop_nil (length k))
drop-drop (x ∷ pre) k (y ∷ j) = drop-drop pre k j

pub drop_prefix : (pre xs : List ℕ) → drop (length pre) (pre ++ xs) ≡ xs
drop_prefix [] xs = refl
drop_prefix (x ∷ pre) xs = drop_prefix pre xs

pub take_prefix : (pre xs : List ℕ) → take (length pre) (pre ++ xs) ≡ pre
take_prefix [] xs = refl
take_prefix (x ∷ pre) xs = ap (λ l. x ∷ l) (take_prefix pre xs)

-- A key is the same as another one that begins with it and then ends.
pub same_ends : (s j : List ℕ) → same s j ≡ starts_with s j && same [] (drop (length s) j)
unfolding starts_with same
same_ends [] j = refl
same_ends (x ∷ s) [] = refl
same_ends (x ∷ s) (y ∷ j) = elim (Bool-cases (x == y)) [
  | inl e ↦ rw e (same_ends s j)
  | inr e ↦ rw e
]

pub starts_with_self : (pre xs : List ℕ) → starts_with pre (pre ++ xs) ≡ true
unfolding starts_with
starts_with_self [] xs = refl
starts_with_self (x ∷ pre) xs = rw (==_self x) (starts_with_self pre xs)
