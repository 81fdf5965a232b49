-- ===== src/Radix.antt =====
-- src/radix.c: a radix tree from keys without null bytes to values. A key is the list of its bytes,
-- and a NULL key is read like an empty one. The bytes of a node are its own list; in the code they
-- lie inside the key of a leaf, which is never freed before the tree. `char` is signed: a byte from
-- 128 on is a negative index into the edges, outside the array, and gives `none`.
pub mod Prefixes
pub mod Valid
pub mod Steps
pub mod Split
pub mod Insert
pub mod Longest
pub mod Examples
use statsite.Base.{
  ℕ, zero, suc, ◌+◌, List, [], ◌∷◌, ◌++◌, Bool, true, false, Option, none, some, ltb, ◌==◌,
  if◌then◌else◌, length, take, drop, ◌>>=◌, not,
}

pub record Leaf {ℓ} (V : Type ℓ) : Type ℓ where
  pub key : List ℕ
  pub value : V

-- A node with its bytes, its edge 0 and its other edges; a pointer to a node, or NULL.
mutual
  pub data Node {ℓ} (V : Type ℓ) : Type ℓ where
    node : List ℕ → Option (Leaf V) → (ℕ → Edge V) → Node V

  pub data Edge {ℓ} (V : Type ℓ) : Type ℓ where
    no_edge : Edge V
    to : Node V → Edge V

-- The first `i` at which the strings differ or end, at most `max`.
unfoldable pub longest_prefix : List ℕ → List ℕ → (max : ℕ) → ℕ
longest_prefix k1 k2 zero = 0
longest_prefix [] k2 (suc max) = 0
longest_prefix (x ∷ k1) [] (suc max) = 0
longest_prefix (x ∷ k1) (y ∷ k2) (suc max) =
    if not (x == y) then 0 else longest_prefix k1 k2 max + 1

-- `!strncmp(search, key, key_len)`
unfoldable pub starts_with : (key search : List ℕ) → Bool
starts_with [] search = true
starts_with (x ∷ key) [] = false
starts_with (x ∷ key) (y ∷ search) = if x == y then starts_with key search else false

-- `edges[(int)*search]` for a search key that is not exhausted, and what is found there.
abbrev pub edge_at {ℓ} : {A : Type ℓ} → ℕ → Option A → Option A
edge_at c found = if ltb c 128 then found else none

module _ {ℓ} {V : Type ℓ} where
  abbrev pub node_key : Node V → List ℕ
  node_key (node key leaf edges) = key

  abbrev pub no_edges : ℕ → Edge V
  no_edges i = no_edge

  abbrev pub set_edge : (ℕ → Edge V) → ℕ → Edge V → ℕ → Edge V
  set_edge edges i e j = if i == j then e else edges j

  unfoldable pub radix_init : Node V
  radix_init = node [] none no_edges

  abbrev pub leaf_value : Option (Leaf V) → Option V
  leaf_value none = none
  leaf_value (some l) = some l.value

  -- The loop of `radix_search` at a node, and behind an edge.
  unfoldable mutual
    pub search_node : Node V → List ℕ → Option (Option V)
    search_node (node k leaf edges) [] = some (leaf_value leaf)
    search_node (node k leaf edges) (c ∷ rest) = edge_at c (search_edge (edges c) (c ∷ rest))

    pub search_edge : Edge V → List ℕ → Option (Option V)
    search_edge no_edge search = some none
    search_edge (to n) search =
        if starts_with (node_key n) search
        then search_node n (drop (length (node_key n)) search)
        else some none

  unfoldable pub radix_search : Node V → List ℕ → Option (Option V)
  radix_search t key = search_node t key

  abbrev pub last_of : Option (Leaf V) → Option V → Option V
  last_of none last_match = last_match
  last_of (some l) last_match = some l.value

  -- The loop of `radix_longest_prefix`.
  unfoldable mutual
    pub match_node : Node V → List ℕ → (last_match : Option V) → Option (Option V)
    match_node (node k leaf edges) [] last_match = some (last_of leaf last_match)
    match_node (node k leaf edges) (c ∷ rest) last_match =
        edge_at c (match_edge (edges c) (c ∷ rest) (last_of leaf last_match))

    pub match_edge : Edge V → List ℕ → (last_match : Option V) → Option (Option V)
    match_edge no_edge search last_match = some last_match
    match_edge (to n) search last_match =
        if starts_with (node_key n) search
        then match_node n (drop (length (node_key n)) search) last_match
        else some last_match

  unfoldable pub radix_longest_prefix : Node V → List ℕ → Option (Option V)
  radix_longest_prefix t key = match_node t key none

  -- The split of the node behind an edge: `pre` is what the keys share, and what is left of the
  -- node's key and of the new one follows. The old node goes below a new one, and the new leaf into
  -- that one or below it.
  unfoldable pub split_at :
      (pre key_rest search_rest : List ℕ)
      → Option (Leaf V)
      → (ℕ → Edge V)
      → (key : List ℕ) → V
      → Option (Node V)
  split_at pre [] s leaf edges key value = none
  split_at pre (c ∷ k) [] leaf edges key value = edge_at c (
      some (
        node pre (some (record { key = key; value = value }))
          (set_edge no_edges c (to (node (c ∷ k) leaf edges)))))
  split_at pre (c ∷ k) (d ∷ s) leaf edges key value = edge_at c (
      edge_at d (
        some (
          node pre none (
            set_edge (set_edge no_edges c (to (node (c ∷ k) leaf edges))) d
              (to (node (d ∷ s) (some (record { key = key; value = value })) no_edges))))))

  unfoldable pub split_node : (p : ℕ) → Node V → (key search : List ℕ) → V → Option (Node V)
  split_node p (node k leaf edges) key search value =
      split_at (take p k) (drop p k) (drop p search) leaf edges key value

  -- The loop of `radix_insert`: the value that was replaced, if any, and the tree.
  unfoldable mutual
    pub insert_node : Node V → (key search : List ℕ) → V → Option (Option V × Node V)
    insert_node (node k leaf edges) key [] value = some (elim leaf [
      | none ↦ (none, node k (some (record { key = key; value = value })) edges)
      | some l ↦ (some l.value, node k (some (record { key = l.key; value = value })) edges)
    ])
    insert_node (node k leaf edges) key (c ∷ rest) value = edge_at c (do
      (old, n) ← insert_edge (edges c) key (c ∷ rest) value
      some (old, node k leaf (set_edge edges c (to n))))

    -- What the edge leads to afterwards.
    pub insert_edge : Edge V → (key search : List ℕ) → V → Option (Option V × Node V)
    insert_edge no_edge key search value =
        some (none, node search (some (record { key = key; value = value })) no_edges)
    insert_edge (to n) key search value =
        let p = longest_prefix search (node_key n) (length (node_key n)) in
        let below = insert_node n key (drop (length (node_key n)) search) value in
        if p == length (node_key n)
        then below
        else (do n' ← split_node p n key search value; some (none, n'))

  unfoldable pub radix_insert : Node V → List ℕ → V → Option (Option V × Node V)
  radix_insert t key value = insert_node t key key value

-- The callback has its own state `S`; its answer stops the iteration when it is not zero.
module _ {ℓ} {V S : Type ℓ} (iter_func : S → List ℕ → V → ℕ × S) where
  abbrev pub visit_leaf : Option (Leaf V) → S → ℕ × S
  visit_leaf none st = (0, st)
  visit_leaf (some l) st = iter_func st l.key l.value

  -- `for (int i=1; !ret && i < 256; i++)`, with `left` rounds to go, over the visits of the edges.
  abbrev pub iter_edges : (left i : ℕ) → (ℕ → S → ℕ × S) → ℕ × S → ℕ × S
  iter_edges zero i visits (ret, st) = (ret, st)
  iter_edges (suc left) i visits (ret, st) =
      if ret == 0 then iter_edges left (i + 1) visits (visits i st) else (ret, st)

  unfoldable mutual
    pub iter_node : Node V → S → ℕ × S
    iter_node (node k leaf edges) st =
        iter_edges 255 1 (λ i. iter_edge (edges i)) (visit_leaf leaf st)

    pub iter_edge : Edge V → S → ℕ × S
    iter_edge no_edge st = (0, st)
    iter_edge (to n) st = iter_node n st

  unfoldable pub radix_foreach : Node V → S → ℕ × S
  radix_foreach t st = iter_node t st
