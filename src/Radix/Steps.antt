-- ===== src/Radix/Steps.antt =====
-- The steps of a search, and a search through a node whose key has two parts.
use statsite.Base.{
  ℕ, ◌<◌, ◌≡◌, inl, inr, refl, ap, ◌∙◌, List, [], ◌∷◌, ◌++◌, false, Option, none, some,
  if◌then◌else◌, length, drop, Bool-cases, lt→ltb,
}
use statsite.Radix.{
  Leaf, Node, node, Edge, no_edge, to, node_key, starts_with, search_node, search_edge, edge_at,
  no_edges, leaf_value,
}
use statsite.Radix.Prefixes.{same, IsAscii, IsAscii-drop, starts_with-append, same_ends, drop-drop}

pub at_ascii {ℓ} : {A : Type ℓ} (c : ℕ) (found : Option A) → c < 128 → edge_at c found ≡ found
at_ascii c found h = rw (lt→ltb c 128 h)

module _ {ℓ} {V : Type ℓ} where
  any_key :
      (k k' : List ℕ) (leaf : Option (Leaf V)) (edges : ℕ → Edge V) (j : List ℕ)
      → search_node (node k leaf edges) j ≡ search_node (node k' leaf edges) j
  unfolding search_node
  any_key k k' leaf edges [] = refl
  any_key k k' leaf edges (x ∷ j) = refl

  pub step_node :
      (k : List ℕ) (leaf : Option (Leaf V)) (edges : ℕ → Edge V) (x : ℕ) (j : List ℕ)
      → x < 128
      → search_node (node k leaf edges) (x ∷ j) ≡ search_edge (edges x) (x ∷ j)
  unfolding search_node
  step_node k leaf edges x j h = at_ascii x (search_edge (edges x) (x ∷ j)) h

  pub step_end :
      (k : List ℕ) (leaf : Option (Leaf V)) (edges : ℕ → Edge V)
      → search_node (node k leaf edges) [] ≡ some (leaf_value leaf)
  unfolding search_node
  step_end k leaf edges = refl

  pub step_to :
      (n : Node V) (s : List ℕ)
      → search_edge (to n) s ≡ (
          if starts_with (node_key n) s
          then search_node n (drop (length (node_key n)) s)
          else some none)
  unfolding search_edge
  step_to n s = refl

  pub step_null : (s : List ℕ) → search_edge {V = V} no_edge s ≡ some none
  unfolding search_edge
  step_null s = refl

  -- A node for other first bytes.
  pub step_miss :
      (n : Node V) (s : List ℕ)
      → starts_with (node_key n) s ≡ false
      → search_edge (to n) s ≡ some none
  step_miss n s e = rw (step_to n s, e)

  -- A search through a node whose key has two parts.
  pub search_edge-append :
      (pre k : List ℕ) (leaf : Option (Leaf V)) (edges : ℕ → Edge V) (j : List ℕ)
      → search_edge (to (node (pre ++ k) leaf edges)) j ≡ (
          if starts_with pre j
          then search_edge (to (node k leaf edges)) (drop (length pre) j)
          else some none)
  search_edge-append pre k leaf edges j = elim (Bool-cases (starts_with pre j)) [
    | inr e ↦ rw (step_to (node (pre ++ k) leaf edges) j, starts_with-append pre k j, e)
    | inl e ↦
        rw
          (
            step_to (node (pre ++ k) leaf edges) j,
            starts_with-append pre k j,
            e,
            drop-drop pre k j,
            step_to (node k leaf edges) (drop (length pre) j),
          )
          (ap
            (λ (o : Option (Option V)).
              if starts_with k (drop (length pre) j) then o else some none)
            (any_key (pre ++ k) k leaf edges (drop (length k) (drop (length pre) j))))
  ]

  abbrev pub leaf_of : List ℕ → V → Option (Leaf V)
  leaf_of key value = some (record { key = key; value = value })

  module _ (key : List ℕ) (value : V) where
    -- A node with the new leaf alone.
    leaf_only :
        (s j : List ℕ)
        → IsAscii j
        → search_node (node s (leaf_of key value) no_edges) j
          ≡ (if same [] j then some (some value) else some none)
    unfolding search_node same
    leaf_only s [] h = refl
    leaf_only s (x ∷ j) (b, h) =
        at_ascii x (search_edge {V = V} no_edge (x ∷ j)) b ∙ step_null (x ∷ j)

    pub new_leaf :
        (s j : List ℕ)
        → IsAscii j
        → search_edge (to (node s (leaf_of key value) no_edges)) j
          ≡ (if same s j then some (some value) else some none)
    new_leaf s j h = elim (Bool-cases (starts_with s j)) [
      | inr e ↦ rw (step_to (node s (leaf_of key value) no_edges) j, same_ends s j, e)
      | inl e ↦
          rw (step_to (node s (leaf_of key value) no_edges) j, same_ends s j, e)
            (leaf_only s (drop (length s) j) (IsAscii-drop (length s) j h))
    ]
