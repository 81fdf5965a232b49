-- ===== src/Radix/Valid.antt =====
-- What the tree keeps true of its nodes.
use statsite.Base.{ℕ, ◌≡◌, List, [], ◌∷◌}
use statsite.Radix.{Node, node, Edge, no_edge, to, node_key}
use statsite.Radix.Prefixes.{IsAscii}

-- The key of a node begins with the index of the edge that leads to it.
abbrev pub BeginsWith : ℕ → List ℕ → Type 0
BeginsWith i [] = ⊥
BeginsWith i (x ∷ k) = x ≡ i

module _ {ℓ} {V : Type ℓ} where
  unfoldable mutual
    pub IsNode : Node V → Type 0
    IsNode (node k leaf edges) = (i : ℕ) → IsEdge i (edges i)

    pub IsEdge : ℕ → Edge V → Type 0
    IsEdge i no_edge = Unit
    IsEdge i (to n) = BeginsWith i (node_key n) × IsAscii (node_key n) × IsNode n
