-- ===== src/Radix/Longest.antt =====
-- `radix_longest_prefix` against `radix_search` on every prefix of the key.
use statsite.Base.{
  ℕ, ◌<◌, ◌≡◌, inl, inr, refl, sym, ap, ◌∙◌, fun_ext, List, [], ◌∷◌, Option, none, some,
  if◌then◌else◌, ◌==◌, length, drop, Bool-cases,
}
use statsite.Radix.{
  Leaf, Node, node, Edge, no_edge, to, node_key, starts_with, search_node, search_edge, match_node,
  match_edge, leaf_value, last_of, radix_search, radix_longest_prefix,
}
use statsite.Radix.Prefixes.{IsAscii, IsAscii-drop}
use statsite.Radix.Valid.{BeginsWith, IsNode, IsEdge}
use statsite.Radix.Steps.{at_ascii, step_node, step_end, step_to, step_null}

module _ {ℓ} {V : Type ℓ} where
  -- A search that found something replaces the last match.
  abbrev pub pick : Option (Option V) → Option V → Option V
  pick (some (some v)) last = some v
  pick (some none) last = last
  pick none last = last

  -- What a search finds for the longest prefix of a key for which it finds anything.
  unfoldable pub longest : (List ℕ → Option (Option V)) → List ℕ → (last : Option V) → Option V
  longest f [] last = pick (f []) last
  longest f (x ∷ s) last = longest (λ t. f (x ∷ t)) s (pick (f []) last)

  -- A search below a node with some bytes.
  abbrev through : List ℕ → (List ℕ → Option (Option V)) → List ℕ → Option (Option V)
  through k f t = if starts_with k t then f (drop (length k) t) else some none

  longest-nothing : (s : List ℕ) (last : Option V) → longest (λ t. some none) s last ≡ last
  unfolding longest
  longest-nothing [] last = refl
  longest-nothing (x ∷ s) last = longest-nothing s last

  longest-through :
      (k : List ℕ) (f : List ℕ → Option (Option V)) (s : List ℕ) (last : Option V)
      → longest (through k f) s last
        ≡ (if starts_with k s then longest f (drop (length k) s) last else last)
  unfolding longest starts_with
  longest-through [] f s last = refl
  longest-through (y ∷ k) f [] last = refl
  longest-through (y ∷ k) f (x ∷ s) last = elim (Bool-cases (y == x)) [
    | inl e ↦
        let same_search : (λ (t : List ℕ). through (y ∷ k) f (x ∷ t)) ≡ through k f =
          fun_ext (λ t. rw e refl) in
        ap (λ g. longest g s last) same_search ∙ rw e (longest-through k f s last)
    | inr e ↦
        let nothing : (λ (t : List ℕ). through (y ∷ k) f (x ∷ t)) ≡ (λ t. some none) =
          fun_ext (λ t. rw e refl) in
        ap (λ g. longest g s last) nothing ∙ rw e (longest-nothing s last)
  ]

  leaf_pick :
      (leaf : Option (Leaf V)) (last : Option V)
      → pick (some (leaf_value leaf)) last ≡ last_of leaf last
  leaf_pick none last = refl
  leaf_pick (some l) last = refl

  past_first :
      (k : List ℕ) (f : List ℕ → Option (Option V)) (c : ℕ) (s : List ℕ) (last : Option V)
      → BeginsWith c k
      → longest (λ t. through k f (c ∷ t)) s last ≡ longest (through k f) (c ∷ s) last
  unfolding longest starts_with
  past_first [] f c s last b = absurd b
  past_first (x ∷ k) f c s last b = refl

  at_end :
      (k : List ℕ) (leaf : Option (Leaf V)) (edges : ℕ → Edge V) (last : Option V)
      → match_node (node k leaf edges) [] last
        ≡ some (longest (search_node (node k leaf edges)) [] last)
  unfolding match_node search_node longest
  at_end k leaf edges last = ap some (sym (leaf_pick leaf last))

  at_byte :
      (k : List ℕ) (leaf : Option (Leaf V)) (edges : ℕ → Edge V) (c : ℕ) (s : List ℕ)
      (last : Option V)
      → c < 128
      → match_node (node k leaf edges) (c ∷ s) last
        ≡ match_edge (edges c) (c ∷ s) (last_of leaf last)
  unfolding match_node
  at_byte k leaf edges c s last b = at_ascii c (match_edge (edges c) (c ∷ s) (last_of leaf last)) b

  longest-node :
      (k : List ℕ) (leaf : Option (Leaf V)) (edges : ℕ → Edge V) (c : ℕ) (s : List ℕ)
      (last : Option V)
      → c < 128
      → longest (search_node (node k leaf edges)) (c ∷ s) last
        ≡ longest (λ t. search_edge (edges c) (c ∷ t)) s (last_of leaf last)
  unfolding longest
  longest-node k leaf edges c s last b =
      let step = fun_ext (λ t. step_node k leaf edges c t b) in
      ap (λ g. longest g s (pick (search_node (node k leaf edges) []) last)) step
      ∙ rw (step_end k leaf edges)
          (ap (longest (λ t. search_edge (edges c) (c ∷ t)) s) (leaf_pick leaf last))

  at_null : (s : List ℕ) (last : Option V) → match_edge no_edge s last ≡ some last
  unfolding match_edge
  at_null s last = refl

  at_edge :
      (n : Node V) (s : List ℕ) (last : Option V)
      → match_edge (to n) s last ≡ (
          if starts_with (node_key n) s
          then match_node n (drop (length (node_key n)) s) last
          else some last)
  unfolding match_edge
  at_edge n s last = refl

  behind_edge :
      (c : ℕ) (n : Node V) (s : List ℕ) (last : Option V)
      → BeginsWith c (node_key n)
      → match_node n (drop (length (node_key n)) (c ∷ s)) last
        ≡ some (longest (search_node n) (drop (length (node_key n)) (c ∷ s)) last)
      → match_edge (to n) (c ∷ s) last ≡ some (longest (λ t. search_edge (to n) (c ∷ t)) s last)
  behind_edge c n s last b ih =
      let f = search_node n in
      let k = node_key n in
      let step = fun_ext (λ t. step_to n (c ∷ t)) in
      at_edge n (c ∷ s) last
      ∙ elim (Bool-cases (starts_with k (c ∷ s))) [ inl e ↦ rw e ih | inr e ↦ rw e refl ]
      ∙ ap some (sym (longest-through k f (c ∷ s) last))
      ∙ ap some (sym (past_first k f c s last b))
      ∙ ap (λ g. some (longest g s last)) (sym step)

  mutual
    unfolding IsNode IsEdge

    match_node-longest :
        (n : Node V) (s : List ℕ) (last : Option V)
        → IsNode n
        → IsAscii s
        → match_node n s last ≡ some (longest (search_node n) s last)
    match_node-longest (node k leaf edges) [] last v h = at_end k leaf edges last
    match_node-longest (node k leaf edges) (c ∷ s) last v (b, h) =
        at_byte k leaf edges c s last b
        ∙ match_edge-longest c (edges c) s (last_of leaf last) (v c) (b, h)
        ∙ ap some (sym (longest-node k leaf edges c s last b))

    match_edge-longest :
        (c : ℕ) (e : Edge V) (s : List ℕ) (last : Option V)
        → IsEdge c e
        → IsAscii (c ∷ s)
        → match_edge e (c ∷ s) last ≡ some (longest (λ t. search_edge e (c ∷ t)) s last)
    match_edge-longest c no_edge s last ok h =
        at_null (c ∷ s) last
        ∙ ap some (
            sym (
              ap (λ g. longest g s last) (fun_ext (λ t. step_null (c ∷ t)))
              ∙ longest-nothing s last))
    match_edge-longest c (to n) s last ok h = behind_edge c n s last ok.0 (
        match_node-longest n (drop (length (node_key n)) (c ∷ s)) last ok.2
          (IsAscii-drop (length (node_key n)) (c ∷ s) h))

  -- In a tree in order radix_longest_prefix answers for an ASCII key with the value of its longest
  -- prefix, the empty one and itself included, for which radix_search finds a value.
  pub radix_longest_prefix_lem :
      (t : Node V) (key : List ℕ)
      → IsNode t
      → IsAscii key
      → radix_longest_prefix t key ≡ some (longest (radix_search t) key none)
  unfolding radix_longest_prefix radix_search
  radix_longest_prefix_lem t key v h = match_node-longest t key none v h
