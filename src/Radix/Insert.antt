-- ===== src/Radix/Insert.antt =====
-- `radix_insert` as an update of the map that `radix_search` reads.
use statsite.Base.{
  ℕ, ◌<◌, ◌≡◌, ◌≢◌, inl, inr, refl, sym, ap, ap₂, ◌∙◌, subst, List, [], ◌∷◌, ◌++◌, Option, none,
  some, if◌then◌else◌, arith, ◌==◌, length, length-append, drop, Bool-cases, ==→eq, ==_self, lt→ltb,
  ne→==_false, append-nil,
}
use statsite.Radix.{
  Leaf, Node, node, Edge, no_edge, to, node_key, starts_with, longest_prefix, search_node,
  search_edge, set_edge, no_edges, leaf_value, insert_node, insert_edge, radix_insert,
}
use statsite.Radix.Prefixes.{
  same, IsAscii, IsAscii-drop, IsAscii-append, Differ, longest_prefix-Common, same-append,
  drop_prefix, starts_with_self,
}
use statsite.Radix.Valid.{BeginsWith, IsNode, IsEdge}
use statsite.Radix.Steps.{new_leaf, step_node, step_end, step_to, step_null}
use statsite.Radix.Split.{EdgeInserts, split_whole, more_edge}

begins :
    (i : ℕ) (pre k s : List ℕ)
    → BeginsWith i (pre ++ k)
    → BeginsWith i (pre ++ s)
    → Differ k s
    → BeginsWith i pre
begins i (x ∷ pre) k s b c diff = b
begins i [] [] s b c diff = absurd diff
begins i [] (x ∷ k) [] b c diff = absurd c
begins i [] (x ∷ k) (y ∷ s) b c diff = absurd (diff (b ∙ sym c))

module _ {ℓ} {V : Type ℓ} where
  -- What an insertion of the rest `s` of a key at a node leaves, and the value that it replaced.
  pub record Inserts (n : Node V) (s : List ℕ) (value : V) (r : Option (Option V × Node V))
      : Type ℓ where
    pub after : Node V
    pub replaced : Option V
    pub runs : r ≡ some (replaced, after)
    pub was : search_node n s ≡ some replaced
    pub ok : IsNode after
    pub same_key : node_key after ≡ node_key n
    pub finds :
        (j : List ℕ)
        → IsAscii j
        → search_node after j ≡ (if same s j then some (some value) else search_node n j)

  relabelled :
      (k : List ℕ) (leaf leaf' : Option (Leaf V)) (edges : ℕ → Edge V) (value : V)
      → leaf_value leaf' ≡ some value
      → (j : List ℕ) → IsAscii j
      → search_node (node k leaf' edges) j
        ≡ (if same [] j then some (some value) else search_node (node k leaf edges) j)
  unfolding same
  relabelled k leaf leaf' edges value e [] h = step_end k leaf' edges ∙ ap some e
  relabelled k leaf leaf' edges value e (x ∷ j) (b, h) =
      step_node k leaf' edges x j b ∙ sym (step_node k leaf edges x j b)

  redirected :
      (k : List ℕ) (leaf : Option (Leaf V)) (edges : ℕ → Edge V) (c : ℕ) (s : List ℕ) (value : V)
      (n : Node V)
      → ((j : List ℕ)
          → IsAscii j
          → search_edge (to n) j
            ≡ (if same (c ∷ s) j then some (some value) else search_edge (edges c) j))
      → (j : List ℕ) → IsAscii j
      → search_node (node k leaf (set_edge edges c (to n))) j
        ≡ (if same (c ∷ s) j then some (some value) else search_node (node k leaf edges) j)
  unfolding same
  redirected k leaf edges c s value n e [] h =
      step_end k leaf (set_edge edges c (to n)) ∙ sym (step_end k leaf edges)
  redirected k leaf edges c s value n e (x ∷ j) (b, h) =
      rw (step_node k leaf (set_edge edges c (to n)) x j b, step_node k leaf edges x j b)
        (elim (Bool-cases (c == x)) [
          | inl q ↦ rw q (
              rw q at (e (x ∷ j) (b, h))
              ∙ ap (λ i. if same s j then some (some value) else search_edge (edges i) (x ∷ j))
                  (==→eq c x q))
          | inr q ↦ rw q refl
        ])

  -- The key ends at the node.
  ends_here :
      (k : List ℕ) (leaf : Option (Leaf V)) (edges : ℕ → Edge V) (key : List ℕ) (value : V)
      → IsNode (node k leaf edges)
      → Inserts (node k leaf edges) [] value (insert_node (node k leaf edges) key [] value)
  unfolding insert_node search_node same IsNode
  ends_here k none edges key value v = record {
    after = node k (some (record { key = key; value = value })) edges;
    replaced = none;
    runs = refl;
    was = refl;
    ok = v;
    same_key = refl;
    finds = relabelled k none (some (record { key = key; value = value })) edges value refl;
  }
  ends_here k (some l) edges key value v = record {
    after = node k (some (record { key = l.key; value = value })) edges;
    replaced = some l.value;
    runs = refl;
    was = refl;
    ok = v;
    same_key = refl;
    finds = relabelled k (some l) (some (record { key = l.key; value = value })) edges value refl;
  }

  -- It goes on behind an edge.
  goes_on :
      (k : List ℕ) (leaf : Option (Leaf V)) (edges : ℕ → Edge V) (key : List ℕ) (c : ℕ) (s : List ℕ)
      (value : V)
      → IsNode (node k leaf edges)
      → c < 128
      → EdgeInserts c (edges c) (c ∷ s) value (insert_edge (edges c) key (c ∷ s) value)
      → Inserts
          (node k leaf edges)
          (c ∷ s)
          value
          (insert_node (node k leaf edges) key (c ∷ s) value)
  unfolding insert_node IsNode
  goes_on k leaf edges key c s value v small e = record {
    after = node k leaf (set_edge edges c (to e.after));
    replaced = e.replaced;
    runs = rw (lt→ltb c 128 small, e.runs) refl;
    was = step_node k leaf edges c s small ∙ e.was;
    ok = more_edge edges c (to e.after) v e.ok;
    same_key = refl;
    finds = redirected k leaf edges c s value e.after e.finds;
  }

  -- The edge leads nowhere yet.
  new_edge :
      (c : ℕ) (key s : List ℕ) (value : V)
      → IsAscii (c ∷ s)
      → EdgeInserts c no_edge (c ∷ s) value (insert_edge no_edge key (c ∷ s) value)
  unfolding insert_edge IsEdge IsNode
  new_edge c key s value h = record {
    after = node (c ∷ s) (some (record { key = key; value = value })) no_edges;
    replaced = none;
    runs = refl;
    was = step_null (c ∷ s);
    ok = (refl, h, λ i. tt);
    finds = λ j q.
        new_leaf key value (c ∷ s) j q
        ∙ ap (λ o. if same (c ∷ s) j then some (some value) else o) (sym (step_null j));
  }

  below_finds :
      (n after : Node V) (s : List ℕ) (value : V) (j : List ℕ)
      → node_key after ≡ node_key n
      → search_node after (drop (length (node_key n)) j) ≡ (
          if same s (drop (length (node_key n)) j)
          then some (some value)
          else search_node n (drop (length (node_key n)) j))
      → search_edge (to after) j
        ≡ (if same (node_key n ++ s) j then some (some value) else search_edge (to n) j)
  below_finds n after s value j k e = elim (Bool-cases (starts_with (node_key n) j)) [
    | inl b ↦ rw (step_to after j, step_to n j, same-append (node_key n) s j, k, b) e
    | inr b ↦ rw (step_to after j, step_to n j, same-append (node_key n) s j, k, b) refl
  ]

  -- The node's whole key is shared.
  below :
      (i : ℕ) (n : Node V) (key s : List ℕ) (value : V)
      → IsEdge i (to n)
      → longest_prefix (node_key n ++ s) (node_key n) (length (node_key n)) ≡ length (node_key n)
      → Inserts n s value (insert_node n key s value)
      → EdgeInserts i
          (to n)
          (node_key n ++ s)
          value
          (insert_edge (to n) key (node_key n ++ s) value)
  unfolding insert_edge IsEdge
  below i n key s value (b, a, v) full r = record {
    after = r.after;
    replaced = r.replaced;
    runs = rw (full, ==_self (length (node_key n)), drop_prefix (node_key n) s) r.runs;
    was =
        rw
          (step_to n (node_key n ++ s), starts_with_self (node_key n) s, drop_prefix (node_key n) s)
          r.was;
    ok = rw r.same_key (b, a, r.ok);
    finds = λ j q.
        below_finds n r.after s value j r.same_key
          (r.finds (drop (length (node_key n)) j) (IsAscii-drop (length (node_key n)) j q));
  }

  -- The node's key is shared in part.
  halfway :
      (i : ℕ) (pre k : List ℕ) (leaf : Option (Leaf V)) (edges : ℕ → Edge V) (key s : List ℕ)
      (value : V)
      → IsEdge i (to (node (pre ++ k) leaf edges))
      → Differ k s
      → IsAscii (pre ++ s)
      → BeginsWith i (pre ++ s)
      → longest_prefix (pre ++ s) (pre ++ k) (length (pre ++ k)) ≡ length pre
      → EdgeInserts i
          (to (node (pre ++ k) leaf edges))
          (pre ++ s)
          value
          (insert_edge (to (node (pre ++ k) leaf edges)) key (pre ++ s) value)
  unfolding insert_edge IsEdge
  halfway i pre [] leaf edges key s value ok diff h b size = absurd diff
  halfway i pre (c ∷ k) leaf edges key s value ok diff h b size =
      let ne : length pre ≢ length (pre ++ c ∷ k) =
        λ e. absurd (omega (arith, e, length-append pre (c ∷ k))) in
      rw (size, ne→==_false (length pre) (length (pre ++ c ∷ k)) ne)
        (split_whole pre c k leaf edges key s value i ok diff (IsAscii-append pre s h).1
          (begins i pre (c ∷ k) s ok.0 b diff))

  behind_edge :
      (i : ℕ) (n : Node V) (key s : List ℕ) (value : V)
      → IsEdge i (to n)
      → IsAscii s
      → BeginsWith i s
      → ((t : List ℕ) → IsAscii t → Inserts n t value (insert_node n key t value))
      → EdgeInserts i (to n) s value (insert_edge (to n) key s value)
  behind_edge i (node k leaf edges) key s value ok h b ih =
      let common = longest_prefix-Common s k in
      let pre = common.pre in
      let rest = common.search_rest in
      let at = λ (k' s' : List ℕ).
        EdgeInserts i (to (node k' leaf edges)) s' value
          (insert_edge (to (node k' leaf edges)) key s' value) in
      elim common.parts [
        | inl e ↦
            let whole : k ≡ pre = common.key_is ∙ ap (λ l. pre ++ l) e ∙ append-nil pre in
            let s_is : s ≡ k ++ rest = common.search_is ∙ ap (λ l. l ++ rest) (sym whole) in
            let full : longest_prefix (k ++ rest) k (length k) ≡ length k =
              ap (λ t. longest_prefix t k (length k)) (sym s_is)
              ∙ common.size
              ∙ ap length (sym whole) in
            let (_, ascii) = IsAscii-append k rest (subst IsAscii s_is h) in
            subst (at k) (sym s_is)
              (below i (node k leaf edges) key rest value ok full (ih rest ascii))
        | inr diff ↦
            let size =
              sym (ap₂ (λ t l. longest_prefix t l (length l)) common.search_is common.key_is)
              ∙ common.size in
            subst (at k) (sym common.search_is) (
              subst (λ k'. at k' (pre ++ rest)) (sym common.key_is)
                (halfway i pre common.key_rest leaf edges key rest value
                  (subst (λ k'. IsEdge i (to (node k' leaf edges))) common.key_is ok) diff
                  (subst IsAscii common.search_is h) (subst (BeginsWith i) common.search_is b)
                  size))
      ]

  mutual
    unfolding IsNode IsEdge

    insert_node-Inserts :
        (n : Node V) (key s : List ℕ) (value : V)
        → IsNode n
        → IsAscii s
        → Inserts n s value (insert_node n key s value)
    insert_node-Inserts (node k leaf edges) key [] value v h = ends_here k leaf edges key value v
    insert_node-Inserts (node k leaf edges) key (c ∷ s) value v (b, h) =
        goes_on k leaf edges key c s value v b
          (insert_edge-EdgeInserts c (edges c) key s value (v c) (b, h))

    insert_edge-EdgeInserts :
        (c : ℕ) (e : Edge V) (key s : List ℕ) (value : V)
        → IsEdge c e
        → IsAscii (c ∷ s)
        → EdgeInserts c e (c ∷ s) value (insert_edge e key (c ∷ s) value)
    insert_edge-EdgeInserts c no_edge key s value ok h = new_edge c key s value h
    insert_edge-EdgeInserts c (to n) key s value ok h =
        behind_edge c n key (c ∷ s) value ok h refl
          (λ t q. insert_node-Inserts n key t value ok.2 q)

  -- radix_insert of an ASCII key into a tree in order leaves a tree in order and touches no memory
  -- outside the edges. It hands out the value that the key had, and afterwards radix_search finds
  -- the new value under the key and what it found before under every other ASCII key.
  pub radix_insert-Inserts :
      (t : Node V) (key : List ℕ) (value : V)
      → IsNode t
      → IsAscii key
      → Inserts t key value (radix_insert t key value)
  unfolding radix_insert
  radix_insert-Inserts t key value v h = insert_node-Inserts t key key value v h
