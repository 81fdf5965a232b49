-- ===== src/Radix/Split.antt =====
-- The split of a node behind an edge, when a new key leaves its bytes half way.
use statsite.Base.{
  ℕ, ◌≡◌, ◌≢◌, inl, inr, refl, sym, ap, ◌∙◌, List, [], ◌∷◌, ◌++◌, Option, none, some, ◌>>=◌,
  if◌then◌else◌, ◌==◌, length, drop, Bool-cases, ==→eq, ==_false→ne, subst, lt→ltb, ne→==_false,
}
use statsite.Radix.{
  Leaf, Node, node, Edge, to, starts_with, search_node, search_edge, split_at, split_node, set_edge,
  no_edges,
}
use statsite.Radix.Prefixes.{
  same, IsAscii, IsAscii-drop, IsAscii-append, Differ, same-append, drop_prefix, take_prefix,
}
use statsite.Radix.Valid.{BeginsWith, IsNode, IsEdge}
use statsite.Radix.Steps.{
  step_node, step_end, step_to, step_null, step_miss, search_edge-append, leaf_of, new_leaf,
}

module _ {ℓ} {V : Type ℓ} where
  -- Below the common part: the new node, where the keys differ.
  module _ (c : ℕ) (k : List ℕ) (leaf : Option (Leaf V)) (edges : ℕ → Edge V) (key : List ℕ)
      (value : V) where
    abbrev old : Edge V
    old = to (node (c ∷ k) leaf edges)

    abbrev fresh : Option (Leaf V)
    fresh = leaf_of key value

    miss : (x : ℕ) (j : List ℕ) → c ≢ x → search_edge old (x ∷ j) ≡ some none
    unfolding starts_with
    miss x j ne = step_miss (node (c ∷ k) leaf edges) (x ∷ j) (rw (ne→==_false c x ne))

    miss_end : search_edge old [] ≡ some none
    unfolding starts_with
    miss_end = step_miss (node (c ∷ k) leaf edges) [] refl

    under_short :
        (pre j : List ℕ)
        → IsAscii j
        → search_node (node pre fresh (set_edge no_edges c old)) j
          ≡ (if same [] j then some (some value) else search_edge old j)
    unfolding same
    under_short pre [] h = step_end pre fresh (set_edge no_edges c old)
    under_short pre (x ∷ j) (b, h) =
        step_node pre fresh (set_edge no_edges c old) x j b ∙ elim (Bool-cases (c == x)) [
          | inl e ↦ rw e refl
          | inr e ↦ rw e (step_null (x ∷ j) ∙ sym (miss x j (==_false→ne c x e)))
        ]

    under_long :
        (pre : List ℕ) (d : ℕ) (s j : List ℕ)
        → c ≢ d
        → IsAscii j
        → search_node
            (node pre none
              (set_edge (set_edge no_edges c old) d (to (node (d ∷ s) fresh no_edges))))
            j
          ≡ (if same (d ∷ s) j then some (some value) else search_edge old j)
    unfolding same
    under_long pre d s [] ne h =
        step_end pre none (set_edge (set_edge no_edges c old) d (to (node (d ∷ s) fresh no_edges)))
        ∙ sym (miss_end)
    under_long pre d s (x ∷ j) ne (b, h) =
        step_node pre none (set_edge (set_edge no_edges c old) d (to (node (d ∷ s) fresh no_edges)))
          x j b
        ∙ elim (Bool-cases (d == x)) [
          | inl e ↦
              let away : c ≢ x = λ f. ne (f ∙ sym (==→eq d x e)) in
              rw (miss x j away, e) (new_leaf key value (d ∷ s) (x ∷ j) (b, h) ∙ rw e refl)
          | inr e ↦ rw e (elim (Bool-cases (c == x)) [
            | inl f ↦ rw f refl
            | inr f ↦ rw f (step_null (x ∷ j) ∙ sym (miss x j (==_false→ne c x f)))
          ])
        ]

  -- What an insertion of `s` behind the edge `i` leaves there, and the value that it replaced.
  pub record EdgeInserts (i : ℕ) (e : Edge V) (s : List ℕ) (value : V)
      (r : Option (Option V × Node V)) : Type ℓ where
    pub after : Node V
    pub replaced : Option V
    pub runs : r ≡ some (replaced, after)
    pub was : search_edge e s ≡ some replaced
    pub ok : IsEdge i (to after)
    pub finds :
        (j : List ℕ)
        → IsAscii j
        → search_edge (to after) j ≡ (if same s j then some (some value) else search_edge e j)

  -- A changed node that the common bytes lead to.
  through :
      (pre s j : List ℕ) (leaf leaf' : Option (Leaf V)) (edges edges' : ℕ → Edge V) (k : List ℕ)
      (value : V)
      → search_node (node pre leaf' edges') (drop (length pre) j) ≡ (
          if same s (drop (length pre) j)
          then some (some value)
          else search_edge (to (node k leaf edges)) (drop (length pre) j))
      → search_edge (to (node pre leaf' edges')) j ≡ (
          if same (pre ++ s) j
          then some (some value)
          else search_edge (to (node (pre ++ k) leaf edges)) j)
  through pre s j leaf leaf' edges edges' k value e = elim (Bool-cases (starts_with pre j)) [
    | inl b ↦
        rw
          (
            step_to (node pre leaf' edges') j,
            search_edge-append pre k leaf edges j,
            same-append pre s j,
            b,
          )
          e
    | inr b ↦
        rw
          (
            step_to (node pre leaf' edges') j,
            search_edge-append pre k leaf edges j,
            same-append pre s j,
            b,
          )
          refl
  ]

  lost_at :
      (c : ℕ) (k : List ℕ) (leaf : Option (Leaf V)) (edges : ℕ → Edge V) (s : List ℕ)
      → Differ (c ∷ k) s
      → search_edge (to (node (c ∷ k) leaf edges)) s ≡ some none
  unfolding starts_with
  lost_at c k leaf edges [] diff = step_miss (node (c ∷ k) leaf edges) [] refl
  lost_at c k leaf edges (d ∷ s) ne =
      step_miss (node (c ∷ k) leaf edges) (d ∷ s) (rw (ne→==_false c d ne))

  missed :
      (pre s : List ℕ) (c : ℕ) (k : List ℕ) (leaf : Option (Leaf V)) (edges : ℕ → Edge V)
      → Differ (c ∷ k) s
      → search_edge (to (node (pre ++ c ∷ k) leaf edges)) (pre ++ s) ≡ some none
  missed pre s c k leaf edges diff = elim (Bool-cases (starts_with pre (pre ++ s))) [
    | inr b ↦ rw (search_edge-append pre (c ∷ k) leaf edges (pre ++ s), b)
    | inl b ↦
        rw (search_edge-append pre (c ∷ k) leaf edges (pre ++ s), b, drop_prefix pre s)
          (lost_at c k leaf edges s diff)
  ]

  pub more_edge :
      (edges : ℕ → Edge V) (c : ℕ) (e : Edge V)
      → ((i : ℕ) → IsEdge i (edges i))
      → IsEdge c e
      → (i : ℕ) → IsEdge i (set_edge edges c e i)
  more_edge edges c e all ok i = elim (Bool-cases (c == i)) [
    | inl q ↦ rw q (subst (λ k. IsEdge k e) (==→eq c i q) ok)
    | inr q ↦ rw q (all i)
  ]

  one_edge : (c : ℕ) (e : Edge V) → IsEdge c e → (i : ℕ) → IsEdge i (set_edge no_edges c e i)
  unfolding IsEdge
  one_edge c e ok = more_edge no_edges c e (λ i. tt) ok

  pub split_whole :
      (pre : List ℕ) (c : ℕ) (k : List ℕ) (leaf : Option (Leaf V)) (edges : ℕ → Edge V)
      (key s : List ℕ) (value : V) (i : ℕ)
      → IsEdge i (to (node (pre ++ c ∷ k) leaf edges))
      → Differ (c ∷ k) s
      → IsAscii s
      → BeginsWith i pre
      → EdgeInserts i (to (node (pre ++ c ∷ k) leaf edges)) (pre ++ s) value (do
        n ← split_node (length pre) (node (pre ++ c ∷ k) leaf edges) key (pre ++ s) value
        some (none, n))
  unfolding split_node split_at IsEdge IsNode
  split_whole pre c k leaf edges key [] value i (_, a, v) diff h b =
      let (ap, (ac, ak)) = IsAscii-append pre (c ∷ k) a in
      record {
        after =
            node pre (fresh c k leaf edges key value)
              (set_edge no_edges c (old c k leaf edges key value));
        replaced = none;
        runs =
            rw
              (
                drop_prefix pre (c ∷ k),
                drop_prefix pre [],
                take_prefix pre (c ∷ k),
                lt→ltb c 128 ac,
              )
              refl;
        was = missed pre [] c k leaf edges diff;
        ok = (b, ap, one_edge c (old c k leaf edges key value) (refl, (ac, ak), v));
        finds = λ j q.
            through pre [] j leaf (fresh c k leaf edges key value) edges
              (set_edge no_edges c (old c k leaf edges key value)) (c ∷ k) value
              (under_short c k leaf edges key value pre (drop (length pre) j)
                (IsAscii-drop (length pre) j q));
      }
  split_whole pre c k leaf edges key (d ∷ s) value i (_, a, v) diff (hd, hs) b =
      let (ap, (ac, ak)) = IsAscii-append pre (c ∷ k) a in
      let leaf' = fresh c k leaf edges key value in
      let edges' =
        set_edge (set_edge no_edges c (old c k leaf edges key value)) d
          (to (node (d ∷ s) leaf' no_edges)) in
      record {
        after = node pre none edges';
        replaced = none;
        runs =
            rw
              (
                drop_prefix pre (c ∷ k),
                drop_prefix pre (d ∷ s),
                take_prefix pre (c ∷ k),
                lt→ltb c 128 ac,
                lt→ltb d 128 hd,
              )
              refl;
        was = missed pre (d ∷ s) c k leaf edges diff;
        ok = (
          b,
          ap,
          more_edge (set_edge no_edges c (old c k leaf edges key value)) d
              (to (node (d ∷ s) leaf' no_edges))
              (one_edge c (old c k leaf edges key value) (refl, (ac, ak), v))
              (refl, (hd, hs), λ i. tt),
        );
        finds = λ j q. through pre (d ∷ s) j leaf none edges edges' (c ∷ k) value (
            under_long c k leaf edges key value pre d s (drop (length pre) j) diff
              (IsAscii-drop (length pre) j q));
      }
