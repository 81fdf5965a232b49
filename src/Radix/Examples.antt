-- ===== src/Radix/Examples.antt =====
-- A tree for src/radix.c with the keys "ab" and "ac".
use statsite.Base.{ℕ, ◌≡◌, refl, List, [], ◌∷◌, ◌++◌, none, some, arith}
use statsite.Radix.{
  Node, node, to, radix_insert, radix_search, radix_longest_prefix, insert_node, radix_init,
  starts_with, match_node, no_edges, set_edge,
}
use statsite.Radix.Valid.{IsNode, IsEdge}
use statsite.Radix.Split.{more_edge}
use statsite.Radix.Insert.{Inserts, radix_insert-Inserts}
use statsite.Radix.Longest.{longest, radix_longest_prefix_lem}

abbrev ab : List ℕ
ab = b'a' ∷ b'b' ∷ []

abbrev ac : List ℕ
ac = b'a' ∷ b'c' ∷ []

abbrev one_key : Node ℕ
one_key =
    node [] none
      (set_edge no_edges b'a' (to (node ab (some (record { key = ab; value = 1 })) no_edges)))

one_key-IsNode : IsNode one_key
unfolding IsNode IsEdge
one_key-IsNode =
    more_edge no_edges b'a' (to (node ab (some (record { key = ab; value = 1 })) no_edges))
      (λ i. tt) (refl, omega arith, λ i. tt)

built : radix_insert radix_init ab 1 ≡ some (none, one_key)
unfolding radix_insert insert_node radix_init
built = refl

radix_insert-Inserts_example : Inserts one_key ac 2 (radix_insert one_key ac 2)
radix_insert-Inserts_example = radix_insert-Inserts one_key ac 2 one_key-IsNode (omega arith)

radix_longest_prefix_lem_example :
    radix_longest_prefix one_key (ab ++ ac) ≡ some (longest (radix_search one_key) (ab ++ ac) none)
radix_longest_prefix_lem_example =
    radix_longest_prefix_lem one_key (ab ++ ac) one_key-IsNode (omega arith)

longest_run : radix_longest_prefix one_key (ab ++ ac) ≡ some (some 1)
unfolding radix_longest_prefix match_node starts_with
longest_run = refl
