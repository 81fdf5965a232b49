-- ===== src/Hashmap/Iterate.antt =====
-- An iteration meets the pairs of the table in the order of the array, until the callback stops it.
use statsite.Base.{
  ℕ, suc, ◌≡◌, refl, sym, ap, ◌∙◌, List, [], ◌∷◌, ◌++◌, Bool, true, false, none, some,
}
use statsite.Hashmap.{Hashmap, iter_chain, iter_table, hashmap_iter}
use statsite.Hashmap.Links.{Chain, null, entry, freed}
use statsite.Hashmap.Bucket.{IsSound, IsSlot, IsSlot-IsSound, pairs}
use statsite.Hashmap.Pairs.{Decides}
use statsite.Hashmap.View.{chain_at, IsTable}
use statsite.Hashmap.Doubling.{all_pairs}

module _ {ℓ} {K V S : Type ℓ} (cb : S → K → V → Bool × S) where
  -- The calls over a list of pairs: the first one that asks for it is the last.
  unfoldable pub visit : List (K × V) → (should_break : Bool) → S → Bool × S
  visit ps true arg = (true, arg)
  visit [] false arg = (false, arg)
  visit ((k, v) ∷ ps) false arg = visit ps (cb arg k v).0 (cb arg k v).1

  iter_chain-visit :
      (c : Chain K V) (stop : Bool) (arg : S)
      → IsSound c
      → iter_chain cb c stop arg ≡ some (visit (pairs c) stop arg)
  unfolding iter_chain visit pairs
  iter_chain-visit null true arg s = refl
  iter_chain-visit null false arg s = refl
  iter_chain-visit (entry none next) true arg s = refl
  iter_chain-visit (entry none next) false arg s = refl
  iter_chain-visit (entry (some (k, v)) next) true arg s = refl
  iter_chain-visit (entry (some (k, v)) next) false arg s =
      iter_chain-visit next (cb arg k v).0 (cb arg k v).1 s
  iter_chain-visit freed stop arg s = absurd s

  visit-append :
      (ps qs : List (K × V)) (stop : Bool) (arg : S)
      → visit (ps ++ qs) stop arg ≡ visit qs (visit ps stop arg).0 (visit ps stop arg).1
  unfolding visit
  visit-append ps qs true arg = refl
  visit-append [] qs false arg = refl
  visit-append ((k, v) ∷ ps) qs false arg = visit-append ps qs (cb arg k v).0 (cb arg k v).1

  iter_table-visit :
      (cs : List (Chain K V)) (stop : Bool) (arg : S)
      → ((i : ℕ) → IsSlot (chain_at cs i))
      → iter_table cb cs stop arg ≡ some (visit (all_pairs cs) stop arg)
  unfolding iter_table visit all_pairs
  iter_table-visit [] true arg ok = refl
  iter_table-visit [] false arg ok = refl
  iter_table-visit (c ∷ cs) true arg ok = refl
  iter_table-visit (c ∷ cs) false arg ok =
      rw (iter_chain-visit c false arg (IsSlot-IsSound c (ok 0))) (
        iter_table-visit cs (visit (pairs c) false arg).0 (visit (pairs c) false arg).1
          (λ i. ok (suc i))
        ∙ ap some (sym (visit-append (pairs c) (all_pairs cs) false arg)))

module _ {ℓ} {K V S : Type ℓ} (hash : K → ℕ) (eq : K → K → Bool) (d : Decides eq) where
  -- On a table in order hashmap_iter touches no freed memory, and calls back for the pairs of the
  -- table, chain after chain in the order of the array, until the callback asks to stop.
  pub hashmap_iter-visits :
      (map : Hashmap K V) (cb : S → K → V → Bool × S) (arg : S)
      → IsTable hash eq d map.table_size map.table
      → hashmap_iter cb map arg ≡ some (visit cb (all_pairs map.table) false arg)
  unfolding hashmap_iter
  hashmap_iter-visits map cb arg v = iter_table-visit cb map.table false arg v.slots
