-- ===== src/PriorityHeap/Foreach.antt =====
-- `heap_foreach` meets the entries of the heap, each once.
use statsite.Base.{ℕ, zero, suc, ◌+◌, ◌≡◌, refl, ap, ◌∙◌, arith}
use statsite.PriorityHeap.{Table, Heap, foreach_from, heap_foreach}

module _ {ℓ} {K V S : Type ℓ} (func : S → K → V → S) where
  -- The calls for the first entries of a table, the last one outermost.
  unfoldable pub calls : Table K V → ℕ → S → S
  calls t zero st = st
  calls t (suc n) st = func (calls t n st) (t n).key (t n).value

  calls_next :
      (t : Table K V) (n : ℕ) (st : S)
      → calls t (n + 1) st ≡ func (calls t n st) (t n).key (t n).value
  unfolding calls
  calls_next t n st = let next : n + 1 ≡ suc n = omega arith in rw next refl

  foreach_from-calls :
      (left index : ℕ) (t : Table K V) (st : S)
      → foreach_from func left index t (calls t index st) ≡ calls t (index + left) st
  unfolding foreach_from
  foreach_from-calls zero index t st = let same : index + 0 ≡ index = omega arith in rw same refl
  foreach_from-calls (suc left) index t st =
      let further : index + suc left ≡ index + 1 + left = omega arith in
      rw (← calls_next t index st, further) (foreach_from-calls left (index + 1) t st)

  -- heap_foreach calls the function for each of the active entries, in the order of the table.
  pub heap_foreach-calls :
      (h : Heap K V) (st : S) → heap_foreach func h st ≡ calls h.table h.active_entries st
  unfolding heap_foreach calls
  heap_foreach-calls h st =
      let whole : 0 + h.active_entries ≡ h.active_entries = omega arith in
      foreach_from-calls h.active_entries 0 h.table st ∙ ap (λ n. calls h.table n st) whole
