-- ===== src/CmQuantile/Insert.antt =====
-- `cm_insert` of src/cm_quantile.c: values go out of the buffer into the samples, at a cursor.
use statsite.Base.{
  ℕ, zero, suc, ◌+◌, List, [], ◌∷◌, ◌++◌, Bool, Option, none, some, ltb, if◌then◌else◌, length,
  get_elem?, insert_at, ◌>>=◌,
}
use statsite.Base.Words.{add64, sub64}
use statsite.Doubles.{Doubles}
use statsite.CmQuantile.{HeapOps, CmSample, CmQuantile, cm_reset_insert_cursor, cm_cursor_increment}

module _ {D H : Type 0} (doubles : Doubles D) (heap : HeapOps D H) where
  open doubles use {less, less_eq}
  open heap use {heap_size, heap_min, heap_delmin}

  -- A cursor at or behind the place of a new sample stays on its own.
  abbrev pub shifted : ℕ → Option ℕ → Option ℕ
  shifted i none = none
  shifted i (some c) = some (if ltb c i then c else c + 1)

  -- `compress.min_rank++` for a sample that comes before the cursor.
  unfoldable pub rank_with : CmQuantile D H → D → Option ℕ
  rank_with cm value = elim cm.compress_curs [
    | none ↦ some cm.min_rank
    | some c ↦ do
      s ← get_elem? cm.samples c
      some (if less_eq value s.value then add64 cm.min_rank 1 else cm.min_rank)
  ]

  abbrev pub new_sample : D → CmSample D → CmSample D
  new_sample value at_cursor = record {
    value = value;
    width = 1;
    delta = sub64 (add64 at_cursor.width at_cursor.delta) 1;
  }

  -- A new sample before the one at the cursor.
  unfoldable pub placed : CmQuantile D H → ℕ → D → H → CmSample D → (rank : ℕ) → CmQuantile D H
  placed cm i value rest at_cursor rank = record cm {
    samples = insert_at cm.samples i (new_sample value at_cursor);
    buf_more = rest;
    num_values = add64 cm.num_values 1;
    num_samples = add64 cm.num_samples 1;
    insert_curs = some (i + 1);
    compress_curs = shifted i cm.compress_curs;
    min_rank = rank;
  }

  unfoldable pub place_before : CmQuantile D H → ℕ → D → H → Option (CmQuantile D H)
  place_before cm i value rest = do
    at_cursor ← get_elem? cm.samples i
    rank ← rank_with cm value
    some (placed cm i value rest at_cursor rank)

  -- The least value of a buffer, if it is wanted, with the rest of the buffer. Inside, `none`: there
  -- is none, or it is not wanted. The outer one: it cannot be taken out.
  abbrev pub take_least : H → (D → Bool) → Option (Option (D × H))
  take_least buffer wanted = elim (heap_min buffer) [
    | none ↦ some none
    | some val ↦
        if wanted val
        then (elim (heap_delmin buffer) [ none ↦ none | some taken ↦ some (some taken) ])
        else some none
  ]

  -- The inner loop over the buffer, at a cursor; it takes at most as many rounds as the buffer has
  -- values, which is the fuel.
  unfoldable pub insert_before : (fuel : ℕ) → CmQuantile D H → ℕ → Option (CmQuantile D H)
  insert_before zero cm i = some cm
  insert_before (suc fuel) cm i = do
    at_cursor ← get_elem? cm.samples i
    least ← take_least cm.buf_more (λ val. less_eq val at_cursor.value)
    elim least [
      | none ↦ some cm
      | some (value, rest) ↦ do cm' ← place_before cm i value rest; insert_before fuel cm' (i + 1)
    ]

  -- `insert.curs = insert.curs->next`
  unfoldable pub next_curs : CmQuantile D H → CmQuantile D H
  next_curs cm = elim cm.insert_curs [
    | none ↦ cm
    | some i ↦ record cm {
      insert_curs = if ltb (i + 1) (length cm.samples) then some (i + 1) else none;
    }
  ]

  -- The loop over the samples, which ends when the cursor does.
  unfoldable pub insert_rounds : (rounds : ℕ) → CmQuantile D H → Option (CmQuantile D H)
  insert_rounds zero cm = some cm
  insert_rounds (suc rounds) cm = elim cm.insert_curs [
    | none ↦ some cm
    | some i ↦ do
      cm' ← insert_before (heap_size cm.buf_more) cm i
      insert_rounds rounds (next_curs cm')
  ]

  abbrev pub last_value : List (CmSample D) → Option D
  last_value [] = none
  last_value (s ∷ []) = some s.value
  last_value (s ∷ t ∷ rest) = last_value (t ∷ rest)

  unfoldable pub append_sample : CmQuantile D H → D → H → CmQuantile D H
  append_sample cm value rest = record cm {
    samples = cm.samples ++ record { value = value; width = 1; delta = 0 } ∷ [];
    buf_more = rest;
    num_values = add64 cm.num_values 1;
    num_samples = add64 cm.num_samples 1;
  }

  -- The values behind the last sample.
  unfoldable pub append_behind : (fuel : ℕ) → CmQuantile D H → Option (CmQuantile D H)
  append_behind zero cm = some cm
  append_behind (suc fuel) cm = do
    last ← last_value cm.samples
    least ← take_least cm.buf_more (λ val. less last val)
    elim least [
      | none ↦ some cm
      | some (value, rest) ↦ append_behind fuel (append_sample cm value rest)
    ]

  unfoldable pub insert_first : CmQuantile D H → CmQuantile D H
  insert_first cm = elim (heap_delmin cm.buf_more) [
    | none ↦ cm
    | some (value, rest) ↦ record cm {
      samples = record { value = value; width = 1; delta = 0 } ∷ [];
      buf_more = rest;
      num_values = add64 cm.num_values 1;
      num_samples = add64 cm.num_samples 1;
      insert_curs = some 0;
    }
  ]

  -- The cursor starts at the first sample.
  unfoldable pub with_curs : CmQuantile D H → CmQuantile D H
  with_curs cm = elim cm.insert_curs [ none ↦ record cm { insert_curs = some 0 } | some i ↦ cm ]

  -- What follows the loop, when the cursor has come to the end.
  unfoldable pub insert_end : CmQuantile D H → Option (CmQuantile D H)
  insert_end cm = elim cm.insert_curs [
    | some i ↦ some cm
    | none ↦ do
      cm' ← append_behind (heap_size cm.buf_more) cm
      some (cm_reset_insert_cursor doubles heap cm')
  ]

  unfoldable pub cm_insert : CmQuantile D H → Option (CmQuantile D H)
  cm_insert cm = elim cm.samples [
    | [] ↦ some (insert_first cm)
    | _ ∷ _ ↦ do
      cm' ← insert_rounds (cm_cursor_increment doubles heap cm) (with_curs cm)
      insert_end cm'
  ]
