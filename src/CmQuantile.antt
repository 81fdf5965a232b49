-- ===== src/CmQuantile.antt =====
-- src/cm_quantile.c: the estimate of quantiles of a stream. The linked list of samples is a list, and
-- a pointer into it, as the cursors keep, an index of it that moves with its sample. The buffers are
-- an interface that src/heap.c fills; a buffered sample is its value. `none` is a read through a null
-- pointer.
pub mod Insert
pub mod Compress
pub mod Sketch
pub mod Sound
pub mod PlaceKeeps
pub mod InsertKeeps
pub mod CompressKeeps
pub mod AddKeeps
pub mod HeapBuffers
pub mod Examples
use statsite.Base.{
  ℕ, zero, suc, ◌+◌, ◌-◌, ◌^◌, List, [], ◌∷◌, ◌++◌, Bool, true, false, Option, none, some, not,
  ◌&&◌, ◌||◌, ◌==◌, ltb, leb, if◌then◌else◌, length, set, get_elem?, insert_at, remove_at, ◌>>=◌,
}
use statsite.Base.Words.{add64, sub64, u64}
use statsite.Doubles.{Doubles}

-- The calls on a heap whose keys are the values of samples; the least comes first.
pub record HeapOps (D H : Type 0) : Type 0 where
  pub heap_create : H
  pub heap_size : H → ℕ
  pub heap_insert : H → D → H
  pub heap_min : H → Option D
  pub heap_delmin : H → Option (D × H)

pub record CmSample (D : Type 0) : Type 0 where
  pub value : D
  pub width : ℕ
  pub delta : ℕ

pub record CmQuantile (D H : Type 0) : Type 0 where
  pub eps : D
  pub quantiles : List D
  pub num_samples : ℕ
  pub num_values : ℕ
  pub samples : List (CmSample D)
  pub buf_less : H
  pub buf_more : H
  pub insert_curs : Option ℕ
  pub compress_curs : Option ℕ
  pub min_rank : ℕ

module _ {D H : Type 0} (doubles : Doubles D) (heap : HeapOps D H) where
  open doubles use {of_nat, times, over, less, less_eq, ceiling}
  open heap use {heap_create, heap_insert}

  -- `val <= 0 or val >= 1` for some quantile
  unfoldable pub some_out_of_range : List D → Bool
  some_out_of_range [] = false
  some_out_of_range (q ∷ qs) = less_eq q (of_nat 0) || less_eq (of_nat 1) q || some_out_of_range qs

  unfoldable pub new_quantile : D → List D → CmQuantile D H
  new_quantile eps quantiles = record {
    eps = eps;
    quantiles = quantiles;
    num_samples = 0;
    num_values = 0;
    samples = [];
    buf_less = heap_create;
    buf_more = heap_create;
    insert_curs = none;
    compress_curs = none;
    min_rank = 0;
  }

  -- `none` is -1. The bound of 0.5 is a half of one.
  unfoldable pub init_cm_quantile : D → List D → Option (CmQuantile D H)
  init_cm_quantile eps quantiles =
      if less_eq eps (of_nat 0) || less_eq (over (of_nat 1) (of_nat 2)) eps
      then none
      else (if length quantiles == 0 || some_out_of_range quantiles
          then none
          else some (new_quantile eps quantiles))

  -- The value under the insertion cursor, or 0.
  unfoldable pub cm_insert_point_value : CmQuantile D H → Option D
  cm_insert_point_value cm = elim cm.insert_curs [
    | none ↦ some (of_nat 0)
    | some i ↦ do s ← get_elem? cm.samples i; some s.value
  ]

  unfoldable pub cm_add_to_buffer : CmQuantile D H → D → Option (CmQuantile D H)
  cm_add_to_buffer cm value = do
    point ← cm_insert_point_value cm
    some (
        if not (cm.num_values == 0) && less value point
        then record cm { buf_less = heap_insert cm.buf_less value }
        else record cm { buf_more = heap_insert cm.buf_more value })

  unfoldable pub cm_reset_insert_cursor : CmQuantile D H → CmQuantile D H
  cm_reset_insert_cursor cm = record cm {
    buf_less = cm.buf_more;
    buf_more = cm.buf_less;
    insert_curs = none;
  }

  unfoldable pub cm_cursor_increment : CmQuantile D H → ℕ
  cm_cursor_increment cm = ceiling (times (of_nat cm.num_samples) cm.eps)
