-- ===== src/CmQuantile/Sound.antt =====
-- What src/cm_quantile.c keeps true of its counters and cursors.
use statsite.Base.{
  ℕ, zero, suc, ◌+◌, ◌^◌, ◌≤◌, ◌<◌, ◌≡◌, refl, ◌∙◌, List, [], ◌∷◌, ◌++◌, Option, some, arith,
  length, set, get_elem?, insert_at, remove_at, ◌>>=◌,
}
use statsite.CmQuantile.{HeapOps, CmSample, CmQuantile}

-- What is asked of the buffers.
pub record IsBuffer {D H : Type 0} (heap : HeapOps D H) : Type 0 where
  pub size_create : heap.heap_size heap.heap_create ≡ 0
  pub size_insert : (h : H) (v : D) → heap.heap_size (heap.heap_insert h v) ≡ heap.heap_size h + 1
  pub size_delmin :
      (h h' : H) (v : D)
      → heap.heap_delmin h ≡ some (v, h')
      → heap.heap_size h ≡ heap.heap_size h' + 1
  pub min_delmin :
      (h : H) (v : D)
      → heap.heap_min h ≡ some v
      → (v' : D) × (h' : H) × (heap.heap_delmin h ≡ some (v', h'))

-- How many values the samples stand for.
unfoldable pub total : {D : Type 0} → List (CmSample D) → ℕ
total [] = 0
total (s ∷ rest) = s.width + total rest

module _ {D : Type 0} where
  pub total-append : (xs ys : List (CmSample D)) → total (xs ++ ys) ≡ total xs + total ys
  unfolding total
  total-append [] ys = omega arith
  total-append (x ∷ xs) ys = omega (arith, total-append xs ys)

  pub length-pos : (xs ys : List (CmSample D)) → 0 < total xs → total xs ≤ total ys → 0 < length ys
  unfolding total
  length-pos xs [] h le = absurd (omega arith)
  length-pos xs (y ∷ ys) h le = omega arith

  pub total-insert_at :
      (xs : List (CmSample D)) (i : ℕ) (v : CmSample D)
      → total (insert_at xs i v) ≡ total xs + v.width
  unfolding total
  total-insert_at xs zero v = omega arith
  total-insert_at [] (suc i) v = omega arith
  total-insert_at (x ∷ xs) (suc i) v = omega (arith, total-insert_at xs i v)

  pub width-le-total :
      (xs : List (CmSample D)) (i : ℕ) {s : CmSample D}
      → get_elem? xs i ≡ some s
      → s.width ≤ total xs
  unfolding total
  width-le-total [] i e = absurd (cc)
  width-le-total (x ∷ xs) zero e = ground arith
  width-le-total (x ∷ xs) (suc i) {s} e = omega (arith, width-le-total xs i e)

  -- Two samples in a row become one.
  pub combined :
      (xs : List (CmSample D)) (c : ℕ) (joint : CmSample D) {curs next : CmSample D}
      → get_elem? xs c ≡ some curs
      → get_elem? xs (suc c) ≡ some next
      → joint.width ≡ next.width + curs.width
      → (total (remove_at (set xs (suc c) joint) c) ≡ total xs)
        × (curs.width + next.width ≤ total xs)
        × (length (remove_at (set xs (suc c) joint) c) + 1 ≡ length xs)
  unfolding total
  combined [] c joint e f w = absurd (cc)
  combined (x ∷ []) zero joint e f w = absurd (cc)
  combined (x ∷ y ∷ xs) zero joint e f w = ground arith
  combined (x ∷ xs) (suc c) joint e f w = omega (arith, combined xs c joint e f w)

module _ {D H : Type 0} (heap : HeapOps D H) where
  open heap use {heap_size}

  -- Values that wait in the buffers, and all values.
  abbrev pub pending : CmQuantile D H → ℕ
  pending cm = heap_size cm.buf_less + heap_size cm.buf_more

  abbrev pub held : CmQuantile D H → ℕ
  held cm = total cm.samples + pending cm

  -- No value is lost, and none goes back to the buffers.
  abbrev pub Holds : CmQuantile D H → CmQuantile D H → Type 0
  Holds before after = (held after ≡ held before) × (total before.samples ≤ total after.samples)

  pub Holds-trans : (a b c : CmQuantile D H) → Holds a b → Holds b c → Holds a c
  Holds-trans a b c (h, l) (h', l') = (h' ∙ h, omega arith)

  pub Holds-same : (cm : CmQuantile D H) → Holds cm cm
  Holds-same cm = (refl, omega arith)

  -- The counters count, and the cursors stand on samples, that of the compression before the last.
  pub record IsSketch (cm : CmQuantile D H) : Type 0 where
    pub counted : cm.num_samples ≡ length cm.samples
    pub weighed : cm.num_values ≡ total cm.samples
    pub no_more : length cm.samples ≤ total cm.samples
    pub small : held cm < 2 ^ 64
    pub insert_in : (i : ℕ) → cm.insert_curs ≡ some i → i < length cm.samples
    pub compress_in : (c : ℕ) → cm.compress_curs ≡ some c → c + 1 < length cm.samples

  -- A step that reads through no null pointer and loses no value.
  pub record Keeps (cm : CmQuantile D H) (r : Option (CmQuantile D H)) : Type 0 where
    pub after : CmQuantile D H
    pub runs : r ≡ some after
    pub sketch : IsSketch after
    pub holds : Holds cm after

  pub Keeps-same : (cm : CmQuantile D H) → IsSketch cm → Keeps cm (some cm)
  Keeps-same cm v = record { after = cm; runs = refl; sketch = v; holds = Holds-same cm }

  pub Keeps-then :
      (cm : CmQuantile D H) (r : Option (CmQuantile D H))
      (f : CmQuantile D H → Option (CmQuantile D H))
      → (k : Keeps cm r) → Keeps k.after (f k.after)
      → Keeps cm (r >>= f)
  Keeps-then cm r f k l = record {
    after = l.after;
    runs = rw k.runs l.runs;
    sketch = l.sketch;
    holds = Holds-trans cm k.after l.after k.holds l.holds;
  }

  pub Keeps-from :
      (cm cm' : CmQuantile D H) (r : Option (CmQuantile D H))
      → Holds cm cm'
      → Keeps cm' r
      → Keeps cm r
  Keeps-from cm cm' r same k = record {
    after = k.after;
    runs = k.runs;
    sketch = k.sketch;
    holds = Holds-trans cm cm' k.after same k.holds;
  }

  -- The insertion cursor may stand on any sample, or on none.
  pub moved-IsSketch :
      (cm : CmQuantile D H) (o : Option ℕ)
      → IsSketch cm
      → ((i : ℕ) → o ≡ some i → i < length cm.samples)
      → IsSketch (record cm { insert_curs = o })
  moved-IsSketch cm o v h = record {
    counted = v.counted;
    weighed = v.weighed;
    no_more = v.no_more;
    small = v.small;
    insert_in = h;
    compress_in = v.compress_in;
  }
