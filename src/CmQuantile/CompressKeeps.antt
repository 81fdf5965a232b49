-- ===== src/CmQuantile/CompressKeeps.antt =====
-- `cm_compress` of src/cm_quantile.c reads through no null pointer and loses no value.
use statsite.Base.{
  ℕ, zero, suc, ◌+◌, ◌-◌, ◌≤◌, ◌<◌, ◌≡◌, refl, sym, subst, ap, ◌∙◌, Option, none, some, arith, ltb,
  leb, length, get_elem?, get_elem?-some, ◌>>=◌, Bool-cases, Option-cases, inl, inr, ltb_false→le,
}
use statsite.Base.Words.{add64, sub64, u64}
use statsite.Doubles.{Doubles}
use statsite.CmQuantile.{HeapOps, CmSample, CmQuantile, cm_cursor_increment}
use statsite.CmQuantile.Compress.{
  lowered, cm_threshold, combine, compress_at, compress_round, compress_rounds, with_compress_curs,
  reset_compress, cm_compress,
}
use statsite.CmQuantile.Sound.{
  total, combined, Holds, Holds-same, IsSketch, Keeps, Keeps-same, Keeps-then,
}

module _ {D H : Type 0} (doubles : Doubles D) (heap : HeapOps D H) where
  -- The cursor of the compression may stand on any sample before the last one.
  ranked-IsSketch :
      (cm : CmQuantile D H) (o : Option ℕ) (rank : ℕ)
      → IsSketch heap cm
      → ((c : ℕ) → o ≡ some c → c + 1 < length cm.samples)
      → IsSketch heap (record cm { compress_curs = o; min_rank = rank })
  ranked-IsSketch cm o rank v h = record {
    counted = v.counted;
    weighed = v.weighed;
    no_more = v.no_more;
    small = v.small;
    insert_in = v.insert_in;
    compress_in = h;
  }

  lowered-in :
      (c n i : ℕ) (o : Option ℕ)
      → ((i : ℕ) → o ≡ some i → i < n)
      → c + 1 < n
      → lowered doubles heap c o ≡ some i
      → i + 1 < n
  lowered-in c n i none h lt e = absurd (cc)
  lowered-in c n i (some k) h lt e = ground (arith, h k refl)

  combined_small :
      (cm : CmQuantile D H) (c : ℕ) (curs next : CmSample D)
      → get_elem? cm.samples (suc c) ≡ some curs
      → get_elem? cm.samples (suc (suc c)) ≡ some next
      → curs.width + next.width ≤ total cm.samples
  combined_small cm c curs next e f =
      (combined cm.samples (suc c) (record next { width = next.width + curs.width }) e f refl).1

  combine-IsSketch :
      (cm : CmQuantile D H) (c : ℕ) (curs next : CmSample D)
      → IsSketch heap cm
      → suc c + 1 < length cm.samples
      → get_elem? cm.samples (suc c) ≡ some curs
      → get_elem? cm.samples (suc (suc c)) ≡ some next
      → IsSketch heap (combine doubles heap cm (suc c) curs next)
        × Holds heap cm (combine doubles heap cm (suc c) curs next)
  unfolding combine
  combine-IsSketch cm c curs next v lt e f =
      let n : suc c + 1 ≡ suc (suc c) = omega arith in
      let width : add64 next.width curs.width ≡ next.width + curs.width =
        omega (arith, v.small, combined_small cm c curs next e f) in
      let joint = record next { width = add64 next.width curs.width } in
      let (same, _, size) = combined cm.samples (suc c) joint e f width in
      rw n (
        record {
          counted = omega (arith, v.counted, v.no_more, v.small, size);
          weighed = omega (arith, v.weighed, same);
          no_more = omega (arith, v.no_more, same, size);
          small = omega (arith, v.small, same);
          insert_in = λ i g. omega (
            arith,
            lowered-in (suc c) (length cm.samples) i cm.insert_curs v.insert_in (omega arith) g,
            size,
          );
          compress_in = λ k g. ground (arith, size);
        },
        (omega (arith, same), omega (arith, same)),
      )

  compress_at-IsSketch :
      (cm : CmQuantile D H) (c : ℕ) (curs next : CmSample D)
      → IsSketch heap cm
      → suc c + 1 < length cm.samples
      → get_elem? cm.samples (suc c) ≡ some curs
      → get_elem? cm.samples (suc (suc c)) ≡ some next
      → IsSketch heap (compress_at doubles heap cm (suc c) curs next)
        × Holds heap cm (compress_at doubles heap cm (suc c) curs next)
        × ((k : ℕ) × ((compress_at doubles heap cm (suc c) curs next).compress_curs ≡ some k))
  unfolding compress_at combine
  compress_at-IsSketch cm c curs next v lt e f =
      let rank = sub64 cm.min_rank curs.width in
      let ranked = record cm { min_rank = rank } in
      let max_rank = u64 (cm.min_rank + curs.width + curs.delta) in
      let test_val = u64 (curs.width + next.width + next.delta) in
      let v' = ranked-IsSketch cm cm.compress_curs rank v v.compress_in in
      elim (Bool-cases (leb test_val (cm_threshold doubles heap cm max_rank))) [
        | inl small ↦
            let (sketch, holds) = combine-IsSketch ranked c curs next v' lt e f in
            rw (small, compress_at) (sketch, holds, (suc c - 1, refl))
        | inr large ↦
            rw (large, compress_at)
              (
                ranked-IsSketch cm (some (suc c - 1)) rank v (λ k g. ground arith),
                Holds-same heap cm,
                (suc c - 1, refl),
              )
      ]

  -- A cursor that is there stays so until the loop ends.
  record KeepsCurs (cm : CmQuantile D H) (r : Option (CmQuantile D H)) : Type 0 where
    keeps : Keeps heap cm r
    curs : ℕ
    has_curs : keeps.after.compress_curs ≡ some curs

  compress_round-Keeps :
      (cm : CmQuantile D H) (c : ℕ)
      → IsSketch heap cm
      → suc c + 1 < length cm.samples
      → KeepsCurs cm (compress_round doubles heap cm (suc c))
  unfolding compress_round
  compress_round-Keeps cm c v lt =
      let n : suc c + 1 ≡ suc (suc c) = omega arith in
      let (curs, e) = get_elem?-some cm.samples (suc c) (omega arith) in
      let (next, f) = get_elem?-some cm.samples (suc (suc c)) (omega arith) in
      let (sketch, holds, (k, has)) = compress_at-IsSketch cm c curs next v lt e f in
      record {
        keeps = record {
          after = compress_at doubles heap cm (suc c) curs next;
          runs = rw (e, n, f, compress_round) refl;
          sketch = sketch;
          holds = holds;
        };
        curs = k;
        has_curs = has;
      }

  abbrev rounds_at : ℕ → CmQuantile D H → Option ℕ → Option (CmQuantile D H)
  rounds_at rounds cm curs = elim curs [
    | none ↦ none
    | some zero ↦ some cm
    | some (suc c) ↦
        compress_round doubles heap cm (suc c) >>= λ cm'. compress_rounds doubles heap rounds cm'
  ]

  compress_rounds-Keeps :
      (rounds : ℕ) (cm : CmQuantile D H) (c : ℕ)
      → IsSketch heap cm
      → cm.compress_curs ≡ some c
      → Keeps heap cm (compress_rounds doubles heap rounds cm)
  unfolding compress_rounds
  compress_rounds-Keeps zero cm c v at_c = Keeps-same heap cm v
  compress_rounds-Keeps (suc rounds) cm zero v at_c =
      let stops : compress_rounds doubles heap (suc rounds) cm ≡ some cm =
        ap (rounds_at rounds cm) at_c in
      subst (Keeps heap cm) (sym stops) (Keeps-same heap cm v)
  compress_rounds-Keeps (suc rounds) cm (suc c) v at_c =
      let goes = ap (rounds_at rounds cm) at_c in
      let round = compress_round-Keeps cm c v (v.compress_in (suc c) at_c) in
      let k = round.keeps in
      subst (Keeps heap cm) (sym goes) (
        Keeps-then heap cm (compress_round doubles heap cm (suc c))
          (λ cm'. compress_rounds doubles heap rounds cm') k
          (compress_rounds-Keeps rounds k.after round.curs k.sketch round.has_curs))

  abbrev start_at : CmQuantile D H → Option ℕ → Option (CmQuantile D H)
  start_at cm curs = elim curs [
    | some c ↦ some cm
    | none ↦ get_elem? cm.samples (length cm.samples - 2) >>= λ before_last. some (record cm {
      compress_curs = some (length cm.samples - 3);
      min_rank = sub64 (sub64 cm.num_values 1) before_last.width;
    })
  ]

  with_compress_curs-Keeps :
      (cm : CmQuantile D H)
      → IsSketch heap cm
      → 3 ≤ length cm.samples
      → KeepsCurs cm (with_compress_curs doubles heap cm)
  unfolding with_compress_curs
  with_compress_curs-Keeps cm v three = elim (Option-cases cm.compress_curs) [
    | inr (c, e) ↦ record {
      keeps = record {
        after = cm;
        runs = ap (start_at cm) e;
        sketch = v;
        holds = Holds-same heap cm;
      };
      curs = c;
      has_curs = e;
    }
    | inl e ↦
        let (s, f) = get_elem?-some cm.samples (length cm.samples - 2) (omega arith) in
        let started : CmQuantile D H = record cm {
          compress_curs = some (length cm.samples - 3);
          min_rank = sub64 (sub64 cm.num_values 1) s.width;
        } in
        record {
          keeps = record {
            after = started;
            runs = ap (start_at cm) e ∙ rw f refl;
            sketch =
                ranked-IsSketch cm (some (length cm.samples - 3))
                  (sub64 (sub64 cm.num_values 1) s.width) v (λ c g. ground arith);
            holds = Holds-same heap cm;
          };
          curs = length cm.samples - 3;
          has_curs = refl;
        }
  ]

  abbrev reset_at : CmQuantile D H → Option ℕ → CmQuantile D H
  reset_at cm curs = elim curs [ some zero ↦ record cm { compress_curs = none } | _ ↦ cm ]

  reset_at-IsSketch :
      (cm : CmQuantile D H) (o : Option ℕ)
      → IsSketch heap cm
      → IsSketch heap (reset_at cm o) × Holds heap cm (reset_at cm o)
  reset_at-IsSketch cm none v = (v, Holds-same heap cm)
  reset_at-IsSketch cm (some (suc c)) v = (v, Holds-same heap cm)
  reset_at-IsSketch cm (some zero) v =
      (ranked-IsSketch cm none cm.min_rank v (λ c e. absurd (cc)), Holds-same heap cm)

  reset_compress-Keeps :
      (cm : CmQuantile D H)
      → IsSketch heap cm
      → Keeps heap cm (some (reset_compress doubles heap cm))
  unfolding reset_compress
  reset_compress-Keeps cm v =
      let (sketch, holds) = reset_at-IsSketch cm cm.compress_curs v in
      record { after = reset_compress doubles heap cm; runs = refl; sketch = sketch; holds = holds }

  pub cm_compress-Keeps :
      (cm : CmQuantile D H) → IsSketch heap cm → Keeps heap cm (cm_compress doubles heap cm)
  unfolding cm_compress
  cm_compress-Keeps cm v = elim (Bool-cases (ltb cm.num_samples 3)) [
    | inl few ↦ rw (few, cm_compress) (Keeps-same heap cm v)
    | inr enough ↦
        let three : 3 ≤ length cm.samples = omega (arith, ltb_false→le _ _ enough, v.counted) in
        let start = with_compress_curs-Keeps cm v three in
        let k = start.keeps in
        let rounds = cm_cursor_increment doubles heap k.after in
        let l = compress_rounds-Keeps rounds k.after start.curs k.sketch start.has_curs in
        rw (enough, cm_compress)
          (Keeps-then heap cm (with_compress_curs doubles heap cm) _ k (
            Keeps-then heap k.after (compress_rounds doubles heap rounds k.after)
              (λ cm'. some (reset_compress doubles heap cm')) l
              (reset_compress-Keeps l.after l.sketch)))
  ]
