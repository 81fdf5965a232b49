-- ===== src/Timer/Flushed.antt =====
-- Queries of src/timer.c flush the estimate once after the samples, in whatever order they come.
use statsite.Base.{◌≡◌, refl, ap, ◌∙◌, List, [], ◌∷◌, map, Bool-cases, inl, inr}
use statsite.Doubles.{Doubles}
use statsite.Timer.{
  Quantiles, Timer, timer_add_sample, finalize_timer, timer_query, timer_min, timer_max,
  value_or_zero,
}

-- The queries that flush.
pub data Query (D : Type 0) : Type 0 where
  quantile : D → Query D
  least most : Query D

module _ {D C : Type 0} (doubles : Doubles D) (quants : Quantiles D C) where
  open quants use {cm_add_sample, cm_flush, cm_query, first_sample, last_sample}

  finalize_twice :
      (t : Timer D C)
      → finalize_timer doubles quants (finalize_timer doubles quants t)
        ≡ finalize_timer doubles quants t
  unfolding finalize_timer
  finalize_twice t = elim (Bool-cases t.finalized) [ inl e ↦ rw e | inr e ↦ rw e ]

  unfoldable pub ask : Timer D C → Query D → D × Timer D C
  ask t (quantile q) = timer_query doubles quants t q
  ask t least = timer_min doubles quants t
  ask t most = timer_max doubles quants t

  -- One query after the other, and the timer that they leave.
  unfoldable pub ask_all : Timer D C → List (Query D) → List D × Timer D C
  ask_all t [] = ([], t)
  ask_all t (q ∷ qs) =
      let (first, t') = ask t q in let (others, left) = ask_all t' qs in (first ∷ others, left)

  -- What an estimate answers.
  abbrev pub answer : C → Query D → D
  answer c (quantile q) = cm_query c q
  answer c least = value_or_zero doubles quants (first_sample c)
  answer c most = value_or_zero doubles quants (last_sample c)

  ask-finalizes :
      (t : Timer D C) (q : Query D)
      → ask t q ≡ (answer (finalize_timer doubles quants t).cm q, finalize_timer doubles quants t)
  unfolding ask timer_query timer_min timer_max
  ask-finalizes t (quantile q) = refl
  ask-finalizes t least = refl
  ask-finalizes t most = refl

  ask_all-answers :
      (t : Timer D C) (qs : List (Query D))
      → ((ask_all t qs).0 ≡ map (answer (finalize_timer doubles quants t).cm) qs)
        × (finalize_timer doubles quants (ask_all t qs).1 ≡ finalize_timer doubles quants t)
  unfolding ask_all
  ask_all-answers t [] = (refl, refl)
  ask_all-answers t (q ∷ qs) =
      let done = finalize_timer doubles quants t in
      let (answers, left) = ask_all-answers done qs in
      let once = finalize_twice t in
      rw (ask-finalizes t q) (
        ap (λ rest. answer done.cm q ∷ rest) (answers ∙ ap (λ d. map (answer (d.cm)) qs) once),
        left ∙ once,
      )

  -- After a sample every query, in whatever order they come, answers from the estimate that has the
  -- sample and is flushed once. The timer that the queries leave differs from the one before them
  -- at most in being finalized.
  pub ask_all-flushed :
      (t : Timer D C) (x : D) (qs : List (Query D))
      → let t' = timer_add_sample doubles quants t x in
        ((ask_all t' qs).0 ≡ map (answer (cm_flush (cm_add_sample t.cm x))) qs)
        × (finalize_timer doubles quants (ask_all t' qs).1 ≡ finalize_timer doubles quants t')
  unfolding timer_add_sample finalize_timer
  ask_all-flushed t x qs = ask_all-answers (timer_add_sample doubles quants t x) qs
