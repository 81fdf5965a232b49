-- ===== src/ConnHandler/Loop.antt =====
-- The loop of the handlers of src/conn_handler.c on a queue of bytes: it ends, and may be cut in
-- two wherever the bytes are.
use statsite.Base.{ℕ, zero, suc, ◌+◌, ◌<◌, ◌≡◌, refl, List, ◌++◌, some, length, arith}
use statsite.ConnHandler.{Verdict, done, refused, overran, Round, idle, ran, follow, command_loop}

module _ {M : Type 0} where
  -- A command that was done has taken bytes off the queue.
  abbrev pub Shrinks : List ℕ → Round M (List ℕ) → Type 0
  Shrinks q (ran done m q') = length q' < length q
  Shrinks q _ = Unit

  -- A round that handles a command does so whatever bytes come behind it; without a command it
  -- changes nothing.
  abbrev pub Extends : M → List ℕ → List ℕ → Round M (List ℕ) → Round M (List ℕ) → Type 0
  Extends m q more (idle m' q') longer = (m' ≡ m) × (q' ≡ q)
  Extends m q more (ran done m' q') longer = longer ≡ ran done m' (q' ++ more)
  Extends m q more (ran refused m' q') longer = Unit
  Extends m q more (ran overran m' q') longer = Unit

  module _ (round : M → List ℕ → Round M (List ℕ)) where
    module _ (shrinks : (m : M) (q : List ℕ) → Shrinks q (round m q)) where
      follow_ends :
          (fuel : ℕ) (q : List ℕ)
          → length q < suc fuel
          → ((m : M) (q' : List ℕ)
              → length q' < fuel
              → (r : Verdict × M × List ℕ) × (command_loop round fuel m q' ≡ some r))
          → (t : Round M (List ℕ)) → Shrinks q t
          → (r : Verdict × M × List ℕ) × (follow (command_loop round fuel) t ≡ some r)
      follow_ends fuel q h again (idle m q') s = ((done, m, q'), refl)
      follow_ends fuel q h again (ran done m q') s = again m q' (omega arith)
      follow_ends fuel q h again (ran refused m q') s = ((refused, m, q'), refl)
      follow_ends fuel q h again (ran overran m q') s = ((overran, m, q'), refl)

      pub command_loop_ends :
          (fuel : ℕ) (m : M) (q : List ℕ)
          → length q < fuel
          → (r : Verdict × M × List ℕ) × (command_loop round fuel m q ≡ some r)
      unfolding command_loop
      command_loop_ends zero m q h = absurd (omega arith)
      command_loop_ends (suc fuel) m q h =
          follow_ends fuel q h (command_loop_ends fuel) (round m q) (shrinks m q)

    follow_more :
        (fuel more : ℕ) (t : Round M (List ℕ)) {r : Verdict × M × List ℕ}
        → ((m : M) (q : List ℕ)
            → command_loop round fuel m q ≡ some r
            → command_loop round (fuel + more) m q ≡ some r)
        → follow (command_loop round fuel) t ≡ some r
        → follow (command_loop round (fuel + more)) t ≡ some r
    follow_more fuel more (idle m q) again e = e
    follow_more fuel more (ran done m q) again e = again m q e
    follow_more fuel more (ran refused m q) again e = e
    follow_more fuel more (ran overran m q) again e = e

    -- More fuel changes nothing.
    pub command_loop_more :
        (fuel more : ℕ) (m : M) (q : List ℕ) {r : Verdict × M × List ℕ}
        → command_loop round fuel m q ≡ some r
        → command_loop round (fuel + more) m q ≡ some r
    unfolding command_loop
    command_loop_more zero more m q e = absurd (cc)
    command_loop_more (suc fuel) more m q e =
        let next : suc fuel + more ≡ suc (fuel + more) = omega arith in
        rw next (follow_more fuel more (round m q) (λ m' q'. command_loop_more fuel more m' q') e)

    -- Two runs that end do so alike.
    pub command_loop_agree :
        (fuel fuel' : ℕ) (m : M) (q : List ℕ) {r s : Verdict × M × List ℕ}
        → command_loop round fuel m q ≡ some r
        → command_loop round fuel' m q ≡ some s
        → r ≡ s
    command_loop_agree fuel fuel' m q e f =
        let swap : fuel + fuel' ≡ fuel' + fuel = omega arith in
        let e' = command_loop_more fuel fuel' m q e in
        let f' = rw (← swap) at (command_loop_more fuel' fuel m q f) in cc

    module _ (more : List ℕ)
        (extends : (m : M) (q : List ℕ) → Extends m q more (round m q) (round m (q ++ more))) where
      -- one round of the first run, with a longer one's
      follow_append :
          (fuel fuel' : ℕ) (m : M) (q : List ℕ) (t longer : Round M (List ℕ)) {m' : M} {q' : List ℕ}
          {r : Verdict × M × List ℕ}
          → Extends m q more t longer
          → ((m1 : M) (q1 : List ℕ)
              → command_loop round fuel m1 q1 ≡ some (done, m', q')
              → command_loop round (fuel + fuel') m1 (q1 ++ more) ≡ some r)
          → (command_loop round fuel' m (q ++ more) ≡ some r
              → follow (command_loop round (fuel + fuel')) longer ≡ some r)
          → follow (command_loop round fuel) t ≡ some (done, m', q')
          → command_loop round fuel' m' (q' ++ more) ≡ some r
          → follow (command_loop round (fuel + fuel')) longer ≡ some r
      follow_append fuel fuel' m q (idle m1 q1) longer (em, eq) again rest e f = rest (cc)
      follow_append fuel fuel' m q (ran done m1 q1) longer ext again rest e f =
          rw ext (again m1 q1 e)
      follow_append fuel fuel' m q (ran refused m1 q1) longer ext again rest e f = absurd (cc)
      follow_append fuel fuel' m q (ran overran m1 q1) longer ext again rest e f = absurd (cc)

      pub command_loop_append :
          (fuel fuel' : ℕ) (m : M) (q : List ℕ) {m' : M} {q' : List ℕ} {r : Verdict × M × List ℕ}
          → command_loop round fuel m q ≡ some (done, m', q')
          → command_loop round fuel' m' (q' ++ more) ≡ some r
          → command_loop round (fuel + fuel') m (q ++ more) ≡ some r
      unfolding command_loop
      command_loop_append zero fuel' m q e f = absurd (cc)
      command_loop_append (suc fuel) fuel' m q {r = r} e f =
          let next : suc fuel + fuel' ≡ suc (fuel + fuel') = omega arith in
          let swap : fuel' + suc fuel ≡ suc (fuel + fuel') = omega arith in
          rw next (
            follow_append fuel fuel' m q (round m q) (round m (q ++ more)) (extends m q)
              (λ m1 q1 d. command_loop_append fuel fuel' m1 q1 d f)
              (λ g. rw swap at (command_loop_more fuel' (suc fuel) m (q ++ more) g)) e f)

    -- A run that ends with 0 has come to a round without a command.
    module _ (more : List ℕ)
        (extends : (m : M) (q : List ℕ) → Extends m q more (round m q) (round m (q ++ more))) where
      follow_drains :
          (fuel : ℕ) {m' : M} {q' : List ℕ} (m : M) (q : List ℕ) (t longer : Round M (List ℕ))
          → Extends m q more t longer
          → t ≡ round m q
          → ((m1 : M) (q1 : List ℕ)
              → command_loop round fuel m1 q1 ≡ some (done, m', q')
              → round m' q' ≡ idle m' q')
          → follow (command_loop round fuel) t ≡ some (done, m', q')
          → round m' q' ≡ idle m' q'
      follow_drains fuel m q (idle m1 q1) longer (em, eq) same again e = cc
      follow_drains fuel m q (ran done m1 q1) longer ext same again e = again m1 q1 e
      follow_drains fuel m q (ran refused m1 q1) longer ext same again e = absurd (cc)
      follow_drains fuel m q (ran overran m1 q1) longer ext same again e = absurd (cc)

      pub command_loop_drains :
          (fuel : ℕ) (m : M) (q : List ℕ) {m' : M} {q' : List ℕ}
          → command_loop round fuel m q ≡ some (done, m', q')
          → round m' q' ≡ idle m' q'
      unfolding command_loop
      command_loop_drains zero m q e = absurd (cc)
      command_loop_drains (suc fuel) m q e =
          follow_drains fuel m q (round m q) _ (extends m q) refl
            (λ m1 q1 f. command_loop_drains fuel m1 q1 f) e
