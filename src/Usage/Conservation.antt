-- ===== src/Usage/Conservation.antt =====
-- No record of internal/usage/batch.go is lost without being counted, and the memory is bounded.
use mathlib.Core.List.{append-nil}
use softmatrix_airlock.Base.{
  ◌∙◌, ℕ, ◌≤◌, ◌<◌, ◌≡◌, refl, ap, subst, ◌⊎◌, inl, inr, Bool, true, false, some, List, [], ◌∷◌,
  ◌++◌, length, length-append, arith, Option-cases, Bool-cases,
}
use softmatrix_airlock.Usage.Batch.{
  Writer, Event, writes, receives, ticks, closes, new_batch_writer, write, flush, append_record,
  receive, close, step, run,
}
use softmatrix_airlock.Usage.Accounts.{Without, offered, run-IsAccounted}

module _ {A : Type 0} where
  -- What the writer keeps within its bounds; and when the goroutine is done, nothing is left behind.
  pub record IsBounded (capacity batch_size : ℕ) (w : Writer A) : Type 0 where
    pub queue_fits : length w.queue ≤ capacity
    pub batch_fits : length w.batch < batch_size
    pub at_end : (w.finished ≡ false) ⊎ ((w.closed ≡ true) × ((w.queue ≡ []) × (w.batch ≡ [])))

  write-IsBounded :
      (capacity batch_size : ℕ) (r : A) (w : Writer A)
      → IsBounded capacity batch_size w
      → IsBounded capacity batch_size (write capacity r w)
  unfolding write
  write-IsBounded capacity batch_size r w h =
      ground (arith, length-append w.queue (r ∷ []), h.at_end)

  flush-IsBounded :
      (capacity batch_size : ℕ) (taken : Bool) (w : Writer A)
      → 0 < batch_size
      → IsBounded capacity batch_size w
      → IsBounded capacity batch_size (flush taken w)
  unfolding flush
  flush-IsBounded capacity batch_size true w pos h = ground (arith, h.at_end)
  flush-IsBounded capacity batch_size false w pos h = ground (arith, h.at_end)

  receive-IsBounded :
      (capacity batch_size : ℕ) (taken : Bool) (q : List A) (w w' : Writer A)
      → 0 < batch_size
      → w.queue ≡ q
      → w.finished ≡ false
      → IsBounded capacity batch_size w
      → receive batch_size taken q w ≡ some w'
      → IsBounded capacity batch_size w'
  unfolding receive append_record flush
  receive-IsBounded capacity batch_size taken [] w w' pos e f h r = ground (arith, ap length e)
  receive-IsBounded capacity batch_size taken (x ∷ rest) w w' pos e f h r =
      ground (arith, ap length e, length-append w.batch (x ∷ []))

  step-IsBounded :
      (capacity batch_size : ℕ) (e : Event A) (w w' : Writer A)
      → 0 < batch_size
      → IsBounded capacity batch_size w
      → step capacity batch_size e w ≡ some w'
      → IsBounded capacity batch_size w'
  unfolding step close
  step-IsBounded capacity batch_size (writes r) w w' pos h s =
      let z = write-IsBounded capacity batch_size r w h in
      let q : write capacity r w ≡ w' = ground arith in subst (IsBounded capacity batch_size) q z
  step-IsBounded capacity batch_size (receives taken) w w' pos h s = elim (Bool-cases w.finished) [
    | inl t ↦ absurd (ground arith)
    | inr f ↦ receive-IsBounded capacity batch_size taken w.queue w w' pos refl f h (ground arith)
  ]
  step-IsBounded capacity batch_size (ticks taken) w w' pos h s =
      let z = flush-IsBounded capacity batch_size taken w pos h in
      let q : flush taken w ≡ w' = ground arith in subst (IsBounded capacity batch_size) q z
  step-IsBounded capacity batch_size closes w w' pos h s = ground (arith, h.at_end)

  run-IsBounded :
      (capacity batch_size : ℕ) (es : List (Event A)) (w w' : Writer A)
      → 0 < batch_size
      → IsBounded capacity batch_size w
      → run capacity batch_size es w ≡ some w'
      → IsBounded capacity batch_size w'
  unfolding run
  run-IsBounded capacity batch_size [] w w' pos h r =
      let q : w ≡ w' = ground arith in subst (IsBounded capacity batch_size) q h
  run-IsBounded capacity batch_size (e ∷ es) w w' pos h r =
      elim (Option-cases (step capacity batch_size e w)) [
        | inl n ↦ absurd (ground arith)
        | inr (w1, s) ↦
            run-IsBounded capacity batch_size es w1 w' pos
              (step-IsBounded capacity batch_size e w w1 pos h s) (ground arith)
      ]

  -- In any interleaving of the callers with the goroutine, the ticker and Close, whatever batches the
  -- sink takes: the records that were sent, then those in the batch, then those in the queue, are the
  -- records that were written, once each and in their order, but for as many as are counted as dropped;
  -- the queue never exceeds its capacity and the batch stays below its size (which is not 0); and when
  -- the goroutine has finished, the records that were sent are all but those that are counted.
  pub no_record_lost :
      (capacity batch_size : ℕ) (es : List (Event A)) (w : Writer A)
      → 0 < batch_size
      → run capacity batch_size es new_batch_writer ≡ some w
      → Without (w.sent ++ (w.batch ++ w.queue)) w.dropped (offered es)
        × (length w.queue ≤ capacity)
        × (length w.batch < batch_size)
        × ((w.finished ≡ false) ⊎ Without w.sent w.dropped (offered es))
  unfolding new_batch_writer
  no_record_lost capacity batch_size es w pos r =
      let start : IsBounded capacity batch_size new_batch_writer = record {
        queue_fits = omega arith;
        batch_fits = pos;
        at_end = inl refl;
      } in
      let all =
        run-IsAccounted capacity batch_size es new_batch_writer w [] r
          (unfold Without in (refl, refl)) in
      let bound = run-IsBounded capacity batch_size es new_batch_writer w pos start r in
      (
        all,
        bound.queue_fits,
        bound.batch_fits,
        elim bound.at_end [
          | inl f ↦ inl f
          | inr (c, (q, b)) ↦
              let rest : w.sent ++ (w.batch ++ w.queue) ≡ w.sent =
                ap (λ l. w.sent ++ (l ++ w.queue)) b
                ∙ ap (λ l. w.sent ++ l) q
                ∙ append-nil w.sent in
              inr (subst (λ l. Without l w.dropped (offered es)) rest all)
        ],
      )
