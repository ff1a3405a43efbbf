-- ===== src/Usage/Closing.antt =====
-- `Close` of internal/usage/batch.go comes to an end.
use softmatrix_airlock.Base.{
  ◌⊎◌, inl, inr, ◌+◌, if◌then◌else◌, Bool-cases, Option-cases, subst, ap, sym, ℕ, suc, ◌≡◌, refl,
  ◌∙◌, Bool, true, false, some, List, [], ◌∷◌, ◌++◌, length, arith,
}
use softmatrix_airlock.Usage.Batch.{
  Writer, Event, writes, ticks, write, receives, closes, flush, append_record, receive, close, step,
  run,
}

module _ {A : Type 0} where
  flush-leaves :
      (taken : Bool) (w : Writer A)
      → ((flush taken w).queue ≡ w.queue)
        × ((flush taken w).closed ≡ w.closed)
        × ((flush taken w).finished ≡ w.finished)
        × ((flush taken w).batch ≡ [])
  unfolding flush
  flush-leaves true w = (refl, refl, refl, refl)
  flush-leaves false w = (refl, refl, refl, refl)

  append_record-leaves :
      (batch_size : ℕ) (taken : Bool) (r : A) (w : Writer A)
      → ((append_record batch_size taken r w).queue ≡ w.queue)
        × ((append_record batch_size taken r w).closed ≡ w.closed)
        × ((append_record batch_size taken r w).finished ≡ w.finished)
  unfolding append_record
  append_record-leaves batch_size taken r w =
      let w' : Writer A = record w { batch = w.batch ++ r ∷ [] } in
      let z = flush-leaves taken w' in ground arith

  -- The goroutine has ended, with empty hands.
  pub record IsDone (w : Writer A) : Type 0 where
    pub done : w.finished ≡ true
    pub no_queue : w.queue ≡ []
    pub no_batch : w.batch ≡ []

  -- How often the goroutine has received.
  abbrev pub receptions : List (Event A) → ℕ
  receptions [] = 0
  receptions (writes r ∷ es) = receptions es
  receptions (receives b ∷ es) = suc (receptions es)
  receptions (ticks b ∷ es) = receptions es
  receptions (closes ∷ es) = receptions es

  -- How many receptions are left until the end, behind which there is none.
  abbrev left : Writer A → ℕ
  left w = if w.finished then 0 else suc (length w.queue)

  record IsClosing (w : Writer A) : Type 0 where
    shut : w.closed ≡ true
    at_end : (w.finished ≡ false) ⊎ IsDone w

  flush-IsClosing :
      (taken : Bool) (w : Writer A)
      → IsClosing w
      → w.finished ≡ false
      → IsClosing (flush taken w) × (left (flush taken w) ≡ left w)
  unfolding flush
  flush-IsClosing true w c f = (record { shut = c.shut; at_end = inl f }, refl)
  flush-IsClosing false w c f = (record { shut = c.shut; at_end = inl f }, refl)

  receive-IsClosing :
      (batch_size : ℕ) (taken : Bool) (q : List A) (w w' : Writer A)
      → w.queue ≡ q
      → IsClosing w
      → w.finished ≡ false
      → receive batch_size taken q w ≡ some w'
      → IsClosing w' × (1 + left w' ≡ left w)
  unfolding receive
  receive-IsClosing batch_size taken [] w w' e c f r =
      let z = flush-leaves taken w in
      let w1 : Writer A = record (flush taken w) { finished = true } in
      let same : w1 ≡ w' = ground (arith, c.shut) in
      let end : IsClosing w1 = record {
        shut = z.1 ∙ c.shut;
        at_end = inr (record { done = refl; no_queue = z.0 ∙ e; no_batch = z.3 });
      } in
      let none_left : left w' ≡ 0 = ap left (sym same) in
      let one : left w ≡ suc (length w.queue) = rw f refl in
      (subst IsClosing same end, omega (arith, none_left, one, ap length e))
  receive-IsClosing batch_size taken (x ∷ rest) w w' e c f r =
      let w0 : Writer A = record w { queue = rest } in
      let z = append_record-leaves batch_size taken x w0 in
      let w1 : Writer A = append_record batch_size taken x w0 in
      let same : w1 ≡ w' = ground arith in
      let end : IsClosing w1 = record { shut = z.1 ∙ c.shut; at_end = inl (z.2 ∙ f) } in
      let some_left : left w' ≡ suc (length w'.queue) =
        rw (ap (λ x. x.finished) (sym same) ∙ (z.2 ∙ f)) refl in
      let one : left w ≡ suc (length w.queue) = rw f refl in
      let q : length w'.queue ≡ length rest = ap (λ x. length x.queue) (sym same) ∙ ap length z.0 in
      (subst IsClosing same end, omega (arith, some_left, one, q, ap length e))

  idle :
      (w w' : Writer A) → IsClosing w' × (left w' ≡ left w) → IsClosing w' × (0 + left w' ≡ left w)
  idle w w' (c, e) = (c, omega (arith, e))

  step-IsClosing :
      (capacity batch_size : ℕ) (e : Event A) (w w' : Writer A)
      → IsClosing w
      → step capacity batch_size e w ≡ some w'
      → IsClosing w' × (receptions (e ∷ []) + left w' ≡ left w)
  unfolding step write close
  step-IsClosing capacity batch_size (writes r) w w' c s =
      let same : record w { dropped = w.dropped + 1 } ≡ w' = ground (arith, c.shut) in
      idle w w' (
        subst (λ x. IsClosing x × (left x ≡ left w)) same
          (
            record {
              shut = c.shut;
              at_end = elim c.at_end [
                | inl f ↦ inl f
                | inr d ↦
                    inr (record { done = d.done; no_queue = d.no_queue; no_batch = d.no_batch })
              ];
            },
            refl,
          ))
  step-IsClosing capacity batch_size (receives a) w w' c s = elim (Bool-cases w.finished) [
    | inl t ↦ absurd (ground arith)
    | inr f ↦ receive-IsClosing batch_size a w.queue w w' refl c f (ground arith)
  ]
  step-IsClosing capacity batch_size (ticks a) w w' c s = elim (Bool-cases w.finished) [
    | inl t ↦ absurd (ground arith)
    | inr f ↦
        let same : flush a w ≡ w' = ground arith in
        idle w w' (subst (λ x. IsClosing x × (left x ≡ left w)) same (flush-IsClosing a w c f))
  ]
  step-IsClosing capacity batch_size closes w w' c s =
      let same : record w { closed = true } ≡ w' = ground arith in
      idle w w' (
        subst (λ x. IsClosing x × (left x ≡ left w)) same
          (
            record {
              shut = refl;
              at_end = elim c.at_end [
                | inl f ↦ inl f
                | inr d ↦
                    inr (record { done = d.done; no_queue = d.no_queue; no_batch = d.no_batch })
              ];
            },
            refl,
          ))

  run-IsClosing :
      (capacity batch_size : ℕ) (es : List (Event A)) (w w' : Writer A)
      → IsClosing w
      → run capacity batch_size es w ≡ some w'
      → IsClosing w' × (receptions es + left w' ≡ left w)
  unfolding run
  run-IsClosing capacity batch_size [] w w' c r =
      let same : w ≡ w' = ground arith in
      idle w w' (subst (λ x. IsClosing x × (left x ≡ left w)) same (c, refl))
  run-IsClosing capacity batch_size (e ∷ es) w w' c r =
      elim (Option-cases (step capacity batch_size e w)) [
        | inl n ↦ absurd (ground arith)
        | inr (w1, s) ↦
            let one = step-IsClosing capacity batch_size e w w1 c s in
            let rest = run-IsClosing capacity batch_size es w1 w' one.0 (ground arith) in
            (rest.0, receptions-cons e es (left w') (left w1) (left w) rest.1 one.1)
      ]
    where
      receptions-cons :
          (e : Event A) (es : List (Event A)) (a b c : ℕ)
          → receptions es + a ≡ b
          → receptions (e ∷ []) + b ≡ c
          → receptions (e ∷ es) + a ≡ c
      receptions-cons (writes r) es a b c h k = omega (arith, h, k)
      receptions-cons (receives t) es a b c h k = omega (arith, h, k)
      receptions-cons (ticks t) es a b c h k = omega (arith, h, k)
      receptions-cons closes es a b c h k = omega (arith, h, k)

  receive-enabled :
      (capacity batch_size : ℕ) (taken : Bool) (q : List A) (w : Writer A)
      → w.queue ≡ q
      → w.closed ≡ true
      → w.finished ≡ false
      → (w' : Writer A) × (step capacity batch_size (receives taken) w ≡ some w')
  unfolding step receive
  receive-enabled capacity batch_size taken [] w e c f =
      (record (flush taken w) { finished = true }, rw (f, e, c) refl)
  receive-enabled capacity batch_size taken (x ∷ rest) w e c f =
      (append_record batch_size taken x (record w { queue = rest }), rw (f, e) refl)

  -- After `Close`, in any interleaving of the goroutine with the ticker, callers that still write and
  -- further calls of `Close`, whatever the sink answers: while the goroutine has not finished, its next
  -- reception from the queue is enabled, and it has received exactly what has left the queue; when it
  -- has finished, it has received once for each record of the queue at `Close` and once more, and
  -- neither queue nor batch holds anything. So it finishes with that many receptions, and it cannot
  -- make more.
  pub close_ends :
      (capacity batch_size : ℕ) (es : List (Event A)) (w w' : Writer A)
      → w.finished ≡ false
      → run capacity batch_size es (close w) ≡ some w'
      → ((w'.finished ≡ false)
          × (receptions es + length w'.queue ≡ length w.queue)
          × ((taken : Bool)
              → (next : Writer A) × (step capacity batch_size (receives taken) w' ≡ some next)))
        ⊎ ((receptions es ≡ suc (length w.queue)) × IsDone w')
  unfolding close
  close_ends capacity batch_size es w w' f r =
      let begin : IsClosing (close w) = record { shut = refl; at_end = inl f } in
      let (c, n) = run-IsClosing capacity batch_size es (close w) w' begin r in
      let all : left (close w) ≡ suc (length w.queue) = rw f refl in
      elim c.at_end [
        | inl g ↦
            let rest : left w' ≡ suc (length w'.queue) = rw g refl in
            inl (
              g,
              omega (arith, n, all, rest),
              λ taken. receive-enabled capacity batch_size taken w'.queue w' refl c.shut g,
            )
        | inr d ↦
            let none_left : left w' ≡ 0 = rw d.done refl in
            inr (omega (arith, n, all, none_left), d)
      ]
