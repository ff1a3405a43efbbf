-- ===== src/Usage/Accounts.antt =====
-- Where the records are that the writer of internal/usage/batch.go was given, and in which order.
use mathlib.Core.List.{append_assoc, append-nil}
use softmatrix_airlock.Base.{
  ltb, leb, sym, ◌∙◌, ℕ, suc, ◌+◌, ◌≡◌, refl, ap, subst, ◌⊎◌, inl, inr, Bool, true, false, some,
  List, [], ◌∷◌, ◌++◌, length, arith, Option-cases, Bool-cases,
}
use softmatrix_airlock.Usage.Batch.{
  Writer, Event, writes, receives, ticks, closes, write, flush, append_record, receive, close, step,
  run,
}

-- The list without some of its elements, which are counted, in order: each is left out, or comes next.
unfoldable pub Without {ℓ} : {A : Type ℓ} → List A → ℕ → List A → Type ℓ
Without xs n [] = (xs ≡ []) × (n ≡ 0)
Without {A = A} xs n (y ∷ ys) =
    ((m : ℕ) × (n ≡ suc m) × Without xs m ys) ⊎ ((zs : List A) × (xs ≡ y ∷ zs) × Without zs n ys)

module _ {A : Type 0} where
  Without-skip :
      (ys : List A) (xs : List A) (n : ℕ) (r : A)
      → Without xs n ys
      → Without xs (suc n) (ys ++ r ∷ [])
  unfolding Without
  Without-skip [] xs n r (e, f) = inl (0, ap suc f, (e, refl))
  Without-skip (y ∷ ys) xs n r (inl (m, e, h)) =
      inl (n, refl, subst (λ k. Without xs k (ys ++ r ∷ [])) (sym e) (Without-skip ys xs m r h))
  Without-skip (y ∷ ys) xs n r (inr (zs, e, h)) = inr (zs, e, Without-skip ys zs n r h)

  Without-keep :
      (ys : List A) (xs : List A) (n : ℕ) (r : A)
      → Without xs n ys
      → Without (xs ++ r ∷ []) n (ys ++ r ∷ [])
  unfolding Without
  Without-keep [] xs n r (e, f) = inr ([], ap (λ l. l ++ r ∷ []) e, (refl, f))
  Without-keep (y ∷ ys) xs n r (inl (m, e, h)) = inl (m, e, Without-keep ys xs m r h)
  Without-keep (y ∷ ys) xs n r (inr (zs, e, h)) =
      inr (zs ++ r ∷ [], ap (λ l. l ++ r ∷ []) e, Without-keep ys zs n r h)

  -- More may be left out from the middle.
  Without-middle :
      (ys xs bs cs : List A) (n : ℕ)
      → Without (xs ++ (bs ++ cs)) n ys
      → Without (xs ++ cs) (n + length bs) ys
  unfolding Without
  Without-middle [] [] [] cs n (e, f) = (e, omega (arith, f))
  Without-middle [] [] (b ∷ bs) cs n (e, f) = absurd (cc e)
  Without-middle [] (x ∷ xs) bs cs n (e, f) = absurd (cc e)
  Without-middle (y ∷ ys) xs bs cs n (inl (m, e, h)) =
      inl (m + length bs, omega (arith, e), Without-middle ys xs bs cs m h)
  Without-middle (y ∷ ys) (x ∷ xs) bs cs n (inr (zs, e, h)) =
      let hd : x ≡ y = cc e in
      let tl : xs ++ (bs ++ cs) ≡ zs = cc e in
      inr (xs ++ cs, ap (λ a. a ∷ (xs ++ cs)) hd, Without-middle ys xs bs cs n (rw tl h))
  Without-middle (y ∷ ys) [] (b ∷ bs) cs n (inr (zs, e, h)) =
      let tl : bs ++ cs ≡ zs = cc e in
      inl (n + length bs, omega arith, Without-middle ys [] bs cs n (rw tl h))
  Without-middle (y ∷ ys) [] [] cs n (inr (zs, e, h)) =
      inr (zs, e, subst (λ k. Without zs k ys) (omega arith) h)

  -- The records that a run was given, in their order.
  abbrev pub offers : Event A → List A → List A
  offers (writes r) rest = r ∷ rest
  offers (receives b) rest = rest
  offers (ticks b) rest = rest
  offers closes rest = rest

  abbrev pub offered : List (Event A) → List A
  offered [] = []
  offered (e ∷ es) = offers e (offered es)

  -- Where the records are that a writer was given: what has come first stands first.
  abbrev pub stored : Writer A → List A
  stored w = w.sent ++ (w.batch ++ w.queue)

  abbrev pub IsAccounted : Writer A → List A → Type 0
  IsAccounted w given = Without (stored w) w.dropped given

  drop-IsAccounted :
      (r : A) (w : Writer A) (given : List A)
      → IsAccounted w given
      → IsAccounted (record w { dropped = w.dropped + 1 }) (given ++ r ∷ [])
  drop-IsAccounted r w given h =
      subst (λ k. Without (stored w) k (given ++ r ∷ [])) (omega arith)
        (Without-skip given (stored w) w.dropped r h)

  enqueue-IsAccounted :
      (r : A) (w : Writer A) (given : List A)
      → IsAccounted w given
      → IsAccounted (record w { queue = w.queue ++ r ∷ [] }) (given ++ r ∷ [])
  enqueue-IsAccounted r w given h =
      let same : stored w ++ r ∷ [] ≡ w.sent ++ (w.batch ++ (w.queue ++ r ∷ [])) =
        append_assoc w.sent (w.batch ++ w.queue) (r ∷ [])
        ∙ ap (λ l. w.sent ++ l) (append_assoc w.batch w.queue (r ∷ [])) in
      subst (λ l. Without l w.dropped (given ++ r ∷ [])) same
        (Without-keep given (stored w) w.dropped r h)

  write-IsAccounted :
      (capacity : ℕ) (r : A) (w : Writer A) (given : List A)
      → IsAccounted w given
      → IsAccounted (write capacity r w) (given ++ r ∷ [])
  unfolding write
  write-IsAccounted capacity r w given h = elim (Bool-cases w.closed) [
    | inl c ↦ rw (write, c) (drop-IsAccounted r w given h)
    | inr c ↦ elim (Bool-cases (ltb (length w.queue) capacity)) [
      | inl t ↦ rw (write, c, t) (enqueue-IsAccounted r w given h)
      | inr t ↦ rw (write, c, t) (drop-IsAccounted r w given h)
    ]
  ]

  flush-IsAccounted :
      (taken : Bool) (w : Writer A) (given : List A)
      → IsAccounted w given
      → IsAccounted (flush taken w) given
  unfolding flush
  flush-IsAccounted true w given h =
      subst (λ l. Without l w.dropped given) (sym (append_assoc w.sent w.batch w.queue)) h
  flush-IsAccounted false w given h = Without-middle given w.sent w.batch w.queue w.dropped h

  append_record-IsAccounted :
      (batch_size : ℕ) (taken : Bool) (r : A) (rest : List A) (w : Writer A) (given : List A)
      → w.queue ≡ r ∷ rest
      → IsAccounted w given
      → IsAccounted (append_record batch_size taken r (record w { queue = rest })) given
  unfolding append_record
  append_record-IsAccounted batch_size taken r rest w given e h =
      let w' : Writer A = record w { queue = rest; batch = w.batch ++ r ∷ [] } in
      let same : stored w ≡ stored w' =
        ap (λ q. w.sent ++ (w.batch ++ q)) e
        ∙ ap (λ l. w.sent ++ l) (sym (append_assoc w.batch (r ∷ []) rest)) in
      let here : IsAccounted w' given = subst (λ l. Without l w.dropped given) same h in
      elim (Bool-cases (leb batch_size (length w'.batch))) [
        | inl t ↦ rw (append_record, t) (flush-IsAccounted taken w' given here)
        | inr t ↦ rw (append_record, t) here
      ]

  receive-IsAccounted :
      (batch_size : ℕ) (taken : Bool) (q : List A) (w w' : Writer A) (given : List A)
      → w.queue ≡ q
      → receive batch_size taken q w ≡ some w'
      → IsAccounted w given
      → IsAccounted w' given
  unfolding receive
  receive-IsAccounted batch_size taken [] w w' given e r h = elim (Bool-cases w.closed) [
    | inr c ↦ absurd (ground arith)
    | inl c ↦
        let same : record (flush taken w) { finished = true } ≡ w' = ground arith in
        subst (λ x. IsAccounted x given) same (flush-IsAccounted taken w given h)
  ]
  receive-IsAccounted batch_size taken (r ∷ rest) w w' given e s h =
      let same : append_record batch_size taken r (record w { queue = rest }) ≡ w' = ground arith in
      subst (λ x. IsAccounted x given) same
        (append_record-IsAccounted batch_size taken r rest w given e h)

  step-IsAccounted :
      (capacity batch_size : ℕ) (e : Event A) (w w' : Writer A) (given : List A)
      → step capacity batch_size e w ≡ some w'
      → IsAccounted w given
      → IsAccounted w' (given ++ offers e [])
  unfolding step close
  step-IsAccounted capacity batch_size (writes r) w w' given s h =
      let same : write capacity r w ≡ w' = ground arith in
      subst (λ x. IsAccounted x (given ++ r ∷ [])) same (write-IsAccounted capacity r w given h)
  step-IsAccounted capacity batch_size (receives taken) w w' given s h =
      elim (Bool-cases w.finished) [
        | inl t ↦ absurd (ground arith)
        | inr f ↦
            rw (append-nil given)
              (receive-IsAccounted batch_size taken w.queue w w' given refl (ground arith) h)
      ]
  step-IsAccounted capacity batch_size (ticks taken) w w' given s h =
      let same : flush taken w ≡ w' = ground arith in
      rw (append-nil given)
        (subst (λ x. IsAccounted x given) same (flush-IsAccounted taken w given h))
  step-IsAccounted capacity batch_size closes w w' given s h =
      let same : record w { closed = true } ≡ w' = ground arith in
      rw (append-nil given) (subst (λ x. IsAccounted x given) same h)

  offers-append :
      (e : Event A) (given rest : List A) → (given ++ offers e []) ++ rest ≡ given ++ offers e rest
  offers-append (writes r) given rest = append_assoc given (r ∷ []) rest
  offers-append (receives b) given rest = append_assoc given [] rest
  offers-append (ticks b) given rest = append_assoc given [] rest
  offers-append closes given rest = append_assoc given [] rest

  pub run-IsAccounted :
      (capacity batch_size : ℕ) (es : List (Event A)) (w w' : Writer A) (given : List A)
      → run capacity batch_size es w ≡ some w'
      → IsAccounted w given
      → IsAccounted w' (given ++ offered es)
  unfolding run
  run-IsAccounted capacity batch_size [] w w' given r h =
      let same : w ≡ w' = ground arith in
      rw (append-nil given) (subst (λ x. IsAccounted x given) same h)
  run-IsAccounted capacity batch_size (e ∷ es) w w' given r h =
      elim (Option-cases (step capacity batch_size e w)) [
        | inl n ↦ absurd (ground arith)
        | inr (w1, s) ↦ subst (IsAccounted w') (offers-append e given (offered es)) (
            run-IsAccounted capacity batch_size es w1 w' (given ++ offers e []) (ground arith)
              (step-IsAccounted capacity batch_size e w w1 given s h))
      ]
