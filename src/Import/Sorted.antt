-- ===== src/Import/Sorted.antt =====
-- `sortAddedByDepth` of internal/control/importapply.go comes to an end.
use softmatrix_airlock.Base.{
  ℕ, zero, suc, ◌+◌, ◌≤◌, ◌<◌, ◌≡◌, refl, sym, ap, subst, inl, inr, String, Bool, true, false, ◌&&◌,
  ◌||◌, not, some, List, [], ◌∷◌, ◌++◌, All, keep, length, length-append, arith, ltb, Bool-cases,
}
use softmatrix_airlock.Import.Diff.{DiffItem}
use softmatrix_airlock.Import.Apply.{
  is_added, is_in, parent_pending, place_ready, place_rest, passes, sort_added_by_depth,
}
use text.Mathlib.Text.{◌==◌}
use text.Mathlib.TextEquality.{eq_iff}

abbrev pub distinct_ids : List DiffItem → Bool
distinct_ids [] = true
distinct_ids (i ∷ is) = not (is_in is i.external_id) && distinct_ids is

-- How many items are not placed.
abbrev left : List DiffItem → List DiffItem → ℕ
left batch out = length (keep (λ i. not (is_in out i.external_id)) batch)

is_in-append :
    (out : List DiffItem) (it : DiffItem) (e : String)
    → is_in (out ++ it ∷ []) e ≡ (is_in out e || it.external_id == e)
is_in-append [] it e = ground arith
is_in-append (o ∷ out) it e = ground (arith, is_in-append out it e)

-- An item that is not of the list leaves the count.
left-other :
    (batch out : List DiffItem) (it : DiffItem)
    → is_in batch it.external_id ≡ false
    → left batch (out ++ it ∷ []) ≡ left batch out
left-other [] out it h = refl
left-other (i ∷ is) out it h =
    let same : (it.external_id == i.external_id) ≡ false =
      ground (arith, eq_iff it.external_id i.external_id, eq_iff i.external_id it.external_id) in
    let a = is_in-append out it i.external_id in
    let ih = left-other is out it (ground arith) in ground arith

-- An item of the list that is placed leaves one less.
left-placed :
    (batch out : List DiffItem) (it : DiffItem)
    → distinct_ids batch ≡ true
    → is_in batch it.external_id ≡ true
    → is_in out it.external_id ≡ false
    → suc (left batch (out ++ it ∷ [])) ≡ left batch out
left-placed [] out it d h f = ground arith
left-placed (i ∷ is) out it d h f = elim (Bool-cases (i.external_id == it.external_id)) [
  | inl t ↦
      let e : i.external_id ≡ it.external_id = (eq_iff i.external_id it.external_id).0 t in
      let back : (it.external_id == i.external_id) ≡ true =
        (eq_iff it.external_id i.external_id).1 (sym e) in
      let other : is_in is it.external_id ≡ false = rw (← e) (ground arith) in
      let free : is_in out i.external_id ≡ false = rw e f in
      let a = is_in-append out it i.external_id in
      let r = left-other is out it other in ground arith
  | inr g ↦
      let back : (it.external_id == i.external_id) ≡ false =
        ground (arith, eq_iff it.external_id i.external_id, eq_iff i.external_id it.external_id) in
      let a = is_in-append out it i.external_id in
      let ih = left-placed is out it (ground arith) (ground arith) f in ground arith
]

AllIn : List DiffItem → List DiffItem → Type 0
AllIn batch its = All (λ i. is_in batch i.external_id ≡ true) its

module _ (batch : List DiffItem) (distinct : distinct_ids batch ≡ true) where
  -- What is placed and what is left make up the batch.
  Balanced : List DiffItem → Type 0
  Balanced out = length out + left batch out ≡ length batch

  placed-Balanced :
      (out : List DiffItem) (it : DiffItem)
      → is_in batch it.external_id ≡ true
      → is_in out it.external_id ≡ false
      → Balanced out
      → Balanced (out ++ it ∷ [])
  unfolding Balanced
  placed-Balanced out it h f b =
      let l = length-append out (it ∷ []) in
      let p = left-placed batch out it distinct h f in ground arith

  record Ready (its out : List DiffItem) : Type 0 where
    balanced : Balanced (place_ready batch its out)
    grows : length out ≤ length (place_ready batch its out)

  ready : (its out : List DiffItem) → AllIn batch its → Balanced out → Ready its out
  unfolding place_ready AllIn
  ready [] out h b = record { balanced = b; grows = omega arith }
  ready (it ∷ its) out h b =
      elim (Bool-cases (is_in out it.external_id || parent_pending batch out it)) [
        | inl t ↦
            let r = ready its out h.1 b in
            record {
              balanced = rw (place_ready, t) r.balanced;
              grows = rw (place_ready, t) r.grows;
            }
        | inr f ↦
            let r = ready its (out ++ it ∷ []) h.1 (placed-Balanced out it h.0 (ground arith) b) in
            let l = length-append out (it ∷ []) in
            let g = r.grows in
            record {
              balanced = rw (place_ready, f) r.balanced;
              grows = rw (place_ready, f) (omega (arith, l, g));
            }
      ]

  -- Behind the last pass nothing is left.
  record Rest (its out : List DiffItem) : Type 0 where
    balanced : Balanced (place_rest batch its out)
    keeps : (e : String) → is_in out e ≡ true → is_in (place_rest batch its out) e ≡ true
    placed : AllIn (place_rest batch its out) its

  rest : (its out : List DiffItem) → AllIn batch its → Balanced out → Rest its out
  unfolding place_rest AllIn
  rest [] out h b = record { balanced = b; keeps = λ e t. t; placed = tt }
  rest (it ∷ its) out h b = elim (Bool-cases (is_in out it.external_id)) [
    | inl t ↦
        let r = rest its out h.1 b in
        record {
          balanced = rw (place_rest, t) r.balanced;
          keeps = rw (place_rest, t) r.keeps;
          placed =
              (let e : place_rest batch (it ∷ its) out ≡ place_rest batch its out =
                  rw (place_rest, t) refl in
                subst (λ x. AllIn x (it ∷ its)) (sym e) (r.keeps it.external_id t, r.placed));
        }
    | inr f ↦
        let r = rest its (out ++ it ∷ []) h.1 (placed-Balanced out it h.0 f b) in
        let own : is_in (out ++ it ∷ []) it.external_id ≡ true =
          (let a = is_in-append out it it.external_id in
            let s = (eq_iff it.external_id it.external_id).1 refl in ground arith) in
        record {
          balanced = rw (place_rest, f) r.balanced;
          keeps =
              rw (place_rest, f) (λ e t. r.keeps e (let a = is_in-append out it e in ground arith));
          placed =
              (let e : place_rest batch (it ∷ its) out ≡ place_rest batch its (out ++ it ∷ []) =
                  rw (place_rest, f) refl in
                subst (λ x. AllIn x (it ∷ its)) (sym e) (r.keeps it.external_id own, r.placed));
        }
  ]

  none_left : (out : List DiffItem) (its : List DiffItem) → AllIn out its → left its out ≡ 0
  unfolding AllIn
  none_left out [] h = refl
  none_left out (i ∷ is) h = let ih = none_left out is h.1 in let z = h.0 in ground arith

  all_left : (out : List DiffItem) (its : List DiffItem) → left its out ≡ 0 → AllIn out its
  unfolding AllIn
  all_left out [] h = tt
  all_left out (i ∷ is) h = elim (Bool-cases (is_in out i.external_id)) [
    | inl t ↦ (t, all_left out is (ground arith))
    | inr f ↦ absurd (ground arith)
  ]

  widen : (it : DiffItem) (is its : List DiffItem) → AllIn is its → AllIn (it ∷ is) its
  unfolding AllIn
  widen it is [] h = tt
  widen it is (j ∷ js) h = (let z = h.0 in ground arith, widen it is js h.1)

  self-AllIn : (its : List DiffItem) → AllIn its its
  unfolding AllIn
  self-AllIn [] = tt
  self-AllIn (i ∷ is) = (
    let s = (eq_iff i.external_id i.external_id).1 refl in ground arith,
    widen i is is (self-AllIn is),
  )

  -- A pass for each item that is left, and the test behind the last.
  passes-end :
      (n : ℕ) (out : List DiffItem)
      → Balanced out
      → left batch out < n
      → (out' : List DiffItem) × (passes batch n out ≡ some out')
        × Balanced out'
        × (left batch out' ≡ 0)
  unfolding passes Balanced
  passes-end zero out b h = absurd (ground arith)
  passes-end (suc n) out b h = elim (Bool-cases (ltb (length out) (length batch))) [
    | inr f ↦ (out, rw f refl, b, ground arith)
    | inl t ↦
        let r = ready batch out (self-AllIn batch) b in
        let rb = r.balanced in
        let rg = r.grows in
        elim (Bool-cases (ltb (length out) (length (place_ready batch batch out)))) [
          | inl g ↦
              let (out', e, b', z) = passes-end n (place_ready batch batch out) rb (ground arith) in
              (out', rw (t, g) e, b', z)
          | inr g ↦
              let w = rest batch (place_ready batch batch out) (self-AllIn batch) rb in
              let zero_left =
                none_left (place_rest batch batch (place_ready batch batch out)) batch w.placed in
              let (out', e, b', z) =
                passes-end n (place_rest batch batch (place_ready batch batch out)) w.balanced
                  (ground arith) in
              (out', rw (t, g) e, b', z)
        ]
  ]

abbrev pub additions : List DiffItem → List DiffItem
additions items = keep (λ i. is_added i.kind) items

-- The sorting of the additions comes to an end, where no external id is added twice: after at most one pass
-- for each addition every addition is placed, and none twice, whatever order the directory gives them in and
-- even where their parents form a cycle.
pub sort_added_by_depth-ends :
    (items : List DiffItem)
    → distinct_ids (additions items) ≡ true
    → (out : List DiffItem) × (sort_added_by_depth items ≡ some out)
      × (length out ≡ length (additions items))
      × All (λ i. is_in out i.external_id ≡ true) (additions items)
unfolding sort_added_by_depth Balanced AllIn
sort_added_by_depth-ends items d =
    let batch = additions items in
    let start : Balanced batch d [] = (let z = nothing_placed batch in omega (arith, z)) in
    let (out, e, b, z) = passes-end batch d (suc (length batch)) [] start (ground arith) in
    (out, e, ground arith, all_left batch d out batch z)
  where
    nothing_placed :
        (its : List DiffItem) → length (keep (λ i. not (is_in [] i.external_id)) its) ≡ length its
    nothing_placed [] = refl
    nothing_placed (i ∷ is) = ap suc (nothing_placed is)
