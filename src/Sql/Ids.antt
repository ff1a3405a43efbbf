-- ===== src/Sql/Ids.antt =====
-- Tables whose rows have a text for their primary key: rows found by id, before and after an UPDATE.
use softmatrix_airlock.Base.{
  ℕ, suc, ◌≡◌, refl, sym, ap, ◌∙◌, inl, inr, String, Bool, true, false, ◌&&◌, Option, none, some,
  List, [], ◌∷◌, ◌++◌, All, any, find, arith, Bool-cases, if◌then◌else◌, ◌==◌ as eq_ℕ,
}
use softmatrix_airlock.Sql.{update_where}
use text.Mathlib.Text.{◌==◌}
use text.Mathlib.TextEquality.{eq_iff}

-- The column of the primary key.
pub record HasId (A : Type 0) : Type 0 where
  pub id_of : A → String

module _ {A : Type 0} ⦃h : HasId A⦄ where
  abbrev pub has_id : String → A → Bool
  has_id id r = h.id_of r == id

  abbrev pub UniqueIds : List A → Type 0
  UniqueIds [] = Unit
  UniqueIds (r ∷ rows) = (any (has_id (h.id_of r)) rows ≡ false) × UniqueIds rows

  -- The row with an id.
  abbrev pub row_of : String → List A → Option A
  row_of id rows = find (has_id id) rows

  pub row_of-has_id :
      (id : String) (rows : List A) (k : A) → row_of id rows ≡ some k → has_id id k ≡ true
  row_of-has_id id [] k e = absurd (ground arith)
  row_of-has_id id (r ∷ rows) k e = elim (Bool-cases (has_id id r)) [
    | inl t ↦ let q : r ≡ k = ground arith in ap (has_id id) (sym q) ∙ t
    | inr t ↦ row_of-has_id id rows k (ground arith)
  ]

  pub missing : (id : String) (rows : List A) → row_of id rows ≡ none → any (has_id id) rows ≡ false
  missing id [] e = refl
  missing id (r ∷ rows) e = ground (arith, missing id rows)

  -- A row put behind the others.
  pub row_of-append :
      (id : String) (rows : List A) (r : A)
      → row_of id (rows ++ r ∷ [])
        ≡ elim (row_of id rows) [ none ↦ (if has_id id r then some r else none) | some k ↦ some k ]
  row_of-append id [] r = ground arith
  row_of-append id (s ∷ rows) r = ground (arith, row_of-append id rows r)

  any-append :
      (id : String) (rows : List A) (r : A)
      → any (has_id id) rows ≡ false
      → (h.id_of r == id) ≡ false
      → any (has_id id) (rows ++ r ∷ []) ≡ false
  any-append id [] r e n = ground arith
  any-append id (s ∷ rows) r e n = ground (arith, any-append id rows r)

  pub UniqueIds-append :
      (rows : List A) (r : A)
      → UniqueIds rows
      → any (has_id (h.id_of r)) rows ≡ false
      → UniqueIds (rows ++ r ∷ [])
  UniqueIds-append [] r u n = (refl, tt)
  UniqueIds-append (s ∷ rows) r u n = (
    any-append (h.id_of s) rows r u.0
        (ground (arith, eq_iff (h.id_of s) (h.id_of r), eq_iff (h.id_of r) (h.id_of s))),
    UniqueIds-append rows r u.1 (ground arith),
  )

  module _ (test : A → Bool) (change : A → A)
      (same_id : (k : A) → h.id_of (change k) ≡ h.id_of k) where
    pub row_of-update_where :
        (id : String) (rows : List A)
        → row_of id (update_where test change rows).0
          ≡ elim (row_of id rows) [ none ↦ none | some k ↦ some (if test k then change k else k) ]
    unfolding update_where
    row_of-update_where id [] = refl
    row_of-update_where id (r ∷ rows) = ground (arith, same_id r, row_of-update_where id rows)

    pub count-positive :
        (id : String) (rows : List A) (k : A)
        → row_of id rows ≡ some k
        → test k ≡ true
        → (n : ℕ) × ((update_where test change rows).1 ≡ suc n)
    unfolding update_where
    count-positive id [] k e t = absurd (ground arith)
    count-positive id (r ∷ rows) k e t = elim (Bool-cases (has_id id r)) [
      | inl q ↦ ((update_where test change rows).1, ground arith)
      | inr q ↦
          let (n, c) = count-positive id rows k (ground arith) t in
          (if test r then suc n else n, ground arith)
    ]

    any-update_where :
        (id : String) (rows : List A)
        → any (has_id id) (update_where test change rows).0 ≡ any (has_id id) rows
    unfolding update_where
    any-update_where id [] = refl
    any-update_where id (r ∷ rows) = ground (arith, same_id r, any-update_where id rows)

    -- An UPDATE that keeps the ids keeps the primary key.
    pub UniqueIds-update_where :
        (rows : List A) → UniqueIds rows → UniqueIds (update_where test change rows).0
    unfolding update_where
    UniqueIds-update_where [] u = tt
    UniqueIds-update_where (r ∷ rows) u = elim (Bool-cases (test r)) [
      | inl e ↦
          rw e
            (rw (same_id r, any-update_where (h.id_of r) rows) u.0, UniqueIds-update_where rows u.1)
      | inr e ↦ rw e (rw (any-update_where (h.id_of r) rows) u.0, UniqueIds-update_where rows u.1)
    ]

  -- An UPDATE by id that keeps the ids finds its row, changes it and no other.
  module _ (id : String) (change : A → A) (same_id : (k : A) → h.id_of (change k) ≡ h.id_of k) where
    pub row_of-update_self :
        (rows : List A) (k : A)
        → row_of id rows ≡ some k
        → row_of id (update_where (has_id id) change rows).0 ≡ some (change k)
    row_of-update_self rows k e =
        row_of-update_where (has_id id) change same_id id rows ∙ rw (e, row_of-has_id id rows k e)

    pub update_count :
        (rows : List A) (k : A)
        → row_of id rows ≡ some k
        → eq_ℕ (update_where (has_id id) change rows).1 0 ≡ false
    update_count rows k e =
        let (n, c) =
          count-positive (has_id id) change same_id id rows k e (row_of-has_id id rows k e) in
        ground arith

  -- An UPDATE by id with a guard.
  module _ (id : String) (test : A → Bool) (change : A → A) where
    not_there :
        (rows : List A)
        → any (has_id id) rows ≡ false
        → (update_where (λ r. has_id id r && test r) change rows).1 ≡ 0
    unfolding update_where
    not_there [] e = refl
    not_there (r ∷ rows) e = ground (arith, not_there rows)

    -- It reaches no row, where there is no row of the id, or the one row fails the guard.
    pub update_missing :
        (rows : List A)
        → row_of id rows ≡ none
        → (update_where (λ r. has_id id r && test r) change rows).1 ≡ 0
    update_missing rows e = not_there rows (missing id rows e)

    pub update_guarded :
        (rows : List A) (k : A)
        → UniqueIds rows
        → row_of id rows ≡ some k
        → test k ≡ false
        → (update_where (λ r. has_id id r && test r) change rows).1 ≡ 0
    unfolding update_where
    update_guarded [] k u e off = refl
    update_guarded (r ∷ rows) k u e off = elim (Bool-cases (has_id id r)) [
      | inl t ↦
          let q : r ≡ k = ground arith in
          let i : h.id_of r ≡ id = (eq_iff (h.id_of r) id).0 t in
          let off' : test r ≡ false = rw q off in
          let none_left = not_there rows (rw i at u.0) in ground arith
      | inr t ↦ let ih = update_guarded rows k u.1 (ground arith) off in ground arith
    ]

  -- Among rows of which only that of one id may pass a test, the search finds that row or none.
  find-missing :
      (id : String) (test : A → Bool) (rows : List A)
      → any (has_id id) rows ≡ false
      → All (λ r. has_id id r ≡ false → test r ≡ false) rows
      → find test rows ≡ none
  find-missing id test [] e a = refl
  find-missing id test (r ∷ rows) e a =
      let t = a.0 (ground arith) in ground (arith, find-missing id test rows (ground arith) a.1)

  pub find-only :
      (id : String) (test : A → Bool) (rows : List A) (k : A)
      → UniqueIds rows
      → row_of id rows ≡ some k
      → All (λ r. has_id id r ≡ false → test r ≡ false) rows
      → find test rows ≡ (if test k then some k else none)
  find-only id test [] k u e a = absurd (ground arith)
  find-only id test (r ∷ rows) k u e a = elim (Bool-cases (has_id id r)) [
    | inl t ↦
        let i : h.id_of r ≡ id = (eq_iff (h.id_of r) id).0 t in
        let q : r ≡ k = ground arith in
        let none_left = find-missing id test rows (rw i at u.0) a.1 in rw (← q) (ground arith)
    | inr t ↦
        let off = a.0 t in let ih = find-only id test rows k u.1 (ground arith) a.1 in rw off ih
  ]
