-- ===== src/Sql/Rows.antt =====
-- UPDATE keeps the number of rows, changes those that the test takes and leaves the others.
use softmatrix_airlock.Base.{
  ◌≡◌, refl, inl, inr, Bool, true, List, [], ◌∷◌, map, All, keep, length, arith, Bool-cases,
  if◌then◌else◌,
}
use softmatrix_airlock.Sql.{update_where}

module _ {A : Type 0} (test : A → Bool) (change : A → A) where
  -- The rows after an UPDATE, one by one.
  pub update_where-map :
      (rs : List A) → (update_where test change rs).0 ≡ map (λ r. if test r then change r else r) rs
  unfolding update_where
  update_where-map [] = refl
  update_where-map (r ∷ rs) = ground (arith, update_where-map rs)

  -- The count that the driver reports.
  pub update_where-count : (rs : List A) → (update_where test change rs).1 ≡ length (keep test rs)
  unfolding update_where
  update_where-count [] = refl
  update_where-count (r ∷ rs) = ground (arith, update_where-count rs)

  -- No row was affected: nothing changed.
  pub update_where-none :
      (rs : List A) → (update_where test change rs).1 ≡ 0 → (update_where test change rs).0 ≡ rs
  unfolding update_where
  update_where-none [] h = refl
  update_where-none (r ∷ rs) h = ground (arith, update_where-none rs)

  -- A property of every row is kept, if the change keeps it on the rows that it reaches.
  pub update_where-All :
      (P : A → Type 0)
      → ((r : A) → test r ≡ true → P r → P (change r))
      → (rs : List A) → All P rs
      → All P (update_where test change rs).0
  unfolding update_where
  update_where-All P f [] h = tt
  update_where-All P f (r ∷ rs) h = elim (Bool-cases (test r)) [
    | inl e ↦ rw e (f r e h.0, update_where-All P f rs h.1)
    | inr e ↦ rw e (h.0, update_where-All P f rs h.1)
  ]
