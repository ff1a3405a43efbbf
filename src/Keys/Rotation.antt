-- ===== src/Keys/Rotation.antt =====
-- Rotation: its guard, and the window in which the old credential and the new one both work.
use softmatrix_airlock.Base.{
  ℕ, suc, ◌≡◌, refl, ◌∙◌, ◌⊎◌, inl, inr, String, Bool, true, false, ◌&&◌, ok, err, arith,
  Bool-cases, Option-cases, [], ◌∷◌, any, sym, ap, keep, not, some,
}
use softmatrix_airlock.Base.Text.{Text}
use softmatrix_airlock.Sql.{update_where}
use softmatrix_airlock.Sql.Rows.{update_where-none}
use softmatrix_airlock.Keys.Model.{
  is_active, ApiKey, Table, StoreError, api_key_not_found, key_not_active, constraint,
}
use softmatrix_airlock.Keys.Store.{has_key_id, get, rotated, hash_taken, breaks_index, rotate}
use softmatrix_airlock.Sql.Ids.{
  missing, UniqueIds, row_of, row_of-has_id, row_of-update_where, count-positive, update_missing,
  update_guarded,
}
use softmatrix_airlock.Keys.Rows.{key_ids, row_of-get, get-none}
use text.Mathlib.TextEquality.{eq_iff}

module _ (id new_hash : String) (new_prefix : Text) (until now : ℕ) where
  abbrev guard : ApiKey → Bool
  guard k = has_key_id id k && is_active k.status

  change : ApiKey → ApiKey
  change k = rotated new_hash new_prefix until now k

  same_id : (k : ApiKey) → (change k).id ≡ k.id
  unfolding change rotated
  same_id k = refl

  -- Only the row of the id can break an index.
  breaks_nothing :
      (test : ApiKey → Bool) (rows : Table)
      → any (has_key_id id) rows ≡ false
      → any (λ k. has_key_id id k && is_active k.status && test k) rows ≡ false
  breaks_nothing test [] h = refl
  breaks_nothing test (r ∷ rows) h = ground (arith, breaks_nothing test rows)

  breaks_one :
      (test : ApiKey → Bool) (rows : Table) (k : ApiKey)
      → UniqueIds rows
      → row_of id rows ≡ some k
      → any (λ r. has_key_id id r && is_active r.status && test r) rows
        ≡ is_active k.status && test k
  breaks_one test [] k u e = absurd (ground arith)
  breaks_one test (r ∷ rows) k u e = elim (Bool-cases (has_key_id id r)) [
    | inr f ↦ ground (arith, breaks_one test rows k u.1)
    | inl t ↦
        let same : r ≡ k = ground arith in
        let named : r.id ≡ id = (eq_iff r.id id).0 t in
        let others =
          breaks_nothing test rows (ap (λ x. any (has_key_id x) rows) (sym named) ∙ u.0) in
        rw (t, others, same) (ground arith)
  ]

  others :
      (rows : Table)
      → keep (λ r. not (has_key_id id r)) (update_where guard change rows).0
        ≡ keep (λ r. not (has_key_id id r)) rows
  unfolding update_where change rotated
  others [] = refl
  others (r ∷ rows) = ground (arith, others rows)

  clash :
      (rows : Table)
      → breaks_index id new_hash rows ≡ true
      → rotate id new_hash new_prefix until now rows ≡ err constraint
  unfolding rotate
  clash rows b = rw b refl

  done :
      (rows : Table) (n : ℕ)
      → breaks_index id new_hash rows ≡ false
      → (update_where guard change rows).1 ≡ suc n
      → rotate id new_hash new_prefix until now rows ≡ ok (update_where guard change rows).0
  unfolding rotate change
  done rows n b c = ground arith

  refused :
      (rows : Table) (e : StoreError)
      → breaks_index id new_hash rows ≡ false
      → (update_where guard change rows).1 ≡ 0
      → ((get id rows ≡ err e) ⊎ ((k : ApiKey) × (get id rows ≡ ok k) × (e ≡ key_not_active)))
      → rotate id new_hash new_prefix until now rows ≡ err e
  unfolding rotate change
  refused rows e b n h =
      let same = update_where-none guard change rows n in
      elim h [ inl g ↦ ground arith | inr (k, g, q) ↦ ground arith ]

  -- An active key is rotated, with the new row in its place and every other row as it was, exactly
  -- when no other row has the new hash, and none has the key's hash for its previous one; when one has,
  -- the rotation fails on the unique index. It refuses a key that is not active, or not there, each
  -- with an error of its own.
  pub rotate-guarded :
      (rows : Table)
      → UniqueIds rows
      → ((k : ApiKey) × (get id rows ≡ ok k)
          × (is_active k.status ≡ true)
          × (((hash_taken id new_hash k.key_hash rows ≡ false)
                × ((rows' : Table) × (rotate id new_hash new_prefix until now rows ≡ ok rows')
                    × (get id rows' ≡ ok (rotated new_hash new_prefix until now k))
                    × (keep (λ r. not (has_key_id id r)) rows'
                        ≡ keep (λ r. not (has_key_id id r)) rows)))
              ⊎ ((hash_taken id new_hash k.key_hash rows ≡ true)
                  × (rotate id new_hash new_prefix until now rows ≡ err constraint))))
        ⊎ (((k : ApiKey) × (get id rows ≡ ok k)
              × (is_active k.status ≡ false)
              × (rotate id new_hash new_prefix until now rows ≡ err key_not_active))
            ⊎ ((get id rows ≡ err api_key_not_found)
                × (rotate id new_hash new_prefix until now rows ≡ err api_key_not_found)))
  unfolding change breaks_index
  rotate-guarded rows u = elim (Option-cases (row_of id rows)) [
    | inl gone ↦
        let n = update_missing id (λ r. is_active r.status) change rows gone in
        let lost = get-none id rows gone in
        let clean =
          breaks_nothing (λ r. hash_taken id new_hash r.key_hash rows) rows
            (missing id rows gone) in
        inr (inr (lost, refused rows api_key_not_found clean n (inl lost)))
    | inr (k, here) ↦
        let got = row_of-get id rows k here in
        let breaks = breaks_one (λ r. hash_taken id new_hash r.key_hash rows) rows k u here in
        elim (Bool-cases (is_active k.status)) [
          | inr off ↦
              let n = update_guarded id (λ r. is_active r.status) change rows k u here off in
              let clean = breaks ∙ rw off refl in
              inr (inl (k, got, off, refused rows key_not_active clean n (inr (k, got, refl))))
          | inl on ↦ inl (k, got, on, active rows k here on breaks)
        ]
  ]
    where
      active :
          (rows : Table) (k : ApiKey)
          → row_of id rows ≡ some k
          → is_active k.status ≡ true
          → any
              (λ k. has_key_id id k && is_active k.status && hash_taken id new_hash k.key_hash rows)
              rows
            ≡ is_active k.status && hash_taken id new_hash k.key_hash rows
          → (((hash_taken id new_hash k.key_hash rows ≡ false)
                × ((rows' : Table) × (rotate id new_hash new_prefix until now rows ≡ ok rows')
                    × (get id rows' ≡ ok (rotated new_hash new_prefix until now k))
                    × (keep (λ r. not (has_key_id id r)) rows'
                        ≡ keep (λ r. not (has_key_id id r)) rows)))
              ⊎ ((hash_taken id new_hash k.key_hash rows ≡ true)
                  × (rotate id new_hash new_prefix until now rows ≡ err constraint)))
      active rows k here on breaks =
          let reached : guard k ≡ true = ground (arith, row_of-has_id id rows k here) in
          let (n, c) = count-positive guard change same_id id rows k here reached in
          elim (Bool-cases (hash_taken id new_hash k.key_hash rows)) [
            | inr free ↦ inl (
              free,
              (
                (update_where guard change rows).0,
                done rows n (breaks ∙ rw (on, free) refl) c,
                row_of-get id _ _
                    (row_of-update_where guard change same_id id rows ∙ rw (here, reached)),
                others rows,
              ),
            )
            | inl taken ↦ inr (taken, clash rows (breaks ∙ rw (on, taken) refl))
          ]
