-- ===== src/Keys/Window.antt =====
-- The coexistence window of a rotation, as the data plane sees it.
use softmatrix_airlock.Base.{
  ℕ, ◌≡◌, ◌≢◌, refl, ◌∙◌, String, Bool, true, false, ◌&&◌, none, some, All, find, ok, arith, ltb,
  if◌then◌else◌,
}
use softmatrix_airlock.Base.Text.{Text}
use softmatrix_airlock.Sql.{update_where}
use softmatrix_airlock.Sql.Rows.{update_where-All}
use softmatrix_airlock.Keys.Model.{is_active, ApiKey, Table}
use softmatrix_airlock.Keys.Store.{has_key_id, get, rotated, rotate}
use softmatrix_airlock.Keys.Edge.{answers_to}
use softmatrix_airlock.Sql.Ids.{
  UniqueIds, row_of-has_id, row_of-update_where, UniqueIds-update_where, find-only,
}
use softmatrix_airlock.Keys.Rows.{key_ids, get-row_of}
use text.Mathlib.TextEquality.{eq_iff}

-- Of all keys only that of the id may answer to the credential.
abbrev pub OnlyOf : String → String → ℕ → Table → Type 0
OnlyOf id h at rows = All (λ r. has_key_id id r ≡ false → answers_to h at r ≡ false) rows

module _ (id new_hash : String) (new_prefix : Text) (until now : ℕ) (rows rows' : Table)
    (k : ApiKey) (unique : UniqueIds rows) (here : get id rows ≡ ok k)
    (on : is_active k.status ≡ true)
    (rotation : rotate id new_hash new_prefix until now rows ≡ ok rows') where
  abbrev guard : ApiKey → Bool
  guard r = has_key_id id r && is_active r.status

  abbrev change : ApiKey → ApiKey
  change r = rotated new_hash new_prefix until now r

  same_id : (r : ApiKey) → (change r).id ≡ r.id
  unfolding rotated
  same_id r = refl

  after : rows' ≡ (update_where guard change rows).0
  unfolding rotate get
  after = ground arith

  -- The search by a credential in the table after the rotation.
  found :
      (h : String) (at : ℕ)
      → OnlyOf id h at rows
      → find (answers_to h at) rows'
        ≡ (if answers_to h at (change k) then some (change k) else none)
  found h at only =
      let reached : guard k ≡ true =
        ground (arith, row_of-has_id id rows k (get-row_of id rows k here)) in
      rw after (
        find-only id (answers_to h at) (update_where guard change rows).0 (change k)
          (UniqueIds-update_where guard change same_id rows unique)
          (row_of-update_where guard change same_id id rows
            ∙ rw (get-row_of id rows k here, reached))
          (update_where-All guard change (λ r. has_key_id id r ≡ false → answers_to h at r ≡ false)
            (λ r t keep_r off. absurd (unfold rotated in ground arith)) rows only))

  -- After the rotation of an active key, at any instant: the new credential finds the rotated row;
  -- the credential before it finds that row exactly while the instant is before the end of the
  -- window; and an older one, from the rotation before, finds nothing. (Of the other keys none
  -- answers to these credentials.)
  pub rotation_window :
      (at : ℕ)
      → k.key_hash ≢ new_hash
      → OnlyOf id new_hash at rows
      → OnlyOf id k.key_hash at rows
      → (find (answers_to new_hash at) rows' ≡ some (change k))
        × (find (answers_to k.key_hash at) rows' ≡ (if ltb at until then some (change k) else none))
        × ((older : String)
            → older ≢ new_hash
            → older ≢ k.key_hash
            → OnlyOf id older at rows
            → find (answers_to older at) rows' ≡ none)
  unfolding answers_to rotated
  rotation_window at fresh only_new only_old = (
    found new_hash at only_new ∙ ground (arith, eq_iff new_hash new_hash),
    found k.key_hash at only_old
        ∙ ground (arith, eq_iff new_hash k.key_hash, eq_iff k.key_hash k.key_hash),
    λ older ne_new ne_old only.
        found older at only ∙ ground (arith, eq_iff new_hash older, eq_iff k.key_hash older),
  )
