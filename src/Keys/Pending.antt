-- ===== src/Keys/Pending.antt =====
-- `CreatePending` and then `MarkActive` of internal/control/keystore.go, with nothing between them.
use text.Mathlib.Text.{◌==◌}
use text.Mathlib.TextEquality.{eq_iff}
use softmatrix_airlock.Base.{
  ℕ, ◌≡◌, refl, sym, ◌∙◌, inl, inr, String, Bool, true, false, ◌||◌, any, [], ◌∷◌, ◌++◌, ok, arith,
  Bool-cases,
}
use softmatrix_airlock.Sql.{update_where}
use softmatrix_airlock.Keys.Model.{Status, ApiKey, Table}
use softmatrix_airlock.Keys.Store.{has_key_id, pending_row, set_status, create_pending, mark_active}

-- The row of the INSERT is put behind the others and is alone reached by the UPDATE behind it.
update_last :
    (id : String) (f : ApiKey → ApiKey) (rows : Table) (r : ApiKey)
    → any (has_key_id id) rows ≡ false
    → has_key_id id r ≡ true
    → (update_where (has_key_id id) f (rows ++ r ∷ [])).0 ≡ rows ++ f r ∷ []
unfolding update_where
update_last id f [] r n h = ground arith
update_last id f (s ∷ rows) r n h = ground (arith, update_last id f rows r)

any-first :
    (p q : ApiKey → Bool) (rows : Table) → any (λ r. p r || q r) rows ≡ false → any p rows ≡ false
any-first p q [] h = refl
any-first p q (r ∷ rows) h = ground (arith, any-first p q rows)

-- A row that was inserted and then made active stands behind the rows that were there.
pub pending-active :
    (k : ApiKey) (now : ℕ) (rows0 rows rows' : Table)
    → create_pending k now rows0 ≡ ok rows
    → mark_active k.id rows ≡ ok rows'
    → (any (has_key_id k.id) rows0 ≡ false)
      × (rows' ≡ rows0 ++ record (pending_row k now) { status = Status.active } ∷ [])
unfolding create_pending mark_active set_status pending_row
pending-active k now rows0 rows rows' c m =
    elim (Bool-cases (any (λ r. r.id == k.id || r.key_hash == k.key_hash) rows0)) [
      | inl t ↦ absurd (ground arith)
      | inr f ↦
          let free : any (has_key_id k.id) rows0 ≡ false =
            any-first (has_key_id k.id) (λ r. r.key_hash == k.key_hash) rows0 f in
          let last =
            update_last k.id (λ r. record r { status = Status.active }) rows0 (pending_row k now)
              free (unfold pending_row in (eq_iff k.id k.id).1 refl) in
          let same : rows0 ++ pending_row k now ∷ [] ≡ rows = ground arith in
          let out : (update_where (has_key_id k.id) (λ r. record r { status = Status.active })
                rows).0
              ≡ rows' =
            ground arith in
          (free, sym out ∙ rw (← same) last)
    ]
