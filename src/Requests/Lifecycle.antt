-- ===== src/Requests/Lifecycle.antt =====
-- What a step does to the table: nothing, an UPDATE that keeps the ids, or one new row; and the ways
-- of a request through its states.
use softmatrix_airlock.Base.{
  ℕ, ◌≡◌, refl, ◌∙◌, ◌⊎◌, inl, inr, String, Bool, true, false, ◌&&◌, not, some, [], ◌∷◌, ◌++◌, any,
  arith, Bool-cases, Result-cases,
}
use softmatrix_airlock.Sql.{update_where}
use softmatrix_airlock.Sql.Ids.{
  HasId, UniqueIds, row_of, row_of-update_where, row_of-append, UniqueIds-append,
  UniqueIds-update_where,
}
use softmatrix_airlock.Requests.Model.{Status, Request, Table, StoreError}
use softmatrix_airlock.Requests.Store.{
  has_request_id, is_some, shape_check, new_row, create, get, guard_outcome, affected_or_not_found,
  decide, mark_executed, mark_failed, record_attempt, mark_reclaimed,
}
use softmatrix_airlock.Requests.Ops.{
  Op, submit, approve, reject, execute, fail, attempt, reclaim, apply, keep_on_error, step,
}

instance abbrev pub request_ids : HasId Request
request_ids = record { id_of = λ r. r.id }

-- One step of a request from one state to another, with what it writes.
pub data Moves (r r' : Request) : Type 0 where
  stays :
      r'.status ≡ r.status
      → r'.decided_by ≡ r.decided_by
      → r'.issued_key_id ≡ r.issued_key_id
      → Moves r r'
  decided :
      r.status ≡ Status.pending
      → (r'.status ≡ Status.approved) ⊎ (r'.status ≡ Status.rejected)
      → is_some r'.decided_by ≡ true
      → r'.issued_key_id ≡ r.issued_key_id
      → Moves r r'
  executes :
      r.status ≡ Status.approved
      → r'.status ≡ Status.executed
      → r'.decided_by ≡ r.decided_by
      → Moves r r'
  fails :
      r'.status ≡ Status.failed
      → r'.decided_by ≡ r.decided_by
      → r'.issued_key_id ≡ r.issued_key_id
      → Moves r r'

-- An UPDATE whose every change is a move.
pub record IsMove (test : Request → Bool) (change : Request → Request) : Type 0 where
  pub same_id : (r : Request) → (change r).id ≡ r.id
  pub moves : (r : Request) → test r ≡ true → Moves r (change r)

pub data Change (rows : Table) : Table → Type 0 where
  unchanged : {rows' : Table} → rows' ≡ rows → Change rows rows'
  updated :
      {rows' : Table} (test : Request → Bool) (change : Request → Request)
      → IsMove test change
      → rows' ≡ (update_where test change rows).0
      → Change rows rows'
  added :
      {rows' : Table} (r : Request)
      → r.status ≡ Status.pending
      → any (has_request_id r.id) rows ≡ false
      → rows' ≡ rows ++ r ∷ []
      → Change rows rows'

guarded-Change :
    (e : StoreError) (id : String) (rows : Table) (test : Request → Bool)
    (change : Request → Request)
    → IsMove test change
    → Change rows (keep_on_error rows (guard_outcome e id (update_where test change rows)))
unfolding guard_outcome get
guarded-Change e id rows test change m =
    elim (Result-cases (guard_outcome e id (update_where test change rows))) [
      | inl (rows', h) ↦ updated test change m (ground arith)
      | inr (x, h) ↦ unchanged (ground arith)
    ]

affected-Change :
    (rows : Table) (test : Request → Bool) (change : Request → Request)
    → IsMove test change
    → Change rows (keep_on_error rows (affected_or_not_found (update_where test change rows)))
unfolding affected_or_not_found
affected-Change rows test change m =
    elim (Result-cases (affected_or_not_found (update_where test change rows))) [
      | inl (rows', h) ↦ updated test change m (ground arith)
      | inr (x, h) ↦ unchanged (ground arith)
    ]

create-Change :
    (r : Request) (now : ℕ) (rows : Table) → Change rows (keep_on_error rows (create r now rows))
unfolding create new_row
create-Change r now rows =
    elim (Bool-cases (not (any (has_request_id r.id) rows) && shape_check (new_row r now))) [
      | inl e ↦ added (new_row r now) refl (ground arith) (ground arith)
      | inr e ↦ unchanged (ground arith)
    ]

-- Every step is of these kinds.
pub step-Change : (rows : Table) (op : Op) → Change rows (step rows op)
unfolding apply decide mark_executed mark_failed record_attempt mark_reclaimed
step-Change rows (submit r now) = create-Change r now rows
step-Change rows (approve id by now) =
    guarded-Change _ id rows _ _
      (record { same_id = λ r. refl; moves = λ r t. decided (ground arith) (inl refl) refl refl })
step-Change rows (reject id by now) =
    guarded-Change _ id rows _ _
      (record { same_id = λ r. refl; moves = λ r t. decided (ground arith) (inr refl) refl refl })
step-Change rows (execute id key prev now) =
    guarded-Change _ id rows _ _
      (record { same_id = λ r. refl; moves = λ r t. executes (ground arith) refl refl })
step-Change rows (fail id reason) =
    affected-Change rows _ _ (record { same_id = λ r. refl; moves = λ r t. fails refl refl refl })
step-Change rows (attempt id e) =
    affected-Change rows _ _ (record { same_id = λ r. refl; moves = λ r t. stays refl refl refl })
step-Change rows (reclaim id now) =
    affected-Change rows _ _ (record { same_id = λ r. refl; moves = λ r t. stays refl refl refl })

pub UniqueIds-Change : (rows rows' : Table) → UniqueIds rows → Change rows rows' → UniqueIds rows'
UniqueIds-Change rows rows' u (unchanged e) = rw e u
UniqueIds-Change rows rows' u (updated test change m e) =
    rw e (UniqueIds-update_where test change m.same_id rows u)
UniqueIds-Change rows rows' u (added r p n e) = rw e (UniqueIds-append rows r u n)

pub row_of-Change :
    (id : String) (rows rows' : Table) (r : Request)
    → row_of id rows ≡ some r
    → Change rows rows'
    → (r' : Request) × (row_of id rows' ≡ some r') × Moves r r'
row_of-Change id rows rows' r h (unchanged e) = (r, rw e h, stays refl refl refl)
row_of-Change id rows rows' r h (updated test change m e) =
    let new = row_of-update_where test change m.same_id id rows in
    elim (Bool-cases (test r)) [
      | inl t ↦ (change r, rw e (new ∙ rw (h, t)), m.moves r t)
      | inr t ↦ (r, rw e (new ∙ rw (h, t)), stays refl refl refl)
    ]
row_of-Change id rows rows' r h (added s p n e) =
    (r, rw e (row_of-append id rows s ∙ rw h), stays refl refl refl)

-- Whatever statement runs next, and whoever issues it: a request stays in the table, and moves from
-- pending to approved or rejected (with who decided), from approved to executed, or to failed; its
-- decider is written only by the decision, and its issued key only by the execution.
pub step-Moves :
    (id : String) (rows : Table) (op : Op) (r : Request)
    → row_of id rows ≡ some r
    → (r' : Request) × (row_of id (step rows op) ≡ some r') × Moves r r'
step-Moves id rows op r h = row_of-Change id rows (step rows op) r h (step-Change rows op)
