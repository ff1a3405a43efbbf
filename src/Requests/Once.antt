-- ===== src/Requests/Once.antt =====
-- A request is executed at most once, and decided at most once, in any interleaving.
use softmatrix_airlock.Base.{
  ℕ, suc, ◌≤◌, ◌≡◌, refl, ap, inl, inr, String, Bool, true, false, ◌&&◌, Option, none, some, List,
  [], ◌∷◌, ok, arith, Bool-cases, Option-cases, Result-cases, if◌then◌else◌,
}
use softmatrix_airlock.Sql.{update_where}
use softmatrix_airlock.Sql.Ids.{
  UniqueIds, row_of, row_of-has_id, row_of-update_where, update_missing, update_guarded,
}
use softmatrix_airlock.Requests.Model.{Status, is_approved, Request, Table}
use softmatrix_airlock.Requests.Store.{has_request_id, get, guard_outcome, mark_executed}
use softmatrix_airlock.Requests.Ops.{
  Op, submit, approve, reject, execute, fail, attempt, reclaim, apply, step, is_ok,
}
use softmatrix_airlock.Requests.Lifecycle.{
  request_ids, Moves, stays, decided, executes, fails, Change, step-Change, UniqueIds-Change,
  row_of-Change,
}
use text.Mathlib.Text.{◌==◌}
use text.Mathlib.TextEquality.{eq_iff}

-- The request is not executed yet, and may still be.
abbrev pub can_run : Status → Bool
can_run Status.pending = true
can_run Status.approved = true
can_run Status.rejected = false
can_run Status.executed = false
can_run Status.failed = false

abbrev pub budget_of : Option Request → ℕ
budget_of none = 1
budget_of (some r) = if can_run r.status then 1 else 0

-- How many executions of the id may still succeed.
abbrev pub budget : String → Table → ℕ
budget id rows = budget_of (row_of id rows)

-- This step executes the request of the id.
unfoldable pub executes_now : String → Table → Op → Bool
executes_now id rows (execute j key prev now) = j == id && is_ok (mark_executed j key prev now rows)
executes_now id rows (submit r now) = false
executes_now id rows (approve j by now) = false
executes_now id rows (reject j by now) = false
executes_now id rows (fail j reason) = false
executes_now id rows (attempt j e) = false
executes_now id rows (reclaim j now) = false

-- How many steps of a run execute the request of the id.
unfoldable pub executions : String → Table → List Op → ℕ
executions id rows [] = 0
executions id rows (op ∷ ops) =
    let rest = executions id (step rows op) ops in
    if executes_now id rows op then suc rest else rest

Moves-can_run : {r r' : Request} → Moves r r' → can_run r'.status ≡ true → can_run r.status ≡ true
Moves-can_run (stays e d k) h = rw (← e) h
Moves-can_run (decided p a d k) h = rw p refl
Moves-can_run (executes p e d) h = rw p refl
Moves-can_run (fails e d k) h = absurd (let z = ap can_run e in ground arith)

-- No step adds to the budget.
budget-Change :
    (id : String) (rows rows' : Table) → Change rows rows' → budget id rows' ≤ budget id rows
budget-Change id rows rows' c = elim (Option-cases (row_of id rows)) [
  | inl e ↦ rw e (at_most_one (row_of id rows'))
  | inr (r, e) ↦
      let (r', e', m) = row_of-Change id rows rows' r e c in rw (e, e') (compare_budgets r r' m)
]
  where
    at_most_one : (o : Option Request) → budget_of o ≤ 1
    at_most_one none = omega arith
    at_most_one (some r) = ground arith

    compare_budgets : (r r' : Request) → Moves r r' → budget_of (some r') ≤ budget_of (some r)
    compare_budgets r r' m = elim (Bool-cases (can_run r'.status)) [
      | inl t ↦ let z = Moves-can_run m t in ground arith
      | inr t ↦ ground arith
    ]

-- An execution that succeeds uses the budget up.
executed_row :
    (id : String) (key : Option String) (prev : Option ℕ) (now : ℕ) (rows rows' : Table)
    → UniqueIds rows
    → mark_executed id key prev now rows ≡ ok rows'
    → (r : Request) × (row_of id rows ≡ some r)
      × (is_approved r.status ≡ true)
      × (budget id rows' ≡ 0)
unfolding mark_executed guard_outcome
executed_row id key prev now rows rows' u h =
    let change = λ (r : Request). record r {
      status = Status.executed;
      executed_at = some now;
      issued_key_id = key;
      prev_budget = prev;
    } in
    elim (Option-cases (row_of id rows)) [
      | inl e ↦
          let z = update_missing id (λ r. is_approved r.status) change rows e in
          absurd (unfold get in ground arith)
      | inr (r, e) ↦ elim (Bool-cases (is_approved r.status)) [
        | inr off ↦
            let z = update_guarded id (λ r. is_approved r.status) change rows r u e off in
            absurd (unfold get in ground arith)
        | inl on ↦
            let t = row_of-has_id id rows r e in
            let new =
              row_of-update_where (λ s. has_request_id id s && is_approved s.status) change
                (λ s. refl) id rows in
            let same : (update_where (λ s. has_request_id id s && is_approved s.status) change
                  rows).0
                ≡ rows' =
              ground arith in
            (r, e, on, rw (← same, new, e, t, on) refl)
      ]
    ]

-- A step that executes the request has found it approved, and leaves no budget.
spent :
    (id : String) (rows : Table) (op : Op)
    → UniqueIds rows
    → executes_now id rows op ≡ true
    → (budget id rows ≡ 1) × (budget id (step rows op) ≡ 0)
unfolding executes_now apply
spent id rows (submit r now) u h = absurd (ground arith)
spent id rows (approve j by now) u h = absurd (ground arith)
spent id rows (reject j by now) u h = absurd (ground arith)
spent id rows (fail j reason) u h = absurd (ground arith)
spent id rows (attempt j e) u h = absurd (ground arith)
spent id rows (reclaim j now) u h = absurd (ground arith)
spent id rows (execute j key prev now) u h =
    elim (Result-cases (mark_executed j key prev now rows)) [
      | inr (e, q) ↦ absurd (ground arith)
      | inl (rows', q) ↦
          let i : j ≡ id = (eq_iff j id).0 (ground arith) in
          let (r, found, approved, left) = executed_row id key prev now rows rows' u (rw (← i) q) in
          let runs : can_run r.status ≡ true = approved_can_run r.status approved in
          (rw (found, runs) refl, rw q left)
    ]
  where
    approved_can_run : (s : Status) → is_approved s ≡ true → can_run s ≡ true
    approved_can_run Status.approved h = refl
    approved_can_run Status.pending h = refl
    approved_can_run Status.rejected h = absurd (ground arith)
    approved_can_run Status.executed h = absurd (ground arith)
    approved_can_run Status.failed h = absurd (ground arith)

-- In whatever order the handlers and the workers issue their statements, at most one MarkExecuted of
-- a request succeeds in a table whose ids are unique, and none when the request is already rejected,
-- executed or failed (its budget is then 0, and 1 otherwise).
pub executed_once :
    (id : String) (ops : List Op) (rows : Table)
    → UniqueIds rows
    → executions id rows ops ≤ budget id rows
unfolding executions
executed_once id [] rows u = omega arith
executed_once id (op ∷ ops) rows u =
    let c = step-Change rows op in
    let ih = executed_once id ops (step rows op) (UniqueIds-Change rows (step rows op) u c) in
    elim (Bool-cases (executes_now id rows op)) [
      | inl t ↦ let z = spent id rows op u t in ground arith
      | inr t ↦ let z = budget-Change id rows (step rows op) c in ground arith
    ]
