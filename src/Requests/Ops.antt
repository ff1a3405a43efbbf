-- ===== src/Requests/Ops.antt =====
-- The writes to the table of requests as steps. Each is one statement of SQL, so that a run of steps
-- stands for any interleaving of the handlers and the workers that issue them.
use softmatrix_airlock.Base.{ℕ, String, Bool, true, false, Option, List, [], ◌∷◌, Result, ok, err}
use softmatrix_airlock.Requests.Model.{Status, Request, Table, StoreError}
use softmatrix_airlock.Requests.Store.{
  create, decide, mark_executed, mark_failed, record_attempt, mark_reclaimed,
}

pub data Op : Type 0 where
  submit : Request → ℕ → Op
  approve reject : String → String → ℕ → Op
  execute : String → Option String → Option ℕ → ℕ → Op
  fail attempt : String → String → Op
  reclaim : String → ℕ → Op

unfoldable pub apply : Op → Table → Result StoreError Table
apply (submit r now) rows = create r now rows
apply (approve id by now) rows = decide id Status.approved by now rows
apply (reject id by now) rows = decide id Status.rejected by now rows
apply (execute id key prev now) rows = mark_executed id key prev now rows
apply (fail id reason) rows = mark_failed id reason rows
apply (attempt id e) rows = record_attempt id e rows
apply (reclaim id now) rows = mark_reclaimed id now rows

-- A step that is refused changes nothing.
abbrev pub keep_on_error : Table → Result StoreError Table → Table
keep_on_error rows (ok rows') = rows'
keep_on_error rows (err e) = rows

abbrev pub step : Table → Op → Table
step rows op = keep_on_error rows (apply op rows)

unfoldable pub run : Table → List Op → Table
run rows [] = rows
run rows (op ∷ ops) = run (step rows op) ops

abbrev pub is_ok {ℓ} : {A : Type ℓ} → Result StoreError A → Bool
is_ok (ok a) = true
is_ok (err e) = false
