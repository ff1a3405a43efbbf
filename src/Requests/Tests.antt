-- ===== src/Requests/Tests.antt =====
-- Runs on a table with one approved request and one pending, and the witnesses of the theorems.
use softmatrix_airlock.Base.{◌≤◌, ◌≡◌, refl, String, none, some, List, [], ◌∷◌}
use softmatrix_airlock.Base.Text.{bytes}
use softmatrix_airlock.Sql.Ids.{UniqueIds, row_of}
use softmatrix_airlock.Requests.Model.{Kind, Status, Request, Table}
use softmatrix_airlock.Requests.Ops.{Op, approve, execute, apply, step}
use softmatrix_airlock.Requests.Store.{get, mark_executed, decide, guard_outcome}
use softmatrix_airlock.Requests.Lifecycle.{request_ids, Moves, step-Moves}
use softmatrix_airlock.Requests.Once.{budget, executes_now, executions, executed_once}
use softmatrix_airlock.Sql.{update_where}

abbrev pub bump : String → Status → Request
bump i s = record {
  id = i;
  kind = Kind.quota_bump;
  status = s;
  requester_id = "dev";
  org_id = bytes "rd";
  reason = "load test";
  key_name = none;
  models = none;
  target_key_id = some "k1";
  bump_to_budget = some 50;
  bump_expires_at = some 900;
  prev_budget = none;
  reclaimed_at = none;
  decided_by = none;
  decided_at = none;
  executed_at = none;
  issued_key_id = none;
  last_error = none;
  attempts = 0;
  created_at = 1;
}

abbrev pub rows : Table
rows = bump "r1" Status.approved ∷ bump "r2" Status.pending ∷ []

abbrev twice : List Op
twice =
    execute "r1" none (some 10) 5
    ∷ approve "r2" "admin" 6
    ∷ execute "r1" none (some 50) 7
    ∷ execute "r2" none (some 10) 8
    ∷ []

r1_once : executions "r1" rows twice ≡ 1
unfolding executions executes_now apply mark_executed decide guard_outcome update_where get
r1_once = refl

r2_once : executions "r2" rows twice ≡ 1
unfolding executions executes_now apply mark_executed decide guard_outcome update_where get
r2_once = refl

unique : UniqueIds rows
unique = (refl, (refl, tt))

step-Moves_example :
    (r' : Request) × (row_of "r2" (step rows (approve "r2" "admin" 6)) ≡ some r')
    × Moves (bump "r2" Status.pending) r'
step-Moves_example = step-Moves "r2" rows (approve "r2" "admin" 6) (bump "r2" Status.pending) refl

executed_once_example : executions "r1" rows twice ≤ budget "r1" rows
executed_once_example = executed_once "r1" twice rows unique
