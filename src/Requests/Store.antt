-- ===== src/Requests/Store.antt =====
-- internal/control/requeststore.go, the requests. `now` is the clock of the call. The foreign keys of
-- the table are not modelled, its primary key and its shape check are.
use softmatrix_airlock.Base.{
  ℕ, ◌+◌, String, Bool, true, false, ◌&&◌, ◌||◌, not, Option, none, some, List, [], ◌∷◌, ◌++◌, any,
  keep, find, Result, ok, err, leb, if◌then◌else◌, ◌==◌ as eq_ℕ,
}
use mathlib.Core.List.{reverse}
use softmatrix_airlock.Base.Text.{Text, ◌==◌ as text_eq}
use softmatrix_airlock.Sql.{update_where, order_by, below_clause}
use softmatrix_airlock.Keys.Model.{OrgPath}
use softmatrix_airlock.Requests.Model.{
  Kind, Status, is_pending, is_approved, is_executed, is_bump, Request, Table, StoreError,
  request_not_found, request_not_pending, request_not_approved, constraint,
}
use text.Mathlib.Text.{◌==◌}

abbrev pub is_some {ℓ} : {A : Type ℓ} → Option A → Bool
is_some none = false
is_some (some a) = true

-- requests_kind_shape_check
unfoldable pub shape_check : Request → Bool
shape_check r = elim r.kind [
  | Kind.new_key ↦
      is_some r.key_name
      && (is_some r.models
          && not
              (is_some r.target_key_id || (is_some r.bump_to_budget || is_some r.bump_expires_at)))
  | Kind.quota_bump ↦
      is_some r.target_key_id
      && (is_some r.bump_to_budget
          && (is_some r.bump_expires_at && not (is_some r.key_name || is_some r.models)))
]

abbrev or_empty : Option (List String) → List String
or_empty none = []
or_empty (some ms) = ms

-- The row that the INSERT writes: the models only for a new key, and the defaults of the columns
-- that it does not name.
unfoldable pub new_row : Request → ℕ → Request
new_row r now = record r {
  status = Status.pending;
  models = if is_bump r.kind then none else some (or_empty r.models);
  prev_budget = none;
  reclaimed_at = none;
  decided_by = none;
  decided_at = none;
  executed_at = none;
  issued_key_id = none;
  last_error = none;
  attempts = 0;
  created_at = now;
}

unfoldable pub create : Request → ℕ → Table → Result StoreError Table
unfolding new_row
create r now rows =
    if not (any (λ s. s.id == r.id) rows) && shape_check (new_row r now)
    then ok (rows ++ new_row r now ∷ [])
    else err constraint

abbrev pub has_request_id : String → Request → Bool
has_request_id id r = r.id == id

unfoldable pub get : String → Table → Result StoreError Request
get id rows = elim (find (has_request_id id) rows) [ none ↦ err request_not_found | some r ↦ ok r ]

-- `guardOutcome` and `affectedOrNotFound`, on the rows after the update and the count.
unfoldable pub guard_outcome : StoreError → String → Table × ℕ → Result StoreError Table
guard_outcome on_wrong_state id (rows, n) =
    if eq_ℕ n 0 then elim (get id rows) [ err e ↦ err e | ok r ↦ err on_wrong_state ] else ok rows

unfoldable pub affected_or_not_found : Table × ℕ → Result StoreError Table
affected_or_not_found (rows, n) = if eq_ℕ n 0 then err request_not_found else ok rows

unfoldable pub decide : String → Status → String → ℕ → Table → Result StoreError Table
decide id status decided_by now rows = guard_outcome request_not_pending id (
    update_where (λ r. has_request_id id r && is_pending r.status)
      (λ r. record r { status = status; decided_by = some decided_by; decided_at = some now }) rows)

unfoldable pub mark_executed :
    String → Option String → Option ℕ → ℕ → Table → Result StoreError Table
mark_executed id issued_key_id prev_budget now rows = guard_outcome request_not_approved id (
    update_where (λ r. has_request_id id r && is_approved r.status)
      (λ r. record r {
        status = Status.executed;
        executed_at = some now;
        issued_key_id = issued_key_id;
        prev_budget = prev_budget;
      })
      rows)

unfoldable pub mark_failed : String → String → Table → Result StoreError Table
mark_failed id reason rows = affected_or_not_found (
    update_where (has_request_id id)
      (λ r. record r { status = Status.failed; last_error = some reason }) rows)

unfoldable pub record_attempt : String → String → Table → Result StoreError Table
record_attempt id last_err rows = affected_or_not_found (
    update_where (has_request_id id)
      (λ r. record r { attempts = r.attempts + 1; last_error = some last_err }) rows)

unfoldable pub mark_reclaimed : String → ℕ → Table → Result StoreError Table
mark_reclaimed id now rows = affected_or_not_found (
    update_where (λ r. has_request_id id r && not (is_some r.reclaimed_at))
      (λ r. record r { reclaimed_at = some now }) rows)

-- ORDER BY created_at
abbrev oldest_first : Table → Table
oldest_first rows = order_by (λ r. r.created_at) rows

unfoldable pub list_by_requester : String → Table → Table
list_by_requester user rows = reverse (oldest_first (keep (λ r. r.requester_id == user) rows))

unfoldable pub list_approved_bumps : Table → Table
list_approved_bumps rows = oldest_first (keep (λ r. is_bump r.kind && is_approved r.status) rows)

abbrev pub expired_by : ℕ → Option ℕ → Bool
expired_by now none = false
expired_by now (some t) = leb t now

abbrev pub time_of : Option ℕ → ℕ
time_of none = 0
time_of (some t) = t

unfoldable pub list_expired_bumps : ℕ → Table → Table
list_expired_bumps now rows =
    order_by (λ r. time_of r.bump_expires_at)
      (keep
        (λ r.
          is_bump r.kind
          && (is_executed r.status
              && (not (is_some r.reclaimed_at) && expired_by now r.bump_expires_at)))
        rows)

unfoldable pub list_all_pending : Table → Table
list_all_pending rows = oldest_first (keep (λ r. is_pending r.status) rows)

-- The organisations at or below one of the paths.
unfoldable pub in_paths : List OrgPath → List Text → Request → Bool
in_paths orgs paths r =
    any (λ o. any (λ p. below_clause p o.path) paths && text_eq o.id r.org_id) orgs

unfoldable pub list_pending_for_org_paths : List OrgPath → List Text → Table → Table
unfolding in_paths
list_pending_for_org_paths orgs [] rows = []
list_pending_for_org_paths orgs (p ∷ ps) rows =
    oldest_first (keep (λ r. is_pending r.status && in_paths orgs (p ∷ ps) r) rows)
