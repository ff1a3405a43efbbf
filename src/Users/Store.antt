-- ===== src/Users/Store.antt =====
-- internal/control/userstore.go, on the rows of `users`. `now` is the clock of the call.
use softmatrix_airlock.Base.{
  ℕ, String, Bool, false, Option, none, some, List, [], ◌∷◌, ◌++◌, any, keep, find, length, Result,
  ok, err, if◌then◌else◌, ◌==◌ as eq_ℕ,
}
use softmatrix_airlock.Base.Text.{Text, ◌==◌ as text_eq}
use softmatrix_airlock.Sql.{update_where, order_by}
use softmatrix_airlock.Users.Model.{
  UserStatus, is_enabled, User, Table, StoreError, user_not_found, constraint,
}
use text.Mathlib.Text.{◌==◌}

unfoldable pub by_id : String → Table → Result StoreError User
by_id id rows = elim (find (λ u. u.id == id) rows) [ none ↦ err user_not_found | some u ↦ ok u ]

unfoldable pub by_external_id : String → Table → Result StoreError User
by_external_id ext rows = elim (find (λ u. u.external_id == ext) rows) [
  | none ↦ err user_not_found
  | some u ↦ ok u
]

-- COALESCE(EXCLUDED.last_login_at, users.last_login_at)
abbrev pub coalesce {ℓ} : {A : Type ℓ} → Option A → Option A → Option A
coalesce (some a) b = some a
coalesce none b = b

unfoldable pub refreshed : User → User → User
refreshed u row = record row {
  email = u.email;
  display_name = u.display_name;
  last_login_at = coalesce u.last_login_at row.last_login_at;
}

-- The row that is inserted for a new user: what it names, and the defaults of the other columns. The
-- status is given; an id that is blank is drawn, `fresh`.
unfoldable pub inserted : String → User → ℕ → User
inserted fresh u now = record u {
  id = if u.id == "" then fresh else u.id;
  primary_org_id = none;
  reconciled_at = none;
  created_at = now;
}

-- ON CONFLICT (external_id) DO UPDATE; another row of the same id violates the primary key.
unfoldable pub upsert : String → User → ℕ → Table → Result StoreError (Table × User)
unfolding refreshed inserted
upsert fresh u now rows = elim (find (λ r. r.external_id == u.external_id) rows) [
  | some row ↦
      ok
        ((update_where (λ r. r.external_id == u.external_id) (refreshed u) rows).0, refreshed u row)
  | none ↦
      if any (λ r. r.id == (inserted fresh u now).id) rows
      then err constraint
      else ok (rows ++ inserted fresh u now ∷ [], inserted fresh u now)
]

unfoldable pub list_active : Table → Table
list_active rows = order_by (λ u. u.created_at) (keep (λ u. is_enabled u.status) rows)

-- `id = ANY(ids)`
abbrev pub is_one_of : List String → String → Bool
is_one_of ids id = any (λ i. i == id) ids

unfoldable pub mark_disabled : List String → ℕ → Table → Table
mark_disabled ids now rows =
    (update_where (λ u. is_one_of ids u.id)
      (λ u. record u { status = UserStatus.disabled; reconciled_at = some now }) rows).0

unfoldable pub assign_primary_org : String → Option Text → Table → Result StoreError Table
assign_primary_org id org rows =
    let (rows', n) = update_where (λ u. u.id == id) (λ u. record u { primary_org_id = org }) rows in
    if eq_ℕ n 0 then err user_not_found else ok rows'

abbrev pub lives_at : Text → User → Bool
lives_at org u = elim u.primary_org_id [ none ↦ false | some o ↦ text_eq o org ]

unfoldable pub count_by_primary_org : Text → Table → ℕ
count_by_primary_org org rows = length (keep (lives_at org) rows)

unfoldable pub count_active : Table → ℕ
count_active rows = length (keep (λ u. is_enabled u.status) rows)
