-- ===== src/Keys/Store.antt =====
-- internal/control/keystore.go: each method on the rows of `api_keys`. `now` is the clock of the
-- call. A failing connection is an outcome of the callers (`Issuer`), not of these functions.
use softmatrix_airlock.Base.{
  ℕ, zero, suc, ◌+◌, String, Bool, true, false, ◌&&◌, ◌||◌, not, Option, none, some, List, [], ◌∷◌,
  ◌++◌, any, keep, find, Result, ok, err, ltb, leb, if◌then◌else◌, ◌==◌ as eq_ℕ,
}
use mathlib.Core.List.{reverse}
use softmatrix_airlock.Base.Text.{Text, ◌==◌ as text_eq}
use softmatrix_airlock.Sql.{update_where, order_by, below_clause}
use softmatrix_airlock.Keys.Model.{
  Status, is_active, is_pending, is_revoked, is_live, ApiKey, Table, OrgPath, StoreError,
  api_key_not_found, key_not_active, constraint,
}
use text.Mathlib.Text.{◌==◌}

abbrev pub has_key_id : String → ApiKey → Bool
has_key_id id k = k.id == id

-- The row that the INSERT writes: 'pending', and the defaults of the columns that it does not name.
unfoldable pub pending_row : ApiKey → ℕ → ApiKey
pending_row k now = record k {
  status = Status.pending;
  prev_key_hash = none;
  prev_key_expires_at = none;
  rotated_at = none;
  upstream_blocked_at = none;
  upstream_block_attempts = 0;
  created_at = now;
}

-- The primary key and the unique index on `key_hash` refuse a second row.
unfoldable pub create_pending : ApiKey → ℕ → Table → Result StoreError Table
unfolding pending_row
create_pending k now rows =
    if any (λ r. r.id == k.id || r.key_hash == k.key_hash) rows
    then err constraint
    else ok (rows ++ pending_row k now ∷ [])

unfoldable pub set_status : String → Status → Table → Result StoreError Table
set_status id status rows =
    let (rows', n) = update_where (has_key_id id) (λ k. record k { status = status }) rows in
    if eq_ℕ n 0 then err api_key_not_found else ok rows'

unfoldable pub mark_active : String → Table → Result StoreError Table
mark_active id rows = set_status id Status.active rows

unfoldable pub revoke : String → Table → Result StoreError Table
revoke id rows = set_status id Status.revoked rows

unfoldable pub get : String → Table → Result StoreError ApiKey
get id rows = elim (find (has_key_id id) rows) [ none ↦ err api_key_not_found | some k ↦ ok k ]

-- ORDER BY created_at DESC
abbrev newest_first : Table → Table
newest_first rows = reverse (order_by (λ k. k.created_at) rows)

unfoldable pub list_by_org : Text → Table → Table
list_by_org org rows = newest_first (keep (λ k. text_eq k.org_id org) rows)

-- `created_at < now - older_than`; before the clock has run that long nothing is that old.
unfoldable pub list_stale_pending : ℕ → ℕ → Table → Table
list_stale_pending older_than now rows =
    order_by (λ k. k.created_at)
      (keep (λ k. is_pending k.status && ltb (k.created_at + older_than) now) rows)

unfoldable pub delete : String → Table → Result StoreError Table
delete id rows =
    if any (has_key_id id) rows
    then ok (keep (λ k. not (has_key_id id k)) rows)
    else err api_key_not_found

-- `prev_key_hash = key_hash` reads the row before the update.
unfoldable pub rotated : String → Text → ℕ → ℕ → ApiKey → ApiKey
rotated new_hash new_prefix prev_expires_at now k = record k {
  key_hash = new_hash;
  key_prefix = new_prefix;
  prev_key_hash = some k.key_hash;
  prev_key_expires_at = some prev_expires_at;
  rotated_at = some now;
}

abbrev same_prev : String → Option String → Bool
same_prev h none = false
same_prev h (some p) = p == h

-- The unique indexes on `key_hash` and `prev_key_hash`, in which a NULL is equal to nothing: another row
-- has the new hash, or the old one for its previous hash.
unfoldable pub hash_taken : String → String → String → Table → Bool
hash_taken id new_hash old_hash rows =
    any
      (λ r. not (has_key_id id r) && (r.key_hash == new_hash || same_prev old_hash r.prev_key_hash))
      rows

-- A row that the UPDATE reaches would break a unique index.
unfoldable pub breaks_index : String → String → Table → Bool
unfolding hash_taken
breaks_index id new_hash rows =
    any (λ k. has_key_id id k && is_active k.status && hash_taken id new_hash k.key_hash rows) rows

unfoldable pub rotate : String → String → Text → ℕ → ℕ → Table → Result StoreError Table
unfolding rotated breaks_index
rotate id new_hash new_prefix prev_expires_at now rows =
    let (rows', n) =
      update_where (λ k. has_key_id id k && is_active k.status)
        (rotated new_hash new_prefix prev_expires_at now) rows in
    if breaks_index id new_hash rows
    then err constraint
    else if eq_ℕ n 0
    then elim (get id rows') [ err e ↦ err e | ok k ↦ err key_not_active ]
    else ok rows'

abbrev expired_by : ℕ → Option ℕ → Bool
expired_by now none = false
expired_by now (some t) = leb t now

abbrev is_some {ℓ} : {A : Type ℓ} → Option A → Bool
is_some none = false
is_some (some a) = true

unfoldable pub retire_expired_prev_keys : ℕ → Table → Table × ℕ
retire_expired_prev_keys now rows =
    update_where (λ k. is_some k.prev_key_hash && expired_by now k.prev_key_expires_at)
      (λ k. record k { prev_key_hash = none; prev_key_expires_at = none }) rows

-- `org_id IN (SELECT id FROM organizations WHERE path = $1 OR path LIKE $1 || '/%')`
unfoldable pub in_orgs_below : List OrgPath → Text → ApiKey → Bool
in_orgs_below orgs path k = any (λ o. below_clause path o.path && text_eq o.id k.org_id) orgs

unfoldable pub revoke_by_org_subtree : List OrgPath → Text → Table → Table × ℕ
unfolding in_orgs_below
revoke_by_org_subtree orgs path rows =
    update_where (λ k. is_live k.status && in_orgs_below orgs path k)
      (λ k. record k { status = Status.revoked }) rows

unfoldable pub list_by_org_subtree : List OrgPath → Text → Table → Table
list_by_org_subtree orgs path rows = newest_first (keep (in_orgs_below orgs path) rows)

unfoldable pub list_by_user : String → Table → Table
list_by_user user rows = newest_first (keep (λ k. k.user_id == user) rows)

unfoldable pub revoke_all : Table → Table × ℕ
revoke_all rows =
    update_where (λ k. is_live k.status) (λ k. record k { status = Status.revoked }) rows

abbrev take_rows : ℕ → Table → Table
take_rows zero rows = []
take_rows (suc n) [] = []
take_rows (suc n) (k ∷ rows) = k ∷ take_rows n rows

unfoldable pub list_revoked_unblocked : ℕ → ℕ → Table → Table
list_revoked_unblocked max_attempts limit rows = take_rows limit (
    order_by (λ k. k.created_at)
      (keep
        (λ k.
          is_revoked k.status
          && (not (is_some k.upstream_blocked_at) && ltb k.upstream_block_attempts max_attempts))
        rows))

-- The two marks below are plain updates: a row that is not there is no error.
unfoldable pub mark_upstream_blocked : String → ℕ → Table → Table
mark_upstream_blocked id now rows =
    (update_where (has_key_id id) (λ k. record k { upstream_blocked_at = some now }) rows).0

unfoldable pub record_block_attempt : String → Table → Table
record_block_attempt id rows =
    (update_where (has_key_id id)
      (λ k. record k { upstream_block_attempts = k.upstream_block_attempts + 1 }) rows).0
