-- ===== src/Orgs/Store.antt =====
-- internal/control/orgstore.go, on the rows of `organizations`. ORDER BY a text is a parameter, the
-- collation of the database. The column `updated_at` is not modelled, which no code reads.
use softmatrix_airlock.Base.{
  ℕ, zero, suc, String, Bool, true, false, ◌&&◌, ◌||◌, not, Option, none, some, List, [], ◌∷◌, ◌++◌,
  any, keep, find, length, Result, ok, err, ◌>>=◌, ltb, if◌then◌else◌, ◌==◌ as eq_ℕ,
}
use softmatrix_airlock.Base.Text.{Text, ◌==◌ as text_eq}
use softmatrix_airlock.Paths.{slash, in_subtree}
use softmatrix_airlock.Sql.{update_where, like, below_clause}
use softmatrix_airlock.Keys.Model.{is_live, ApiKey}
use softmatrix_airlock.Keys.Model as Keys
use softmatrix_airlock.Users.Model as Users
use softmatrix_airlock.Requests.Model as Requests
use softmatrix_airlock.Users.Store.{count_by_primary_org}
use softmatrix_airlock.Orgs.Model.{
  Org, Table, OrgError, org_not_found, org_cycle, org_has_children, org_has_keys, org_has_users,
  constraint,
}
use text.Mathlib.Text.{◌==◌}

abbrev pub has_org_id : Text → Org → Bool
has_org_id id o = text_eq o.id id

-- WHERE id = $1
abbrev pub find_org : Text → Table → Option Org
find_org id rows = find (has_org_id id) rows

unfoldable pub get : Text → Table → Result OrgError Org
get id rows = elim (find_org id rows) [ none ↦ err org_not_found | some o ↦ ok o ]

abbrev same_text : Option String → Option String → Bool
same_text none b = false
same_text (some a) none = false
same_text (some a) (some b) = a == b

-- The unique index on the external id, for rows with a source; a NULL is equal to nothing.
unfoldable pub same_external : Org → Org → Bool
same_external a b =
    same_text a.external_source b.external_source && same_text a.external_id b.external_id

-- The path of a node below a parent, as `Create` and `Move` compute it.
unfoldable pub path_below : Option Text → Text → Table → Result OrgError Text
path_below none id rows = ok (slash ∷ id)
path_below (some p) id rows = do parent ← get p rows; ok (parent.path ++ slash ∷ id)

-- The columns that the INSERT does not name have their defaults.
unfoldable pub create : Org → Table → Result OrgError Table
create o rows = do
  path ← path_below o.parent_id o.id rows
  if any (λ r. text_eq r.id o.id || same_external r o) rows
      then err constraint
      else ok (rows ++ record o { path = path; is_key_holder = false } ∷ [])

-- An UPDATE by id that must find its row.
unfoldable pub update_org : Text → (Org → Org) → Table → Result OrgError Table
update_org id change rows =
    let (rows', n) = update_where (has_org_id id) change rows in
    if eq_ℕ n 0 then err org_not_found else ok rows'

unfoldable pub rename : Text → String → Table → Result OrgError Table
unfolding update_org
rename id name rows = update_org id (λ o. record o { name = name }) rows

unfoldable pub set_key_holder : Text → Bool → Table → Result OrgError Table
unfolding update_org
set_key_holder id v rows = update_org id (λ o. record o { is_key_holder = v }) rows

unfoldable pub count_live_keys : Text → Keys.Table → ℕ
count_live_keys org keys = length (keep (λ k. text_eq k.org_id org && is_live k.status) keys)

abbrev pub is_child_of : Option Text → Org → Bool
is_child_of none o = elim o.parent_id [ none ↦ true | some q ↦ false ]
is_child_of (some p) o = elim o.parent_id [ none ↦ false | some q ↦ text_eq q p ]

module _ (by_name by_path : Table → Table) where
  unfoldable pub children : Option Text → Table → Table
  children parent rows = by_name (keep (is_child_of parent) rows)

  unfoldable pub subtree : Text → Table → Result OrgError Table
  subtree id rows = do
    self ← get id rows
    ok (by_path (keep (λ o. below_clause self.path o.path) rows))

  unfoldable pub all_orgs : Table → Table
  all_orgs rows = by_path rows

unfoldable pub by_external : String → String → Table → Result OrgError Org
by_external source ext rows =
    elim (find
      (λ o. same_text o.external_source (some source) && same_text o.external_id (some ext)) rows) [
        | none ↦ err org_not_found
        | some o ↦ ok o
      ]

-- The new path of a node that moves, where the move makes no cycle.
unfoldable pub target_path : Org → Option Text → Table → Result OrgError Text
target_path node none rows = ok (slash ∷ node.id)
target_path node (some p) rows = if text_eq p node.id then err org_cycle else (do
  parent ← get p rows
  if in_subtree node.path parent.path then err org_cycle else ok (parent.path ++ slash ∷ node.id))

abbrev pub drop {ℓ} : {A : Type ℓ} → ℕ → List A → List A
drop zero xs = xs
drop (suc n) [] = []
drop (suc n) (x ∷ xs) = drop n xs

-- `path = $1 || substring(path from $2)`, for the rows below the node. The database counts characters and
-- the length is in bytes: the same for the ids that the program draws, which are uuids.
unfoldable pub rebase : Text → Text → Org → Org
rebase old new o = record o { path = new ++ drop (length old) o.path }

-- The two UPDATEs of the transaction.
unfoldable pub reparent : Text → Option Text → Text → Text → Table → Table
unfolding rebase
reparent id parent old new rows =
    (update_where (has_org_id id) (λ o. record o { parent_id = parent; path = new })
      (update_where (λ o. like (old ++ slash ∷ 37 ∷ []) o.path) (rebase old new) rows).0).0

unfoldable pub move : Text → Option Text → Table → Result OrgError Table
unfolding reparent
move id parent rows = do
  node ← get id rows
  new ← target_path node parent rows
  if text_eq new node.path then ok rows else ok (reparent id parent node.path new rows)

-- `api_keys`, `users` and `requests` are the tables that foreign keys point from. The code counts the rows
-- of the first two; a row of `requests` makes the DELETE fail.
unfoldable pub delete :
    Text → Keys.Table → Users.Table → Requests.Table → Table → Result OrgError Table
delete id keys users requests rows = do
  node ← get id rows
  if ltb 0 (length (keep (is_child_of (some id)) rows))
      then err org_has_children
      else if ltb 0 (length (keep (λ k. text_eq k.org_id id) keys))
      then err org_has_keys
      else if ltb 0 (count_by_primary_org id users)
      then err org_has_users
      else if any (λ r. text_eq r.org_id id) requests
      then err constraint
      else ok (keep (λ o. not (has_org_id id o)) rows)
