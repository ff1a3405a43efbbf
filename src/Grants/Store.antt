-- ===== src/Grants/Store.antt =====
-- internal/control/grantstore.go, on the rows of its tables. ORDER BY a text is a parameter, the
-- collation of the database; `now` is the clock of the statement.
use softmatrix_airlock.Base.{
  ℕ, ◌+◌, String, Bool, true, false, ◌&&◌, ◌||◌, not, Option, none, some, List, [], ◌∷◌, ◌++◌, any,
  keep, find, map, length, Result, ok, err, ◌>>=◌, if◌then◌else◌, ◌==◌ as eq_ℕ,
}
use softmatrix_airlock.Base.Text.{Text, ◌==◌ as text_eq}
use softmatrix_airlock.Paths.{split, trim_left, trim_right}
use softmatrix_airlock.Sql.{update_where, order_by}
use softmatrix_airlock.Authz.Permission.{is_known, str_lt}
use softmatrix_airlock.Authz.Role.{builtin_roles}
use softmatrix_airlock.Authz.Role as Authz
use softmatrix_airlock.Authz.Resolver.{Grant, Store, Error, has_id}
use softmatrix_airlock.Users.Model.{is_enabled}
use softmatrix_airlock.Users.Model as Users
use softmatrix_airlock.Orgs.Model as Orgs
use softmatrix_airlock.Orgs.Store.{find_org}
use softmatrix_airlock.Grants.Model.{
  Role, RoleGrant, GrantSource, EffectiveGrant, RolePermission, Tables, RbacError, grant_not_found,
  org_not_found, unregistered, constraint,
}
use text.Mathlib.Text.{◌==◌}

-- INSERT ... ON CONFLICT (id) DO UPDATE
unfoldable pub upsert_role : Authz.Role → List Role → List Role
upsert_role r roles =
    if any (λ s. s.id == r.id) roles
    then (update_where (λ s. s.id == r.id)
        (λ s. record s { name = r.name; description = r.description; is_builtin = true }) roles).0
    else roles
      ++ record { id = r.id; name = r.name; description = r.description; is_builtin = true } ∷ []

unfoldable pub insert_permissions :
    String → List String → List RolePermission → Result RbacError (List RolePermission)
insert_permissions role [] rows = ok rows
insert_permissions role (p ∷ ps) rows =
    let rest =
      insert_permissions role ps (rows ++ record { role_id = role; permission = p } ∷ []) in
    if any (λ r. r.role_id == role && r.permission == p) rows then err constraint else rest

unfoldable pub sync_role : Authz.Role → Tables → Result RbacError Tables
unfolding upsert_role
sync_role r t = do
  perms ←
      insert_permissions r.id r.permissions (keep (λ x. not (x.role_id == r.id)) t.role_permissions)
  ok (record t { roles = upsert_role r t.roles; role_permissions = perms })

-- The loop of the transaction; where a statement fails, nothing is kept.
unfoldable pub sync_roles : List Authz.Role → Tables → Result RbacError Tables
sync_roles [] t = ok t
sync_roles (r ∷ rs) t = do t' ← sync_role r t; sync_roles rs t'

unfoldable pub sync_builtin_roles : Tables → Result RbacError Tables
unfolding sync_roles
sync_builtin_roles t = sync_roles builtin_roles t

-- SELECT DISTINCT
unfoldable pub distinct : List String → List String
distinct [] = []
distinct (p ∷ ps) = let rest = distinct ps in if any (λ q. q == p) ps then rest else p ∷ rest

module _ (collate : List String → List String) (by_id : List Role → List Role) where
  unfoldable pub validate_permissions : Tables → Result RbacError (Unit {0})
  unfolding distinct
  validate_permissions t =
      elim (keep (λ p. not (is_known p))
        (collate (distinct (map (λ r. r.permission) t.role_permissions)))) [
          | [] ↦ ok tt
          | p ∷ ps ↦ err (unregistered (p ∷ ps))
        ]

  unfoldable pub list_roles : Tables → List Role
  list_roles t = by_id t.roles

-- COALESCE(org_id, '')
abbrev pub or_blank : Option Text → Text
or_blank none = []
or_blank (some o) = o

abbrev pub same_place : RoleGrant → RoleGrant → Bool
same_place a b =
    a.user_id == b.user_id
    && (a.role_id == b.role_id && text_eq (or_blank a.org_id) (or_blank b.org_id))

abbrev pub present {ℓ} : {A : Type ℓ} → (A → Bool) → Option A → Bool
present test none = true
present test (some a) = test a

-- The keys of the table, and the rows that a grant points to.
unfoldable pub create_grant :
    RoleGrant → ℕ → Users.Table → Orgs.Table → Tables → Result RbacError Tables
create_grant g now users orgs t =
    if any (λ r. r.id == g.id || same_place r g) t.role_grants
    then err constraint
    else if any (λ u. u.id == g.user_id) users
        && (any (λ r. r.id == g.role_id) t.roles
            && (present (λ o. any (λ r. text_eq r.id o) orgs) g.org_id
                && present (λ b. any (λ u. u.id == b) users) g.granted_by))
    then ok (record t { role_grants = t.role_grants ++ record g { created_at = now } ∷ [] })
    else err constraint

unfoldable pub get_grant : String → Tables → Result RbacError RoleGrant
get_grant id t = elim (find (λ g. g.id == id) t.role_grants) [
  | none ↦ err grant_not_found
  | some g ↦ ok g
]

unfoldable pub delete_grant : String → Tables → Result RbacError Tables
delete_grant id t =
    if eq_ℕ (length (keep (λ g. g.id == id) t.role_grants)) 0
    then err grant_not_found
    else ok (record t { role_grants = keep (λ g. not (g.id == id)) t.role_grants })

abbrev pub by_creation : List RoleGrant → List RoleGrant
by_creation rows = order_by (λ g. g.created_at) rows

unfoldable pub list_grants_for_user : String → Tables → List RoleGrant
list_grants_for_user user t = by_creation (keep (λ g. g.user_id == user) t.role_grants)

abbrev pub stands_on : Text → RoleGrant → Bool
stands_on org g = elim g.org_id [ none ↦ false | some o ↦ text_eq o org ]

unfoldable pub list_grants_for_org : Text → Tables → List RoleGrant
list_grants_for_org org t = by_creation (keep (stands_on org) t.role_grants)

abbrev pub is_everywhere : RoleGrant → Bool
is_everywhere g = elim g.org_id [ none ↦ true | some o ↦ false ]

unfoldable pub list_global_grants : Tables → List RoleGrant
list_global_grants t = by_creation (keep is_everywhere t.role_grants)

-- strings.Split(strings.Trim(path, "/"), "/"), the empty parts included.
unfoldable pub raw_chain : Text → List Text
raw_chain path = let (w, ws) = split (trim_right (trim_left path)) in w ∷ ws

-- `org_id = ANY($1) OR org_id IS NULL`
unfoldable pub reaches : List Text → RoleGrant → Bool
reaches chain g = elim g.org_id [ none ↦ true | some o ↦ has_id chain o ]

unfoldable pub source_of : Text → RoleGrant → GrantSource
source_of org g = elim g.org_id [
  | none ↦ GrantSource.global
  | some o ↦ if text_eq o org then GrantSource.direct else GrantSource.inherited
]

unfoldable pub list_effective_grants_for_org :
    Text → Orgs.Table → Tables → Result RbacError (List EffectiveGrant)
list_effective_grants_for_org org orgs t = elim (find_org org orgs) [
  | none ↦ err org_not_found
  | some o ↦ ok (
      map (λ g. record { grant = g; source = source_of org g })
        (by_creation (keep (reaches (raw_chain o.path)) t.role_grants)))
]

-- The JOIN counts the pairs of a grant and a user.
unfoldable pub count_pairs : (RoleGrant → Bool) → Users.Table → List RoleGrant → ℕ
count_pairs test users [] = 0
count_pairs test users (g ∷ gs) =
    let rest = count_pairs test users gs in
    if test g
    then length (keep (λ u. u.id == g.user_id && is_enabled u.status) users) + rest
    else rest

unfoldable pub count_global_grants_of_role : String → Users.Table → Tables → ℕ
unfolding count_pairs
count_global_grants_of_role role users t =
    count_pairs (λ g. g.role_id == role && is_everywhere g) users t.role_grants

-- sort.Strings
unfoldable pub insert_string : String → List String → List String
insert_string p [] = p ∷ []
insert_string p (q ∷ qs) =
    let rest = insert_string p qs in if str_lt q p then q ∷ rest else p ∷ q ∷ qs

unfoldable pub sort_strings : List String → List String
unfolding insert_string
sort_strings [] = []
sort_strings (p ∷ ps) = insert_string p (sort_strings ps)

abbrev pub permissions_of : String → List RolePermission → List String
permissions_of role rows = map (λ r. r.permission) (keep (λ r. r.role_id == role) rows)

abbrev pub resolver_grant : RoleGrant → Grant
resolver_grant g = record { role_id = g.role_id; org_id = g.org_id }

-- The `Store` of internal/authz/resolver.go on these tables.
unfoldable pub rbac_store : Orgs.Table → Tables → Store
rbac_store orgs t = record {
  grants_for_user = λ user. ok (map resolver_grant (keep (λ g. g.user_id == user) t.role_grants));
  permissions_for_role = λ role. ok (sort_strings (permissions_of role t.role_permissions));
  org_path =
      λ org. elim (find_org org orgs) [ none ↦ err Error.org_not_found | some o ↦ ok o.path ];
}
