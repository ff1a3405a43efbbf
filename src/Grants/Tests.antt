-- ===== src/Grants/Tests.antt =====
-- Two nodes, a global administrator and a node's administrator; grants that are made and taken back, and
-- the witnesses. The handlers run on the store of internal/control/grantstore.go.
use softmatrix_airlock.Base.{
  ℕ, ◌≡◌, refl, String, false, Option, none, some, List, [], ◌∷◌, All, any, keep, map, ok,
}
use softmatrix_airlock.Base.Text.{Text, ◌==◌ as text_eq}
use softmatrix_airlock.Paths.{split, trim_left, trim_right, chain_ids, ancestor_ids}
use softmatrix_airlock.Authz.Permission.{
  Scope, perm_grant_write, perm_org_read, lookup, registry, str_lt,
}
use softmatrix_airlock.Authz.Role.{builtin_roles}
use softmatrix_airlock.Authz.Resolver.{
  can, can_grant, holds_all, effective_permissions, wrap, ancestors_of, ancestor_chain,
  apply_grants, apply_grant, grant_applies, apply_implicit_baseline, contains, add_permissions,
  has_id,
}
use softmatrix_airlock.Authz.Spec.{Allowed}
use softmatrix_airlock.Users.Model.{UserStatus, User, StoreError}
use softmatrix_airlock.Users.Model as Users
use softmatrix_airlock.Users.Store.{by_id}
use softmatrix_airlock.Users.Store as UserStore
use softmatrix_airlock.Orgs.Model.{Org}
use softmatrix_airlock.Orgs.Model as Orgs
use softmatrix_airlock.Console.{subject_of, user_of}
use softmatrix_airlock.Grants.Model.{RoleGrant, Tables}
use softmatrix_airlock.Grants.Store.{
  create_grant, get_grant, delete_grant, list_grants_for_org, list_effective_grants_for_org,
  list_roles, by_creation, resolver_grant, permissions_of, source_of, rbac_store,
  sync_builtin_roles, sort_strings, insert_string,
}
use softmatrix_airlock.Grants.Effective.{effective_grants-applies}
use softmatrix_airlock.Grants.Sync.{sync_builtin_roles-catalogue}
use softmatrix_airlock.Grants.Api.{
  Deps, GrantBody, write_grant, handle_create_grant, handle_delete_grant,
}
use softmatrix_airlock.Grants.Guard.{Created, create_grant_within, delete_grant_within}
use text.Mathlib.Text.{◌==◌}

abbrev r : Text
r = 114 ∷ []

abbrev a : Text
a = 97 ∷ []

abbrev org : Text → Option Text → Text → Org
org id parent path = record {
  id = id;
  parent_id = parent;
  name = "";
  path = path;
  external_source = none;
  external_id = none;
  is_key_holder = false;
}

abbrev node_a : Org
node_a = org a (some r) (47 ∷ 114 ∷ 47 ∷ 97 ∷ [])

abbrev orgs : Orgs.Table
orgs = org r none (47 ∷ 114 ∷ []) ∷ node_a ∷ []

abbrev user : String → User
user id = record {
  id = id;
  external_id = id;
  email = "";
  display_name = "";
  status = UserStatus.active;
  primary_org_id = none;
  last_login_at = none;
  reconciled_at = none;
  created_at = 1;
}

abbrev users : Users.Table
users = user "ada" ∷ user "bob" ∷ []

abbrev grant : String → String → Option Text → ℕ → RoleGrant
grant id who place at = record {
  id = id;
  user_id = who;
  role_id = "admin";
  org_id = place;
  granted_by = none;
  created_at = at;
}

abbrev tables : Tables
tables = record {
  roles = record { id = "admin"; name = ""; description = ""; is_builtin = false } ∷ [];
  role_permissions =
      record { role_id = "admin"; permission = perm_org_read }
      ∷ record { role_id = "admin"; permission = perm_grant_write }
      ∷ [];
  role_grants = grant "g1" "ada" (some r) 2 ∷ grant "g2" "eve" none 1 ∷ [];
}

-- The handlers on the store.
abbrev deps : Deps
deps = record {
  list_roles = λ t. ok (list_roles (λ ps. ps) (λ rs. rs) t);
  create_grant = λ g t. create_grant g 7 users orgs t;
  get_grant = get_grant;
  delete_grant = delete_grant;
  list_grants_for_org = λ o t. ok (list_grants_for_org o t);
  list_effective_grants_for_org = λ o t. list_effective_grants_for_org o orgs t;
  by_id = λ id. by_id id users;
  list_active = ok (UserStore.list_active users);
  assign_primary_org = UserStore.assign_primary_org;
  resolver = rbac_store orgs;
}

abbrev asked : GrantBody
asked = record { user_id = "bob"; role_id = "admin"; org_id = some a }

abbrev made : RoleGrant
made = record {
  id = "g3";
  user_id = "bob";
  role_id = "admin";
  org_id = some a;
  granted_by = some "ada";
  created_at = 0;
}

abbrev after : Tables
after = record tables {
  role_grants =
      grant "g1" "ada" (some r) 2 ∷ grant "g2" "eve" none 1 ∷ record made { created_at = 7 } ∷ [];
}

abbrev left_over : Tables
left_over = record tables { role_grants = grant "g2" "eve" none 1 ∷ [] }

creates : handle_create_grant deps (some (user "ada")) (some asked) "g3" tables ≡ ok (made, after)
unfolding handle_create_grant write_grant list_roles can_grant holds_all by_id create_grant can
    lookup subject_of user_of effective_permissions wrap rbac_store ancestors_of ancestor_chain
    text_eq apply_grants apply_grant grant_applies has_id chain_ids ancestor_ids split trim_left
    trim_right add_permissions apply_implicit_baseline contains sort_strings insert_string str_lt
    registry
creates = refl

deletes : handle_delete_grant deps (some (user "ada")) "g1" tables ≡ ok left_over
unfolding handle_delete_grant get_grant delete_grant can lookup subject_of user_of
    effective_permissions wrap rbac_store ancestors_of ancestor_chain text_eq apply_grants
    apply_grant grant_applies has_id chain_ids ancestor_ids split trim_left trim_right
    add_permissions apply_implicit_baseline contains sort_strings insert_string str_lt registry
deletes = refl

create_grant_within_example :
    (granter : User) × (body : GrantBody) × (some (user "ada") ≡ some granter)
    × (some asked ≡ some body)
    × Created deps granter body tables made after
create_grant_within_example =
    create_grant_within deps (some (user "ada")) (some asked) "g3" tables made after creates

delete_grant_within_example :
    (u : User) × (g : RoleGrant) × (some (user "ada") ≡ some u)
    × (get_grant "g1" tables ≡ ok g)
    × Allowed (rbac_store orgs tables) (subject_of u) perm_grant_write g.org_id
    × (delete_grant g.id tables ≡ ok left_over)
delete_grant_within_example =
    delete_grant_within deps (some (user "ada")) "g1" tables left_over deletes

effective_grants-applies_example :
    (ids : List Text) × (ancestor_chain (rbac_store orgs tables) a ≡ ok ids)
    × (list_effective_grants_for_org a orgs tables
        ≡ ok (
            map
              (λ g. record { grant = g; source = source_of a g })
              (by_creation
                (keep (λ g. grant_applies (resolver_grant g) Scope.org ids) tables.role_grants))))
unfolding text_eq
effective_grants-applies_example =
    effective_grants-applies a orgs tables node_a refl (refl, (tt, tt))

sync_builtin_roles-catalogue_example :
    (t' : Tables) × (sync_builtin_roles tables ≡ ok t')
    × All (λ r. permissions_of r.id t'.role_permissions ≡ r.permissions) builtin_roles
    × ((q : String)
        → any (λ r. r.id == q) builtin_roles ≡ false
        → permissions_of q t'.role_permissions ≡ permissions_of q tables.role_permissions)
    × (t'.role_grants ≡ tables.role_grants)
sync_builtin_roles-catalogue_example = sync_builtin_roles-catalogue tables
