-- ===== src/Grants/Model.antt =====
-- `Role`, `RoleGrant` and `EffectiveGrant` of internal/control/model.go, and the tables of the RBAC store.
use softmatrix_airlock.Base.{ℕ, String, Bool, Option, List}
use softmatrix_airlock.Base.Text.{Text}

pub record Role : Type 0 where
  pub id : String
  pub name : String
  pub description : String
  pub is_builtin : Bool

pub record RoleGrant : Type 0 where
  pub id : String
  pub user_id : String
  pub role_id : String
  pub org_id : Option Text
  pub granted_by : Option String
  pub created_at : ℕ

pub data GrantSource : Type 0 where
  direct inherited global : GrantSource

pub record EffectiveGrant : Type 0 where
  pub grant : RoleGrant
  pub source : GrantSource

-- A row of `role_permissions`.
pub record RolePermission : Type 0 where
  pub role_id : String
  pub permission : String

pub record Tables : Type 0 where
  pub roles : List Role
  pub role_permissions : List RolePermission
  pub role_grants : List RoleGrant

pub data RbacError : Type 0 where
  grant_not_found : RbacError
  org_not_found : RbacError
  unregistered : List String → RbacError
  constraint : RbacError
