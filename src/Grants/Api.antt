-- ===== src/Grants/Api.antt =====
-- internal/control/grantapi.go. The store of the roles and the grants is a record of its methods, each of
-- which may fail; a body that is not JSON is `none`, and the new id is drawn by the caller.
use softmatrix_airlock.Base.{
  String, Bool, ◌||◌, not, Option, none, some, List, [], ◌∷◌, any, Result, ok, err, if◌then◌else◌,
}
use softmatrix_airlock.Base.Text.{Text}
use softmatrix_airlock.Authz.Permission.{perm_grant_read, perm_grant_write}
use softmatrix_airlock.Authz.Resolver.{Error, is_org_not_found, Store, Subject, can, can_grant}
use softmatrix_airlock.Users.Model.{User, StoreError, user_not_found}
use softmatrix_airlock.Users.Model as Users
use softmatrix_airlock.Console.{Refusal, refuse, subject_of, user_of, holds_anywhere}
use softmatrix_airlock.Grants.Model.{
  Role, RoleGrant, EffectiveGrant, Tables, RbacError, grant_not_found, org_not_found,
}
use text.Mathlib.Text.{◌==◌}

-- `RBACStore` and `UserStore`, as far as the handlers call them, and what the resolver reads.
pub record Deps : Type 0 where
  pub list_roles : Tables → Result RbacError (List Role)
  pub create_grant : RoleGrant → Tables → Result RbacError Tables
  pub get_grant : String → Tables → Result RbacError RoleGrant
  pub delete_grant : String → Tables → Result RbacError Tables
  pub list_grants_for_org : Text → Tables → Result RbacError (List RoleGrant)
  pub list_effective_grants_for_org : Text → Tables → Result RbacError (List EffectiveGrant)
  pub by_id : String → Result StoreError User
  pub list_active : Result StoreError (List User)
  pub assign_primary_org : String → Option Text → Users.Table → Result StoreError Users.Table
  pub resolver : Tables → Store

pub record GrantBody : Type 0 where
  pub user_id : String
  pub role_id : String
  pub org_id : Option Text

-- What a failed check of a permission is answered with.
unfoldable pub check_failed {ℓ} : {A : Type ℓ} → Error → Result Refusal A
unfolding is_org_not_found refuse
check_failed e =
    if is_org_not_found e
    then refuse 404 "org_not_found" "组织节点不存在"
    else refuse 500 "internal_error" "权限判定失败"

abbrev pub is_known_role : String → List Role → Bool
is_known_role id roles = any (λ r. r.id == id) roles

module _ (deps : Deps) where
  -- The loop of `?grantable_at`.
  unfoldable pub grantable : Subject → Text → Tables → List Role → Result Refusal (List Role)
  unfolding check_failed
  grantable s org t [] = ok []
  grantable s org t (r ∷ rs) =
      let rest = grantable s org t rs in
      elim (can_grant (deps.resolver t) s r.id (some org)) [
        | err e ↦ check_failed e
        | ok allowed ↦ elim rest [
          | err e ↦ err e
          | ok roles ↦ ok (if allowed then r ∷ roles else roles)
        ]
      ]

  unfoldable pub handle_list_roles : Option User → Option Text → Tables → Result Refusal (List Role)
  unfolding grantable user_of refuse
  handle_list_roles user none t = elim (deps.list_roles t) [
    | err e ↦ refuse 500 "internal_error" "查询角色失败"
    | ok roles ↦ ok roles
  ]
  handle_list_roles user (some at) t = elim (deps.list_roles t) [
    | err e ↦ refuse 500 "internal_error" "查询角色失败"
    | ok roles ↦ user_of user (λ u. grantable (subject_of u) at t roles)
  ]

  unfoldable pub handle_list_users : Option User → Tables → Result Refusal (List User)
  unfolding user_of refuse
  handle_list_users user t = user_of user (λ u.
      elim (holds_anywhere (deps.resolver t) (subject_of u) (perm_grant_read ∷ [])) [
        | err e ↦ refuse 500 "internal_error" "权限判定失败"
        | ok allowed ↦
            if not allowed
            then refuse 403 "permission_denied" "没有查看用户列表的权限"
            else elim deps.list_active [
              | err e ↦ refuse 500 "internal_error" "查询用户失败"
              | ok list ↦ ok list
            ]
      ])

  unfoldable pub handle_list_grants : Text → Tables → Result Refusal (List RoleGrant)
  unfolding refuse
  handle_list_grants org t = elim (deps.list_grants_for_org org t) [
    | err e ↦ refuse 500 "internal_error" "查询授予失败"
    | ok grants ↦ ok grants
  ]

  unfoldable pub handle_effective_grants : Text → Tables → Result Refusal (List EffectiveGrant)
  unfolding refuse
  handle_effective_grants org t = elim (deps.list_effective_grants_for_org org t) [
    | err e ↦ elim e [
      | org_not_found ↦ refuse 404 "org_not_found" "组织节点不存在"
      | _ ↦ refuse 500 "internal_error" "查询有效授予失败"
    ]
    | ok list ↦ ok list
  ]

  -- The last steps of a creation: the user is there, and the row is written.
  unfoldable pub write_grant :
      User → GrantBody → String → Tables → Result Refusal (RoleGrant × Tables)
  unfolding refuse
  write_grant granter body fresh t = elim (deps.by_id body.user_id) [
    | err e ↦ elim e [
      | user_not_found ↦ refuse 404 "user_not_found" "用户不存在"
      | _ ↦ refuse 500 "internal_error" "查询用户失败"
    ]
    | ok u ↦
        let g : RoleGrant = record {
          id = fresh;
          user_id = body.user_id;
          role_id = body.role_id;
          org_id = body.org_id;
          granted_by = some granter.id;
          created_at = 0;
        } in
        elim (deps.create_grant g t) [
          | err e ↦ refuse 409 "grant_conflict" "该授予已存在或无法创建"
          | ok t' ↦ ok (g, t')
        ]
  ]

  unfoldable pub handle_create_grant :
      Option User → Option GrantBody → String → Tables → Result Refusal (RoleGrant × Tables)
  unfolding user_of refuse
  handle_create_grant user none fresh t = refuse 400 "invalid_body" "请求体不是合法 JSON"
  handle_create_grant user (some body) fresh t =
      if body.user_id == "" || body.role_id == ""
      then refuse 400 "invalid_body" "user_id 与 role_id 不能为空"
      else user_of user (λ granter. elim (deps.list_roles t) [
        | err e ↦ refuse 500 "internal_error" "查询角色失败"
        | ok roles ↦
            if not (is_known_role body.role_id roles)
            then refuse 400 "role_not_found" "角色不存在"
            else elim (can_grant (deps.resolver t) (subject_of granter) body.role_id body.org_id) [
              | err e ↦ check_failed e
              | ok allowed ↦
                  if not allowed
                  then refuse 403 "escalation_denied" "不能授予自己不持有的权限"
                  else write_grant granter body fresh t
            ]
      ])

  unfoldable pub handle_delete_grant : Option User → String → Tables → Result Refusal Tables
  unfolding user_of refuse
  handle_delete_grant user id t = elim (deps.get_grant id t) [
    | err e ↦ elim e [
      | grant_not_found ↦ refuse 404 "grant_not_found" "授予不存在"
      | _ ↦ refuse 500 "internal_error" "查询授予失败"
    ]
    | ok g ↦ user_of user (λ u.
        elim (can (deps.resolver t) (subject_of u) perm_grant_write g.org_id) [
          | err e ↦ refuse 500 "internal_error" "权限判定失败"
          | ok allowed ↦
              if not allowed
              then refuse 403 "permission_denied" "没有撤销该授予的权限"
              else elim (deps.delete_grant g.id t) [
                | err e ↦ refuse 500 "internal_error" "撤销授予失败"
                | ok t' ↦ ok t'
              ]
        ])
  ]

  unfoldable pub handle_assign_primary_org :
      String → Option (Option Text) → Users.Table → Result Refusal Users.Table
  unfolding refuse
  handle_assign_primary_org id none users = refuse 400 "invalid_body" "请求体不是合法 JSON"
  handle_assign_primary_org id (some org) users = elim (deps.assign_primary_org id org users) [
    | err e ↦ elim e [
      | user_not_found ↦ refuse 404 "user_not_found" "用户不存在"
      | _ ↦ refuse 500 "internal_error" "指派组织归属失败"
    ]
    | ok users' ↦ ok users'
  ]
