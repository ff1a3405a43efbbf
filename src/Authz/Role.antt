-- ===== src/Authz/Role.antt =====
-- internal/authz/role.go: the six built-in roles.
use softmatrix_airlock.Base.{String, List, [], ◌∷◌, map}
use softmatrix_airlock.Authz.Permission.{
  all_permissions, perm_org_read, perm_org_write, perm_org_delete, perm_org_import,
  perm_member_assign, perm_grant_read, perm_grant_write, perm_key_read, perm_key_write,
  perm_key_request, perm_cost_read, perm_audit_read, perm_cost_read_all,
}

abbrev pub role_auditor : String
role_auditor = "auditor"

abbrev pub role_developer : String
role_developer = "developer"

abbrev pub role_fin_ops : String
role_fin_ops = "finops"

abbrev pub role_org_admin : String
role_org_admin = "org_admin"

abbrev pub role_platform_admin : String
role_platform_admin = "platform_admin"

abbrev pub role_security_officer : String
role_security_officer = "security_officer"

pub record Role : Type 0 where
  pub id : String
  pub name : String
  pub description : String
  pub permissions : List String

unfoldable pub all_permission_keys : List String
unfolding all_permissions
all_permission_keys = map (λ p. p.key) all_permissions

abbrev role : String → String → String → List String → Role
role i n d ps = record { id = i; name = n; description = d; permissions = ps }

unfoldable pub builtin_roles : List Role
unfolding all_permission_keys
builtin_roles =
    role role_auditor "审计员" "只读：查看审计日志与组织结构" (perm_audit_read ∷ perm_org_read ∷ [])
    ∷ role role_developer "开发者" "普通成员基线：查看自己所属组织的结构、发起密钥与提额申请"
        (perm_key_request ∷ perm_org_read ∷ [])
    ∷ role role_fin_ops "财务 / FinOps" "查看全公司成本与组织结构，用于成本归属与分摊"
        (perm_cost_read_all ∷ perm_org_read ∷ [])
    ∷ role role_org_admin "组织管理员" "管理被授予节点及其子树：组织结构、成员归属、角色授予" (
        perm_cost_read ∷ perm_grant_read ∷ perm_grant_write ∷ perm_key_read ∷ perm_key_request
        ∷ perm_key_write ∷ perm_member_assign ∷ perm_org_delete ∷ perm_org_import ∷ perm_org_read
        ∷ perm_org_write ∷ [])
    ∷ role role_platform_admin "平台管理员" "全部权限" all_permission_keys
    ∷ role role_security_officer "安全合规官" "查看审计日志与组织结构（护栏策略权限在 P4 补齐）"
        (perm_audit_read ∷ perm_org_read ∷ [])
    ∷ []
