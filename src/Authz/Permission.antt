-- ===== src/Authz/Permission.antt =====
-- internal/authz/permission.go: permission keys, their scopes and the registry.
use Prim.Native.Char.{code}
use softmatrix_airlock.Base.{
  Bool, true, false, Option, none, some, List, [], ◌∷◌, ltb, if◌then◌else◌, find, ◌==◌ as eq_ℕ,
  String,
}
use text.Mathlib.Text.{◌==◌}

pub data Scope : Type 0 where
  global org : Scope

pub record Permission : Type 0 where
  pub key : String
  pub scope : Scope
  pub desc : String

abbrev pub perm_org_read : String
perm_org_read = "org:read"

abbrev pub perm_org_write : String
perm_org_write = "org:write"

abbrev pub perm_org_delete : String
perm_org_delete = "org:delete"

abbrev pub perm_org_import : String
perm_org_import = "org:import"

abbrev pub perm_member_assign : String
perm_member_assign = "member:assign"

abbrev pub perm_grant_read : String
perm_grant_read = "grant:read"

abbrev pub perm_grant_write : String
perm_grant_write = "grant:write"

abbrev pub perm_key_read : String
perm_key_read = "key:read"

abbrev pub perm_key_write : String
perm_key_write = "key:write"

abbrev pub perm_key_request : String
perm_key_request = "key:request"

abbrev pub perm_key_revoke_all : String
perm_key_revoke_all = "key:revoke_all"

abbrev pub perm_cost_read : String
perm_cost_read = "cost:read"

abbrev pub perm_audit_read : String
perm_audit_read = "audit:read"

abbrev pub perm_cost_read_all : String
perm_cost_read_all = "cost:read_all"

abbrev pub perm_platform_configure : String
perm_platform_configure = "platform:configure"

abbrev entry : String → Scope → String → Permission
entry k s d = record { key = k; scope = s; desc = d }

-- A Go map from the key to the entry; each entry holds its key, and no key stands twice.
unfoldable pub registry : List Permission
registry =
    entry perm_org_read org "查看组织树"
    ∷ entry perm_org_write org "创建、改名、移动组织节点"
    ∷ entry perm_org_delete org "删除组织节点"
    ∷ entry perm_org_import org "通讯录导入预览与应用"
    ∷ entry perm_member_assign org "指派用户的组织归属"
    ∷ entry perm_grant_read org "查看角色授予"
    ∷ entry perm_grant_write org "授予与撤销角色"
    ∷ entry perm_key_read org "查看节点下签发的密钥"
    ∷ entry perm_key_write org "签发与吊销密钥"
    ∷ entry perm_key_request org "发起密钥与提额申请"
    ∷ entry perm_key_revoke_all global "紧急吊销全系统密钥"
    ∷ entry perm_cost_read org "查看所授节点子树的成本"
    ∷ entry perm_audit_read global "查看审计日志"
    ∷ entry perm_cost_read_all global "查看全公司成本"
    ∷ entry perm_platform_configure global "配置 SSO、模型供应商与 License"
    ∷ []

unfoldable pub lookup : String → Option Permission
unfolding registry
lookup key = find (λ p. p.key == key) registry

abbrev pub is_some {ℓ} : {A : Type ℓ} → Option A → Bool
is_some none = false
is_some (some a) = true

unfoldable pub is_known : String → Bool
unfolding lookup
is_known key = is_some (lookup key)

-- Go's `<` on strings, by code points (as by UTF-8 bytes).
unfoldable pub str_lt : String → String → Bool
str_lt String.[] String.[] = false
str_lt String.[] (String.◌∷◌ d t) = true
str_lt (String.◌∷◌ c s) String.[] = false
str_lt (String.◌∷◌ c s) (String.◌∷◌ d t) =
    let rest = str_lt s t in if eq_ℕ (code c) (code d) then rest else ltb (code c) (code d)

unfoldable pub insert : Permission → List Permission → List Permission
unfolding str_lt
insert p [] = p ∷ []
insert p (q ∷ qs) = let rest = insert p qs in if str_lt q.key p.key then q ∷ rest else p ∷ q ∷ qs

-- sort.Slice by key.
unfoldable pub sort : List Permission → List Permission
unfolding insert
sort [] = []
sort (p ∷ ps) = insert p (sort ps)

unfoldable pub all_permissions : List Permission
unfolding sort registry
all_permissions = sort registry
