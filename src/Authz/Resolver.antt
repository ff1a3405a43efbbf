-- ===== src/Authz/Resolver.antt =====
-- internal/authz/resolver.go. A Go error is a value of `Error`; `fmt.Errorf("...: %w", err)` wraps.
-- The store is the `Store` interface of that file: a record of its three queries.
use softmatrix_airlock.Base.{
  ◌≡◌, String, Bool, true, false, ◌&&◌, Option, none, some, List, [], ◌∷◌, ◌++◌, any, ok, err,
  Result, ◌>>=◌, if◌then◌else◌,
}
use softmatrix_airlock.Base.Text.{Text, ◌==◌ as text_eq}
use softmatrix_airlock.Paths.{chain_ids, in_subtree}
use softmatrix_airlock.Authz.Permission.{Scope, Permission, lookup}
use softmatrix_airlock.Authz.Role.{role_developer}
use text.Mathlib.Text.{◌==◌}

pub data Error : Type 0 where
  org_not_found : Error
  unregistered : String → Error
  failure : String → Error
  wrapped : String → Error → Error

-- errors.Is(err, ErrOrgNotFound)
unfoldable pub is_org_not_found : Error → Bool
is_org_not_found org_not_found = true
is_org_not_found (unregistered p) = false
is_org_not_found (failure m) = false
is_org_not_found (wrapped m e) = is_org_not_found e

pub record Grant : Type 0 where
  pub role_id : String
  pub org_id : Option Text

pub record Subject : Type 0 where
  pub user_id : String
  pub active : Bool
  pub primary_org_id : Option Text

pub record Store : Type 0 where
  pub grants_for_user : String → Result Error (List Grant)
  pub permissions_for_role : String → Result Error (List String)
  pub org_path : Text → Result Error Text

unfoldable pub wrap {ℓ} : {A : Type ℓ} → String → Result Error A → Result Error A
wrap m (ok a) = ok a
wrap m (err e) = err (wrapped m e)

pub wrap-ok {ℓ} :
    {A : Type ℓ} (m : String) (r : Result Error A) {a : A} → wrap m r ≡ ok a → r ≡ ok a
unfolding wrap
wrap-ok m (ok a) h = h
wrap-ok m (err e) h = cc

-- `contains`, and the reading `held[p]` of a map that is kept as the list of its true keys.
unfoldable pub contains : List String → String → Bool
contains list want = any (λ v. v == want) list

unfoldable pub has_id : List Text → Text → Bool
has_id ids id = any (λ v. text_eq v id) ids

abbrev pub is_global : Option Permission → Bool
is_global none = false
is_global (some p) = elim p.scope [ Scope.global ↦ true | Scope.org ↦ false ]

abbrev pub is_org : Scope → Bool
is_org Scope.global = false
is_org Scope.org = true

abbrev pub is_some {ℓ} : {A : Type ℓ} → Option A → Bool
is_some none = false
is_some (some a) = true

unfoldable pub grant_applies : Grant → Scope → List Text → Bool
grant_applies g scope ancestors = elim g.org_id [
  | none ↦ true
  | some o ↦ if is_org scope then has_id ancestors o else false
]

-- The inner loop of `effectivePermissions`: a global permission from a grant on a node is skipped.
unfoldable pub add_permissions : Option Text → List String → List String → List String
add_permissions org_id [] held = held
add_permissions org_id (p ∷ ps) held =
    add_permissions org_id ps (if is_global (lookup p) && is_some org_id then held else p ∷ held)

module _ (store : Store) where
  open store use {grants_for_user, permissions_for_role, org_path}

  unfoldable pub ancestor_chain : Text → Result Error (List Text)
  ancestor_chain org_id = do path ← wrap "查询节点路径失败" (org_path org_id); ok (chain_ids path)

  -- One round of the loop over the grants.
  unfoldable pub apply_grant : Scope → List Text → Grant → List String → Result Error (List String)
  apply_grant scope ancestors g held =
      if grant_applies g scope ancestors
      then (do
        perms ← wrap "查询角色权限失败" (permissions_for_role g.role_id)
        ok (add_permissions g.org_id perms held))
      else ok held

  unfoldable pub apply_grants :
      Scope → List Text → List Grant → List String → Result Error (List String)
  apply_grants scope ancestors [] held = ok held
  apply_grants scope ancestors (g ∷ gs) held = do
    held' ← apply_grant scope ancestors g held
    apply_grants scope ancestors gs held'

  -- The baseline behind its guards: the home node is known, and so is the target.
  unfoldable pub baseline_at : Text → Text → List String → Result Error (List String)
  unfolding is_org_not_found
  baseline_at home target held = elim (org_path home) [
    | err e ↦ if is_org_not_found e then ok held else err (wrapped "查询归属节点路径失败" e)
    | ok home_path ↦ do
      target_path ← wrap "查询目标节点路径失败" (org_path target)
      if in_subtree home_path target_path
          then (do
            perms ← wrap "查询开发者角色权限失败" (permissions_for_role role_developer)
            ok (add_permissions (some home) perms held))
          else ok held
  ]

  unfoldable pub apply_implicit_baseline :
      Subject → Scope → Option Text → List String → Result Error (List String)
  apply_implicit_baseline s scope none held = ok held
  apply_implicit_baseline s scope (some target) held = elim s.primary_org_id [
    | none ↦ ok held
    | some home ↦ if is_org scope then baseline_at home target held else ok held
  ]

  unfoldable pub ancestors_of : Scope → Option Text → Result Error (List Text)
  ancestors_of scope none = ok []
  ancestors_of scope (some target) = if is_org scope then ancestor_chain target else ok []

  unfoldable pub effective_permissions : Subject → Scope → Option Text → Result Error (List String)
  effective_permissions s scope target = do
    grants ← wrap "查询用户授予失败" (grants_for_user s.user_id)
    ancestors ← ancestors_of scope target
    held ← apply_grants scope ancestors grants []
    apply_implicit_baseline s scope target held

  unfoldable pub can : Subject → String → Option Text → Result Error Bool
  can s permission target = elim (lookup permission) [
    | none ↦ err (unregistered permission)
    | some def ↦
        if s.active
        then (do held ← effective_permissions s def.scope target; ok (contains held permission))
        else ok false
  ]

  unfoldable pub permissions : Subject → Option Text → Result Error (List String)
  permissions s target =
      if s.active
      then effective_permissions s (if is_some target then Scope.org else Scope.global) target
      else ok []

  -- The state of the loop of `Scopes`: `global`, and `nodes`, which `seen` repeats as a set.
  unfoldable pub scopes_step : String → Grant → Bool × List Text → Result Error (Bool × List Text)
  scopes_step permission g (all, nodes) = do
    perms ← wrap "查询角色权限失败" (permissions_for_role g.role_id)
    if contains perms permission
        then elim g.org_id [
          | none ↦ ok (true, nodes)
          | some o ↦ if has_id nodes o then ok (all, nodes) else ok (all, nodes ++ o ∷ [])
        ]
        else ok (all, nodes)

  unfoldable pub scopes_loop :
      String → List Grant → Bool × List Text → Result Error (Bool × List Text)
  scopes_loop permission [] st = ok st
  scopes_loop permission (g ∷ gs) st = do
    st' ← scopes_step permission g st
    scopes_loop permission gs st'

  unfoldable pub scopes : Subject → String → Result Error (Bool × List Text)
  scopes s permission = elim (lookup permission) [
    | none ↦ err (unregistered permission)
    | some def ↦
        if s.active
        then (do
          grants ← wrap "查询用户授予失败" (grants_for_user s.user_id)
          scopes_loop permission grants (false, []))
        else ok (false, [])
  ]

  -- The loop of `CanGrant`: every permission of the role is held.
  unfoldable pub holds_all : Subject → List String → Option Text → Result Error Bool
  holds_all granter [] target = ok true
  holds_all granter (p ∷ ps) target = do
    let rest = holds_all granter ps target
    held ← can granter p target
    if held then rest else ok false

  unfoldable pub can_grant : Subject → String → Option Text → Result Error Bool
  can_grant granter role_id target = do
    perms ← wrap "查询角色权限失败" (permissions_for_role role_id)
    elim perms [ [] ↦ ok false | p ∷ ps ↦ holds_all granter (p ∷ ps) target ]
