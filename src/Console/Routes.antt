-- ===== src/Console/Routes.antt =====
-- internal/control/routes.go with the middleware of internal/control/{server,auth}.go: how a request comes
-- to the handler of a route. A request has its path values, its cookie, and the fields of its body; what the
-- mux matches is given.
use softmatrix_airlock.Base.{
  ℕ, String, Bool, true, false, ◌&&◌, not, Option, none, some, Result, ok, err, if◌then◌else◌,
}
use softmatrix_airlock.Base.Text.{Text}
use softmatrix_airlock.Paths.{non_empty}
use softmatrix_airlock.Authz.Resolver.{Store, can, is_org_not_found}
use softmatrix_airlock.Users.Model.{User, Session, is_enabled}
use softmatrix_airlock.Users.Model as Users
use softmatrix_airlock.Users.Sessions.{Sessions, get_session, touch_session}
use softmatrix_airlock.Users.Store.{by_id}
use softmatrix_airlock.License.{Gate, allow_write}
use softmatrix_airlock.Console.{Refusal, refuse, subject_of, user_of}

pub data AccessMode : Type 0 where
  access_undeclared access_public access_authenticated access_permission : AccessMode

pub data LicenseMode : Type 0 where
  license_undeclared license_always license_requires_valid : LicenseMode

-- `TargetFromPath`, `TargetFromBody` and `TargetGlobal`; `no_target` is the nil of a route without one.
pub data TargetExtractor : Type 0 where
  target_from_path : String → TargetExtractor
  target_from_body : String → TargetExtractor
  target_global : TargetExtractor
  no_target : TargetExtractor

pub record Route : Type 0 where
  pub pattern : String
  pub access : AccessMode
  pub permission : String
  pub target : TargetExtractor
  pub license : LicenseMode

-- A body that cannot be read is `none`; one that is not a JSON object has no fields.
pub record Request : Type 0 where
  pub path_value : String → Text
  pub body : Option (String → Option Text)
  pub cookie : Option String

abbrev pub filled : Text → Option Text
filled t = if non_empty t then some t else none

abbrev pub filled_field : Option Text → Option Text
filled_field none = none
filled_field (some t) = filled t

-- The target, or `none` where it cannot be extracted.
unfoldable pub target_of : TargetExtractor → Request → Option (Option Text)
target_of (target_from_path name) r = some (filled (r.path_value name))
target_of (target_from_body field) r = elim r.body [
  | none ↦ none
  | some fields ↦ some (filled_field (fields field))
]
target_of target_global r = some none
target_of no_target r = some none

abbrev pub needs_license : LicenseMode → Bool
needs_license license_undeclared = false
needs_license license_always = false
needs_license license_requires_valid = true

abbrev pub needs_permission : AccessMode → Bool
needs_permission access_undeclared = false
needs_permission access_public = false
needs_permission access_authenticated = false
needs_permission access_permission = true

abbrev pub is_public : AccessMode → Bool
is_public access_undeclared = false
is_public access_public = true
is_public access_authenticated = false
is_public access_permission = false

module _ {A : Type 0} (store : Store) (gate : Gate) (now : ℕ) where
  -- The permission's part of `enforce`, for a route that declares one.
  unfoldable pub check_permission :
      Route → Request → Option User → (Option User → Result Refusal A) → Result Refusal A
  unfolding user_of refuse subject_of target_of is_org_not_found
  check_permission rt r user handler = user_of user (λ u. elim (target_of rt.target r) [
    | none ↦ refuse 400 "invalid_body" "无法解析请求体"
    | some target ↦ elim (can store (subject_of u) rt.permission target) [
      | err e ↦
          if is_org_not_found e
          then refuse 404 "org_not_found" "组织节点不存在"
          else refuse 500 "internal_error" "权限判定失败"
      | ok allowed ↦
          if not allowed then refuse 403 "permission_denied" "没有执行该操作的权限" else handler user
    ]
  ])

  unfoldable pub enforce :
      Route → Request → Option User → (Option User → Result Refusal A) → Result Refusal A
  unfolding check_permission refuse
  enforce rt r user handler =
      if needs_license rt.license && not (allow_write gate now)
      then refuse 402 "license_expired" "授权已过期，该操作已暂停"
      else if not (needs_permission rt.access)
      then handler user
      else check_permission rt r user handler

  -- `hash` is `HashSessionToken`. The session afterwards has the time of this request if the UPDATE
  -- runs (`touches`); that it fails is only logged.
  unfoldable pub require_session :
      (String → String)
      → Bool
      → Users.Table
      → Sessions
      → Request
      → (Option User → Result Refusal A)
      → Result Refusal A × Sessions
  unfolding refuse
  require_session hash touches users sessions r next = elim r.cookie [
    | none ↦ (refuse 401 "no_session" "未登录", sessions)
    | some token ↦ elim (get_session (hash token) now sessions) [
      | err e ↦ (refuse 401 "no_session" "会话无效或已过期", sessions)
      | ok sess ↦ elim (by_id sess.user_id users) [
        | err e ↦ (refuse 401 "no_session" "会话对应的用户不存在", sessions)
        | ok user ↦
            if not (is_enabled user.status)
            then (refuse 403 "user_disabled" "该账号已被禁用", sessions)
            else (
              next (some user),
              if touches then touch_session sess.id now sessions else sessions,
            )
      ]
    ]
  ]

  -- `Server.Handler`: the session's middleware stands before every route that is not public.
  unfoldable pub serve :
      (String → String)
      → Bool
      → Users.Table
      → Sessions
      → Route
      → Request
      → (Option User → Result Refusal A)
      → Result Refusal A × Sessions
  unfolding enforce require_session
  serve hash touches users sessions rt r handler =
      if is_public rt.access
      then (enforce rt r none handler, sessions)
      else require_session hash touches users sessions r (λ user. enforce rt r user handler)
