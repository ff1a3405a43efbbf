-- ===== src/Console.antt =====
-- The console's HTTP side: what is refused with which status, who sees what (internal/control/workbench.go),
-- and the middleware and the routes of internal/control/routes.go.
pub mod Routes
pub mod Table
pub mod Enforced
pub mod Tests
use softmatrix_airlock.Base.{
  ℕ, String, Bool, true, false, ◌||◌, not, Option, none, some, List, [], ◌∷◌, Result, ok, err,
  ◌>>=◌, if◌then◌else◌,
}
use softmatrix_airlock.Base.Text.{Text}
use softmatrix_airlock.Paths.{is_empty}
use softmatrix_airlock.Authz.Permission.{
  perm_org_write, perm_key_write, perm_cost_read, perm_cost_read_all, perm_audit_read,
}
use softmatrix_airlock.Authz.Resolver.{Store, Subject, Error, scopes}
use softmatrix_airlock.Users.Model.{User, is_enabled}

-- The arguments of `writeError`.
pub record Refusal : Type 0 where
  pub status : ℕ
  pub code : String
  pub message : String

unfoldable pub refuse {ℓ} : {A : Type ℓ} → ℕ → String → String → Result Refusal A
refuse status code message = err (record { status = status; code = code; message = message })

unfoldable pub subject_of : User → Subject
subject_of u = record {
  user_id = u.id;
  active = is_enabled u.status;
  primary_org_id = u.primary_org_id;
}

-- `UserFromContext` of a request behind the session's middleware.
unfoldable pub user_of {ℓ} :
    {A : Type ℓ} → Option User → (User → Result Refusal A) → Result Refusal A
user_of none next = refuse 500 "internal_error" "上下文缺少用户"
user_of (some u) next = next u

module _ (store : Store) where
  unfoldable pub holds_anywhere : Subject → List String → Result Error Bool
  holds_anywhere s [] = ok false
  holds_anywhere s (p ∷ ps) = do
    let rest = holds_anywhere s ps
    found ← scopes store s p
    if found.0 || not (is_empty found.1) then ok true else rest

  -- A rule: the workbench, and the permissions of which one is needed (none for the first).
  unfoldable pub workbench_rules : List (String × List String)
  workbench_rules =
      ("my-space", [])
      ∷ ("platform", perm_org_write ∷ [])
      ∷ ("finops", perm_key_write ∷ perm_cost_read ∷ perm_cost_read_all ∷ [])
      ∷ ("security", perm_audit_read ∷ [])
      ∷ []

  unfoldable pub workbenches_of : List (String × List String) → Subject → Result Error (List String)
  unfolding holds_anywhere
  workbenches_of [] s = ok []
  workbenches_of ((id, requires) ∷ rules) s = do
    let rest = workbenches_of rules s
    visible ← (if is_empty requires then ok true else holds_anywhere s requires)
    ids ← rest
    ok (if visible then id ∷ ids else ids)

  unfoldable pub workbenches : Subject → Result Error (List String)
  unfolding workbenches_of workbench_rules
  workbenches s = workbenches_of workbench_rules s
