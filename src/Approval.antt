-- ===== src/Approval.antt =====
-- internal/control/approval.go and approvers.go: requests are submitted, decided and claimed, and the
-- approvers hear of them. The user store, the grants of the RBAC store and the permission check are
-- parameters; the uuids of the notifications are drawn by the caller, by their number.
pub mod Worker
pub mod Decide
pub mod Tests
use Prim.Native.String.{◌++◌ as str_append}
use softmatrix_airlock.Base.{
  ℕ, suc, String, Bool, true, false, ◌&&◌, ◌||◌, not, Option, none, some, List, [], ◌∷◌, ◌++◌, any,
  find, Result, ok, err, if◌then◌else◌,
}
use softmatrix_airlock.Base.Text.{Text}
use softmatrix_airlock.Paths.{ancestor_ids}
use softmatrix_airlock.Authz.Permission.{perm_key_write}
use softmatrix_airlock.Authz.Role.{builtin_roles}
use softmatrix_airlock.Authz.Resolver.{Subject, contains}
use softmatrix_airlock.Keys.Model.{ApiKey, OrgPath}
use softmatrix_airlock.Requests.Model.{
  Kind, Status, is_approved, is_bump, Request, Event, submitted, approved, rejected, Delivery,
  Notification,
}
use softmatrix_airlock.Requests.Model as Requests
use softmatrix_airlock.Requests.Store.{
  create, get, decide, mark_executed, list_all_pending, list_pending_for_org_paths,
}
use softmatrix_airlock.Requests.Outbox.{enqueue}
use softmatrix_airlock.Effects.{
  Upstream, Error, requests_error, permission_denied, not_requester, not_claimable,
  request_not_approved, World, Act, pure, throw, lift, try, ◌>>=◌, reads, writes, on_requests,
  on_outbox,
}
use softmatrix_airlock.Issuer.{Org, Crypto, Draw, get_key, issue, revoke_key}
use text.Mathlib.Text.{◌==◌}

pub record User : Type 0 where
  pub id : String
  pub email : String
  pub active : Bool
  pub primary_org_id : Option Text

pub record RoleGrant : Type 0 where
  pub user_id : String
  pub role_id : String

-- What the service is built from (`ApprovalDeps`), less the tables of the world.
pub record Deps : Type 0 where
  pub get_org : Text → Result Error Org
  pub user_by_id : String → Result Error User
  pub grants_for_org : Text → Result Error (List RoleGrant)
  pub global_grants : Result Error (List RoleGrant)
  pub can : Subject → String → Option Text → Result Error Bool
  pub scopes : Subject → String → Result Error (Bool × List Text)
  pub new_id : ℕ → String

unfoldable pub subject_of : User → Subject
subject_of u = record { user_id = u.id; active = u.active; primary_org_id = u.primary_org_id }

unfoldable pub role_grants_key_write : String → Bool
role_grants_key_write role_id = elim (find (λ r. r.id == role_id) builtin_roles) [
  | none ↦ false
  | some r ↦ contains r.permissions perm_key_write
]

module _ (deps : Deps) where
  -- The grants on the nodes of a path, in its order.
  unfoldable pub grants_on : List Text → Result Error (List RoleGrant)
  grants_on [] = ok []
  grants_on (id ∷ ids) = elim (deps.grants_for_org id) [
    | err e ↦ err e
    | ok g ↦ elim (grants_on ids) [ err e ↦ err e | ok gs ↦ ok (g ++ gs) ]
  ]

  -- The loop over the grants, with the users seen so far.
  unfoldable pub users_of : List RoleGrant → List String → List User
  users_of [] seen = []
  users_of (g ∷ gs) seen =
      let skipped = users_of gs seen in
      let rest = users_of gs (g.user_id ∷ seen) in
      if contains seen g.user_id || not (role_grants_key_write g.role_id)
      then skipped
      else elim (deps.user_by_id g.user_id) [
        | err e ↦ rest
        | ok u ↦ if u.active then u ∷ rest else rest
      ]

  unfoldable pub approvers_of : Text → Result Error (List User)
  approvers_of org_id = elim (deps.get_org org_id) [
    | err e ↦ err e
    | ok org ↦ elim (grants_on (ancestor_ids org.path)) [
      | err e ↦ err e
      | ok grants ↦ elim deps.global_grants [
        | err e ↦ err e
        | ok global ↦ ok (users_of (grants ++ global) [])
      ]
    ]
  ]

pub record SubmitInput : Type 0 where
  pub kind : Kind
  pub requester_id : String
  pub org_id : Text
  pub reason : String
  pub key_name : String
  pub models : List String
  pub target_key_id : String
  pub bump_to_budget : ℕ
  pub bump_expires_at : Option ℕ

-- The columns that both kinds fill in.
blank_request : SubmitInput → String → Request
blank_request input id = record {
  id = id;
  kind = input.kind;
  status = Status.pending;
  requester_id = input.requester_id;
  org_id = input.org_id;
  reason = input.reason;
  key_name = none;
  models = none;
  target_key_id = none;
  bump_to_budget = none;
  bump_expires_at = none;
  prev_budget = none;
  reclaimed_at = none;
  decided_by = none;
  decided_at = none;
  executed_at = none;
  issued_key_id = none;
  last_error = none;
  attempts = 0;
  created_at = 0;
}

unfoldable pub filled_request : SubmitInput → String → Request
unfolding blank_request
filled_request input id = elim input.kind [
  | Kind.new_key ↦ record (blank_request input id) {
    key_name = some input.key_name;
    models = some input.models;
  }
  | Kind.quota_bump ↦ record (blank_request input id) {
    target_key_id = some input.target_key_id;
    bump_to_budget = some input.bump_to_budget;
    bump_expires_at = input.bump_expires_at;
  }
]

unfoldable pub kind_label : Kind → String
kind_label Kind.quota_bump = "临时提额"
kind_label Kind.new_key = "新密钥"

unfoldable pub notification : String → Request → Event → String → String → String → Notification
notification id r event recipient subject body = record {
  id = id;
  request_id = r.id;
  event = event;
  channel = "email";
  recipient = recipient;
  subject = subject;
  body = body;
  status = Delivery.pending;
  attempts = 0;
  last_error = none;
  sent_at = none;
  created_at = 0;
}

unfoldable pub outcome_body : Request → String → String
outcome_body r subject = str_append "申请单 " (
    str_append r.id (
      str_append "（"
        (str_append (kind_label r.kind) (str_append "）的处理结果：" (str_append subject "。")))))

unfoldable pub submitted_body : Request → String
submitted_body r = str_append "申请单 " (
    str_append r.id
      (str_append "（" (str_append (kind_label r.kind) (str_append "）等待你的审批。\n申请理由：" r.reason))))

module _ {U : Type 0} (up : Upstream U) (crypto : Crypto) (deps : Deps) where
  -- Nobody hears of a notification that could not be queued.
  unfoldable pub enqueue_for : ℕ → Request → Event → String → String → String → ℕ → Act U (Unit {0})
  enqueue_for n r event recipient subject body now = if recipient == "" then pure tt else (do
    queued ← try (
        writes
          (on_outbox (enqueue (notification (deps.new_id n) r event recipient subject body) now)))
    pure tt)

  unfoldable pub notify_all : ℕ → Request → ℕ → List User → Act U (Unit {0})
  notify_all n r now [] = pure tt
  notify_all n r now (u ∷ us) = do
    sent ← enqueue_for n r Event.submitted u.email "有一张待审批的申请" (submitted_body r) now
    notify_all (suc n) r now us

  unfoldable pub notify_approvers : Request → ℕ → Act U (Unit {0})
  notify_approvers r now = elim (approvers_of deps r.org_id) [
    | err e ↦ pure tt
    | ok us ↦ notify_all 0 r now us
  ]

  -- The target of a bump must be there.
  unfoldable pub target_exists : SubmitInput → Act U (Unit {0})
  target_exists input = elim input.kind [
    | Kind.new_key ↦ pure tt
    | Kind.quota_bump ↦ do k ← reads (get_key up crypto input.target_key_id); pure tt
  ]

  -- The kind is one of two here, so that the source's last case does not arise.
  unfoldable pub submit_request : SubmitInput → String → ℕ → Act U Request
  submit_request input id now = do
    org ← reads (λ w. deps.get_org input.org_id)
    there ← target_exists input
    made ← writes (on_requests (create (filled_request input id) now))
    told ← notify_approvers (filled_request input id) now
    pure (filled_request input id)

  abbrev pub get_request : String → World U → Result Error Request
  get_request id w = elim (get id w.requests) [ ok r ↦ ok r | err e ↦ err (requests_error e) ]

  unfoldable pub require_key_write : String → Text → Act U (Unit {0})
  require_key_write user org = do
    u ← lift (deps.user_by_id user)
    allowed ← lift (deps.can (subject_of u) perm_key_write (some org))
    if allowed then pure tt else throw permission_denied

  -- `decide`, and `Approve` and `Reject` by their status, event and subject.
  unfoldable pub decide_request : String → String → Status → Event → String → ℕ → Act U (Unit {0})
  decide_request id decider status event subject now = do
    r ← reads (get_request id)
    may ← require_key_write decider r.org_id
    done ← writes (on_requests (decide id status decider now))
    elim (deps.user_by_id r.requester_id) [
      | err e ↦ pure tt
      | ok u ↦ enqueue_for 0 r event u.email subject (outcome_body r subject) now
    ]

  unfoldable pub approve : String → String → ℕ → Act U (Unit {0})
  approve id decider now = decide_request id decider Status.approved Event.approved "你的申请已通过" now

  unfoldable pub reject : String → String → ℕ → Act U (Unit {0})
  reject id decider now = decide_request id decider Status.rejected Event.rejected "你的申请被驳回" now

  abbrev or_blank : Option String → String
  or_blank none = ""
  or_blank (some s) = s

  abbrev or_empty : Option (List String) → List String
  or_empty none = []
  or_empty (some ms) = ms

  -- The new key is revoked again when another claim was faster.
  unfoldable pub finish_claim : Request → Text → ApiKey → ℕ → Act U (Text × ApiKey)
  finish_claim r plaintext k now = do
    marked ← try (writes (on_requests (mark_executed r.id (some k.id) none now)))
    elim marked [
      | ok u ↦ pure (plaintext, k)
      | err e ↦ do revoked ← try (revoke_key up crypto k.id now); throw e
    ]

  unfoldable pub claim : String → String → Draw → ℕ → Act U (Text × ApiKey)
  claim id requester draw now = do
    r ← reads (get_request id)
    if not (r.requester_id == requester)
        then throw not_requester
        else if is_bump r.kind
        then throw not_claimable
        else if not (is_approved r.status)
        then throw request_not_approved
        else (do
          issued ←
              issue up crypto deps.get_org
                (record {
                  org_id = r.org_id;
                  user_id = r.requester_id;
                  name = or_blank r.key_name;
                  models = or_empty r.models;
                  max_budget = none;
                  budget_duration = none;
                  rpm_limit = none;
                  tpm_limit = none;
                  expires_at = none;
                })
                draw now
          finish_claim r issued.0 issued.1 now)

  -- The paths of the nodes that are found.
  unfoldable pub paths_of : List Text → List Text
  paths_of [] = []
  paths_of (id ∷ ids) =
      let rest = paths_of ids in elim (deps.get_org id) [ err e ↦ rest | ok org ↦ org.path ∷ rest ]

  unfoldable pub list_to_approve : List OrgPath → String → Act U Requests.Table
  list_to_approve orgs user = do
    u ← lift (deps.user_by_id user)
    visible ← lift (deps.scopes (subject_of u) perm_key_write)
    if visible.0
        then reads (λ w. ok (list_all_pending w.requests))
        else reads (λ w. ok (list_pending_for_org_paths orgs (paths_of visible.1) w.requests))
