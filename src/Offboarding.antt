-- ===== src/Offboarding.antt =====
-- internal/control/reconciler.go: who has left the directory is disabled here, with keys and sessions. What
-- the statements and the calls of one round answer is given by `Answers`.
pub mod Left
pub mod Revoked
pub mod Gone
pub mod Tests
use softmatrix_airlock.Base.{
  ℕ, suc, ◌+◌, String, Bool, true, false, ◌&&◌, ◌||◌, not, Option, none, some, List, [], ◌∷◌, any,
  keep, find, map, length, Result, ok, err, if◌then◌else◌,
}
use softmatrix_airlock.Paths.{is_empty}
use softmatrix_airlock.Sql.{update_where}
use softmatrix_airlock.Keys.Model.{ApiKey, is_live, Status}
use softmatrix_airlock.Keys.Model as Keys
use softmatrix_airlock.Keys.Store.{mark_upstream_blocked}
use softmatrix_airlock.Users.Model.{User}
use softmatrix_airlock.Users.Model as Users
use softmatrix_airlock.Users.Store.{is_one_of, list_active, mark_disabled}
use softmatrix_airlock.Users.Sessions.{Sessions, delete_by_user}
use text.Mathlib.Text.{◌==◌}

-- The directory's users, with whether each is enabled.
abbrev pub Remote : Type 0
Remote = List (String × Bool)

pub record Answers : Type 0 where
  pub active_external_ids : Option Remote
  pub lists : Bool
  pub mark_runs : Bool
  pub select_runs : Bool
  pub update_runs : Bool
  pub delete_runs : String → Bool
  pub decrypt : String → Option String
  pub block_key : String → Bool
  pub stamp_runs : String → Bool

pub data ReconcileError : Type 0 where
  identity_failed identity_empty list_failed mark_failed revoke_failed sessions_failed :
      ReconcileError

pub record ReconcileResult : Type 0 where
  pub checked : ℕ
  pub disabled : ℕ
  pub keys_revoked : ℕ
  pub sessions_gone : ℕ

pub record State : Type 0 where
  pub users : Users.Table
  pub keys : Keys.Table
  pub sessions : Sessions

-- `enabled, ok := remote[id]; !ok || !enabled`
unfoldable pub has_left : Remote → User → Bool
has_left remote u = elim (find (λ e. e.0 == u.external_id) remote) [
  | none ↦ true
  | some e ↦ not e.1
]

unfoldable pub to_disable : Remote → Users.Table → List String
to_disable remote users = map (λ u. u.id) (keep (has_left remote) (list_active users))

module _ (now : ℕ) (ans : Answers) where
  -- What the upstream is told of the keys, as far as it goes.
  unfoldable pub block_targets : List ApiKey → Keys.Table → Keys.Table
  block_targets [] keys = keys
  block_targets (k ∷ ks) keys = block_targets ks (elim (ans.decrypt k.upstream_key_enc) [
    | none ↦ keys
    | some upstream ↦
        if ans.block_key upstream && ans.stamp_runs k.id
        then mark_upstream_blocked k.id now keys
        else keys
  ])

  abbrev pub is_target : List String → ApiKey → Bool
  is_target ids k = is_one_of ids k.user_id && is_live k.status

  unfoldable pub revoke_by_users : List String → Keys.Table → Keys.Table × Option ℕ
  unfolding block_targets
  revoke_by_users ids keys =
      if is_empty ids
      then (keys, some 0)
      else if not ans.select_runs
      then (keys, none)
      else if not ans.update_runs
      then (keys, none)
      else (let (keys', n) =
            update_where (is_target ids) (λ k. record k { status = Status.revoked }) keys in
          (block_targets (keep (is_target ids) keys) keys', some n))

  -- The loop over the sessions: what is left, and how many went.
  unfoldable pub delete_sessions : List String → Sessions → ℕ → Sessions × Option ℕ
  delete_sessions [] sessions gone = (sessions, some gone)
  delete_sessions (id ∷ ids) sessions gone =
      let (sessions', n) = delete_by_user id sessions in
      let rest = delete_sessions ids sessions' (gone + n) in
      if ans.delete_runs id then rest else (sessions, none)

  -- From the marking on.
  unfoldable pub disable_all :
      List String → ℕ → State → State × Result ReconcileError ReconcileResult
  unfolding revoke_by_users delete_sessions
  disable_all ids checked s =
      if not ans.mark_runs
      then (s, err mark_failed)
      else (let s' = record s { users = mark_disabled ids now s.users } in
          let (keys, revoked) = revoke_by_users ids s.keys in
          elim revoked [
            | none ↦ (record s' { keys = keys }, err revoke_failed)
            | some n ↦
                let (sessions, gone) = delete_sessions ids s.sessions 0 in
                (
                  record s' { keys = keys; sessions = sessions },
                  elim gone [
                    | none ↦ err sessions_failed
                    | some m ↦ ok (record {
                      checked = checked;
                      disabled = length ids;
                      keys_revoked = n;
                      sessions_gone = m;
                    })
                  ],
                )
          ])

  unfoldable pub reconcile_once : State → State × Result ReconcileError ReconcileResult
  unfolding to_disable disable_all
  reconcile_once s = elim ans.active_external_ids [
    | none ↦ (s, err identity_failed)
    | some remote ↦
        if is_empty remote
        then (s, err identity_empty)
        else if not ans.lists
        then (s, err list_failed)
        else (let ids = to_disable remote s.users in
            let checked = length (list_active s.users) in
            if is_empty ids
            then (
              s,
              ok (record { checked = checked; disabled = 0; keys_revoked = 0; sessions_gone = 0 }),
            )
            else disable_all ids checked s)
  ]
