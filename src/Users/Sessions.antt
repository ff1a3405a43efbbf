-- ===== src/Users/Sessions.antt =====
-- internal/control/sessionstore.go, on the rows of `sessions` and of `login_states`. `now` is the clock
-- of the statement.
use softmatrix_airlock.Base.{
  ℕ, String, ◌&&◌, not, none, some, List, [], ◌∷◌, ◌++◌, any, keep, find, length, Result, ok, err,
  ltb, leb, if◌then◌else◌,
}
use softmatrix_airlock.Sql.{update_where}
use softmatrix_airlock.Users.Model.{
  Session, LoginState, StoreError, session_not_found, login_state_not_found, constraint,
}
use text.Mathlib.Text.{◌==◌}

abbrev pub Sessions : Type 0
Sessions = List Session

unfoldable pub create_session : Session → Sessions → Result StoreError Sessions
create_session s rows = if any (λ r. r.id == s.id) rows then err constraint else ok (rows ++ s ∷ [])

unfoldable pub get_session : String → ℕ → Sessions → Result StoreError Session
get_session id now rows = elim (find (λ s. s.id == id && ltb now s.expires_at) rows) [
  | none ↦ err session_not_found
  | some s ↦ ok s
]

unfoldable pub touch_session : String → ℕ → Sessions → Sessions
touch_session id at rows =
    (update_where (λ s. s.id == id) (λ s. record s { last_seen_at = at }) rows).0

unfoldable pub delete_session : String → Sessions → Sessions
delete_session id rows = keep (λ s. not (s.id == id)) rows

-- The rows that are left, and how many went.
unfoldable pub delete_by_user : String → Sessions → Sessions × ℕ
delete_by_user user rows =
    (keep (λ s. not (s.user_id == user)) rows, length (keep (λ s. s.user_id == user) rows))

unfoldable pub delete_expired : ℕ → Sessions → Sessions × ℕ
delete_expired before rows = (
  keep (λ s. not (leb s.expires_at before)) rows,
  length (keep (λ s. leb s.expires_at before) rows),
)

abbrev pub LoginStates : Type 0
LoginStates = List LoginState

unfoldable pub create_login_state : LoginState → LoginStates → Result StoreError LoginStates
create_login_state s rows =
    if any (λ r. r.id == s.id) rows then err constraint else ok (rows ++ s ∷ [])

-- DELETE ... RETURNING: the row, and what is left of the table.
unfoldable pub take_login_state :
    String → ℕ → LoginStates → Result StoreError (LoginState × LoginStates)
take_login_state id now rows = elim (find (λ s. s.id == id && ltb now s.expires_at) rows) [
  | none ↦ err login_state_not_found
  | some s ↦ ok (s, keep (λ r. not (r.id == id && ltb now r.expires_at)) rows)
]

unfoldable pub delete_expired_states : ℕ → LoginStates → LoginStates × ℕ
delete_expired_states before rows = (
  keep (λ s. not (leb s.expires_at before)) rows,
  length (keep (λ s. leb s.expires_at before) rows),
)
